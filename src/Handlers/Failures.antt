-- ===== src/Handlers/Failures.antt =====
-- A handler whose request fails makes no job.
use pub_crawler.Base.{
  if◌then◌else◌, String, ℕ, ◌≡◌, refl, ap, ◌∙◌, Bool, true, false, Option, none, some, List, inl,
  inr, ◌⊎◌,
}
use pub_crawler.Base.Int.{ℤ}
use pub_crawler.Exec.{
  Result, ok, raised, Error, http_status, Exec, pure, lift, continue_with, ◌>>=◌,
}
use pub_crawler.Json.{Value, empty, dict}
use pub_crawler.Json.Python.{truthy, as_label}
use pub_crawler.Job.{index}
use pub_crawler.Graph
use pub_crawler.Graph.Properties
use pub_crawler.Graph.{Graph}
use pub_crawler.World.{Setting, World, on_graph}
use pub_crawler.Handlers.{or_status}
use pub_crawler.Handlers.Page
use pub_crawler.Handlers.Collection
use pub_crawler.Handlers.Actor

-- the request failed: with a status, or with an exception that the handler lets through
pub or_status-raised :
    {A : Type 0} (d : A) (e : Error)
    → ((n : ℕ) × (or_status d (raised e) ≡ ok (d, some n)))
      ⊎ ((x : Error) × (or_status d (raised e) ≡ raised x))
unfolding or_status
or_status-raised d (http_status n) = inl (n, refl)
or_status-raised d e = inr (e, refl)

-- a coroutine that leaves the dispatcher as it was, whether it returns or raises
pub record KeepsJobs (w : Setting) {A : Type 0} (m : Exec (World w) A) : Type 0 where
  pub kept : (s : World w) → (m s).1.jobs ≡ s.jobs

module _ (w : Setting) {A : Type 0} where
  lift-KeepsJobs : (r : Result A) → KeepsJobs w (lift r)
  lift-KeepsJobs r = record { kept = λ s. refl }

  on_graph-KeepsJobs : (m : Exec (Graph w.ids w.labels) A) → KeepsJobs w (on_graph w m)
  on_graph-KeepsJobs m = record { kept = λ s. refl }

module _ (w : Setting) {A B : Type 0} where
  continue_with-KeepsJobs :
      (f : A → Exec (World w) B) (r : Result A) (t : World w)
      → ((a : A) → KeepsJobs w (f a))
      → (continue_with f r t).1.jobs ≡ t.jobs
  continue_with-KeepsJobs f (ok a) t l = (l a).kept t
  continue_with-KeepsJobs f (raised e) t l = refl

  bind-KeepsJobs :
      (m : Exec (World w) A) (f : A → Exec (World w) B)
      → KeepsJobs w m
      → ((a : A) → KeepsJobs w (f a))
      → KeepsJobs w (m >>= f)
  bind-KeepsJobs m f k l = record {
    kept = λ s. continue_with-KeepsJobs f (m s).0 (m s).1 l ∙ k.kept s;
  }

  lift_then-KeepsJobs :
      (r : Result A) (f : A → Exec (World w) B)
      → ((a : A) → KeepsJobs w (f a))
      → KeepsJobs w (lift r >>= f)
  lift_then-KeepsJobs r f l = bind-KeepsJobs (lift r) f (lift-KeepsJobs w r) l

  graph_then-KeepsJobs :
      (m : Exec (Graph w.ids w.labels) A) (f : A → Exec (World w) B)
      → ((a : A) → KeepsJobs w (f a))
      → KeepsJobs w (on_graph w m >>= f)
  graph_then-KeepsJobs m f l = bind-KeepsJobs (on_graph w m) f (on_graph-KeepsJobs w m) l

  -- after a request that failed, only what is done with a status matters
  failed_then-KeepsJobs :
      (d : A) (r : Result A) (f : A × Option ℕ → Exec (World w) B) (e : Error)
      → r ≡ raised e
      → ((n : ℕ) → KeepsJobs w (f (d, some n)))
      → KeepsJobs w (lift (or_status d r) >>= f)
  failed_then-KeepsJobs d r f e h l = record {
    kept = λ s. elim (or_status-raised d e) [
      | inl (n, q) ↦
          ap (λ x. (continue_with f (or_status d x) s).1.jobs) h
          ∙ ap (λ x. (continue_with f x s).1.jobs) q
          ∙ (l n).kept s
      | inr (x, q) ↦
          ap (λ x. (continue_with f (or_status d x) s).1.jobs) h
          ∙ ap (λ x. (continue_with f x s).1.jobs) q
    ];
  }

module _ (w : Setting) (order : List String → List String) (now : ℕ) (job : Value) where
  module _ (answer : Value → Result Value)
      (fails : (v : Value) → (e : Error) × (answer v ≡ raised e)) where
    -- When every request fails, with a status or otherwise, the handler of a page leaves the
    -- dispatcher as it was, whatever the job: it makes no job.
    pub page_failed : KeepsJobs w (Page.handle w order now answer job)
    unfolding Page.handle
    page_failed = lift_then-KeepsJobs w (index job "page_id") _ λ page_id.
        lift_then-KeepsJobs w (index job "owner_id") _ λ owner_id.
          lift_then-KeepsJobs w (index job "direction") _ λ direction.
            lift_then-KeepsJobs w (index job "depth") _ λ depth.
              lift_then-KeepsJobs w (as_label owner_id) _ λ owner.
                graph_then-KeepsJobs w (Graph.ensure_node w.ids w.labels w.postgres owner) _ λ u.
                  graph_then-KeepsJobs w
                    (Properties.set_node_properties w.ids w.labels w.postgres owner _) _
                    λ u.
                      failed_then-KeepsJobs w (dict empty) (answer page_id) _ (fails page_id).0
                        (fails page_id).1
                        λ n.
                          on_graph-KeepsJobs w
                            (Properties.set_node_properties w.ids w.labels w.postgres owner _)

    -- When every request fails, with a status or otherwise, the handler of a collection leaves the
    -- dispatcher as it was, whatever the job: it makes no job.
    pub collection_failed :
        (max_depth : ℤ) → KeepsJobs w (Collection.handle w order now max_depth answer job)
    unfolding Collection.handle
    collection_failed max_depth =
        lift_then-KeepsJobs w (index job "collection_id") _ λ collection_id.
          lift_then-KeepsJobs w (index job "owner_id") _ λ owner_id.
            lift_then-KeepsJobs w (index job "direction") _ λ direction.
              lift_then-KeepsJobs w (index job "depth") _ λ depth.
                lift_then-KeepsJobs w (as_label owner_id) _ λ owner.
                  graph_then-KeepsJobs w (Graph.ensure_node w.ids w.labels w.postgres owner) _ λ u.
                    failed_then-KeepsJobs w (dict empty) (answer collection_id) _
                      (fails collection_id).0 (fails collection_id).1
                      λ n.
                        on_graph-KeepsJobs w
                          (Properties.set_node_properties w.ids w.labels w.postgres owner _)

  if-KeepsJobs :
      {A : Type 0} (b : Bool) (m n : Exec (World w) A)
      → KeepsJobs w m
      → KeepsJobs w n
      → KeepsJobs w (if b then m else n)
  if-KeepsJobs true m n k l = k
  if-KeepsJobs false m n k l = l

  module _ (hostname : Value → Result Value) (time : String)
      (answer : Value → Result (Value × (String → Option Value)))
      (fails : (v : Value) → (e : Error) × (answer v ≡ raised e)) where
    -- When every request fails, with a status or otherwise, the handler of an actor leaves the
    -- dispatcher as it was, whatever the job: it makes no job.
    pub actor_failed : KeepsJobs w (Actor.handle w order now hostname time answer job)
    unfolding Actor.handle
    actor_failed = lift_then-KeepsJobs w (index job "actor_id") _ λ actor_id.
        lift_then-KeepsJobs w (index job "depth") _ λ depth.
          lift_then-KeepsJobs w (as_label actor_id) _ λ actor.
            graph_then-KeepsJobs w (Graph.ensure_node w.ids w.labels w.postgres actor) _ λ u.
              graph_then-KeepsJobs w
                (Properties.get_node_property w.ids w.labels w.postgres actor "last_fetch_date") _
                λ date. lift_then-KeepsJobs w (hostname actor_id) _ λ host.
                  if-KeepsJobs (truthy date) (pure tt) _ (lift-KeepsJobs w (ok tt)) (
                    failed_then-KeepsJobs w (dict empty, λ k. none) (answer actor_id) _
                      (fails actor_id).0 (fails actor_id).1
                      λ n.
                        on_graph-KeepsJobs w
                          (Properties.set_node_properties w.ids w.labels w.postgres actor _))
