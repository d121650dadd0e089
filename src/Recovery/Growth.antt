-- ===== src/Recovery/Growth.antt =====
-- bin/recover_http_status.py: nothing that is in the queue leaves it.
use pub_crawler.Base.{
  String, ℕ, ◌+◌, ◌++◌, ◌≡◌, refl, ap, ◌∙◌, Option, none, some, List, [], ◌∷◌, Bool-cases, inl, inr,
  arith, eq_iff,
}
use pub_crawler.Exec.{Result, ok, raised, Exec, pure, lift, continue_with, ◌>>=◌}
use pub_crawler.Exec.Fallible.{Result-cases}
use pub_crawler.Json.{Value, null}
use pub_crawler.Job.{get_or}
use pub_crawler.Redis.{Redis}
use pub_crawler.Platform.{Platform}
use pub_crawler.Dispatcher.{Dispatcher, job_to_member, job_to_hash, or_no_jid}
use pub_crawler.Dispatcher
use pub_crawler.Dispatcher.Codec.{job_to_member-parts}
use pub_crawler.Dispatcher.Methods.{view, enqueue_lem, enqueue_raises, enqueue_unwritten}
use pub_crawler.Handlers.{actor_job_at}
use pub_crawler.World.{Setting, World}
use pub_crawler.Recovery.Status.{
  enqueued, actor_depth, recover_actor, job_with, job_about, with_depth, not_none,
  recover_collection, recover_page, has_code, recover_direction, recover_node, recover_nodes,
}
use pub_crawler.Recovery.Depths.{depth_kept}

module _ (r : Redis) (p : Platform) (now : ℕ) (job : Value) (d : Dispatcher r) where
  abbrev pub queue_of : Dispatcher r → String → Option ℕ
  queue_of e = (view r p e).queue

  job_hashed :
      (member : String)
      → job_to_member p now job ≡ ok member
      → (h : String) × (job_to_hash p job ≡ ok h)
  unfolding job_to_hash or_no_jid
  job_hashed member m =
      let parts = job_to_member-parts p now job member m in
      (p.blake2b parts.jid, rw parts.identified refl)

  -- `enqueue` takes nothing out of the queue
  enqueue_keeps :
      (k : String)
      → queue_of d k ≡ some 0
      → queue_of (Dispatcher.enqueue r p now job d).1 k ≡ some 0
  enqueue_keeps k q = elim (Result-cases (p.dumps job)) [
    | inr (e, unwritten) ↦ rw (enqueue_unwritten r p d job e unwritten now) q
    | inl (text, dumped) ↦ elim (Result-cases (job_to_member p now job)) [
      | inr (e, bad) ↦ ap (λ v. v.queue k) (enqueue_raises r p d job now e dumped bad).viewed ∙ q
      | inl (member, m) ↦
          ap (λ v. v.queue k) (enqueue_lem r p d job now dumped m (job_hashed member m).1).viewed
          ∙ ground (arith, q)
    ]
  ]

  -- where it returns, the job is in the queue
  pub enqueue_puts :
      (Dispatcher.enqueue r p now job d).0 ≡ ok tt
      → (member : String) × (job_to_member p now job ≡ ok member)
        × (queue_of (Dispatcher.enqueue r p now job d).1 member ≡ some 0)
  enqueue_puts returned = elim (Result-cases (p.dumps job)) [
    | inr (e, unwritten) ↦
        absurd (cc (returned, ap (λ c. c.0) (enqueue_unwritten r p d job e unwritten now)))
    | inl (text, dumped) ↦ elim (Result-cases (job_to_member p now job)) [
      | inr (e, bad) ↦ absurd (cc (returned, (enqueue_raises r p d job now e dumped bad).result))
      | inl (member, m) ↦ (
        member,
        m,
        ap (λ v. v.queue member) (enqueue_lem r p d job now dumped m (job_hashed member m).1).viewed
            ∙ rw ((eq_iff member member).1 refl) refl,
      )
    ]
  ]

module _ (w : Setting) where
  abbrev pub in_queue : World w → String → Option ℕ
  in_queue s = (view w.redis w.platform s.jobs).queue

  -- nothing leaves the queue, whether the coroutine returns or raises
  pub record Grows {A : Type 0} (m : Exec (World w) A) : Type 0 where
    pub grown : (s : World w) (k : String) → in_queue s k ≡ some 0 → in_queue (m s).1 k ≡ some 0

  module _ {A B : Type 0} where
    continued :
        (f : A → Exec (World w) B) (a : Result A) (t : World w) (k : String)
        → ((x : A) → Grows (f x))
        → in_queue t k ≡ some 0
        → in_queue (continue_with f a t).1 k ≡ some 0
    continued f (ok x) t k g q = (g x).grown t k q
    continued f (raised e) t k g q = q

    bind-Grows :
        (m : Exec (World w) A) (f : A → Exec (World w) B)
        → Grows m
        → ((x : A) → Grows (f x))
        → Grows (m >>= f)
    bind-Grows m f g h = record { grown = λ s k q. continued f (m s).0 (m s).1 k h (g.grown s k q) }

  pure-Grows : {A : Type 0} (a : A) → Grows (pure a)
  pure-Grows a = record { grown = λ s k q. q }

  lift-Grows : {A : Type 0} (a : Result A) → Grows (lift a)
  lift-Grows a = record { grown = λ s k q. q }

  module _ (now : ℕ → ℕ) where
    enqueued-Grows : (total : ℕ) (job : Value) → Grows (enqueued w now total job)
    unfolding enqueued
    enqueued-Grows total job = record {
      grown = λ s k q.
          continued (λ u. pure 1) _ _ k (λ u. pure-Grows 1)
            (enqueue_keeps w.redis w.platform (now total) job s.jobs k q);
    }

    job_with-Grows :
        (job : Value → Value) (total : ℕ) (o : Option Value) → Grows (job_with w now job total o)
    unfolding job_with
    job_with-Grows job total none = pure-Grows 0
    job_with-Grows job total (some d) = enqueued-Grows total (job d)

    job_about-Grows :
        (job : Value → Value → Value) (total : ℕ) (props : Value) (o : Option Value)
        → Grows (job_about w now job total props o)
    unfolding job_about
    job_about-Grows job total props none = pure-Grows 0
    job_about-Grows job total props (some id) =
        bind-Grows (lift (get_or props "depth" null))
          (λ d. job_with w now (job id) total (not_none d)) (lift-Grows _)
          (λ d. job_with-Grows (job id) total (not_none d))

    with_depth-Grows :
        (job : Value → Value → Value) (total : ℕ) (name : String) (props : Value)
        → Grows (with_depth w now job total name props)
    unfolding with_depth
    with_depth-Grows job total name props =
        bind-Grows (lift (get_or props name null))
          (λ id. job_about w now job total props (not_none id)) (lift-Grows _)
          (λ id. job_about-Grows job total props (not_none id))

    direction-Grows :
        (seeds : List String) (codes : List ℕ) (total : ℕ) (label : String) (props : Value)
        (direction : String)
        → Grows (recover_direction w now seeds codes total label props direction)
    unfolding recover_direction recover_collection recover_page
    direction-Grows seeds codes total label props direction = record {
      grown = λ s k q.
          elim (Result-cases (has_code w now seeds codes props (direction ++ "_http_status"))) [
            | inr (e, bad) ↦ rw (recover_direction, bad) q
            | inl (b, found) ↦ elim (Bool-cases b) [
              | inl yes_it ↦
                  rw (recover_direction, found, yes_it)
                    ((with_depth-Grows _ total direction props).grown s k q)
              | inr not_it ↦
                  elim (Result-cases
                    (has_code w now seeds codes props (direction ++ "_last_page_http_status"))) [
                      | inr (e, bad) ↦ rw (recover_direction, found, not_it, bad) q
                      | inl (c, page) ↦ elim (Bool-cases c) [
                        | inl is_page ↦
                            rw (recover_direction, found, not_it, page, is_page)
                              ((with_depth-Grows _ total (direction ++ "_last_page") props).grown s
                                k q)
                        | inr neither ↦ rw (recover_direction, found, not_it, page, neither) q
                      ]
                    ]
            ]
          ];
    }

    actor-Grows :
        (seeds : List String) (total : ℕ) (id : String) (props : Value)
        → Grows (recover_actor w now seeds total id props)
    unfolding recover_actor
    actor-Grows seeds total id props =
        bind-Grows (actor_depth w now seeds id props)
          (λ d. job_with w now (actor_job_at id) total d)
          (record {
            grown = λ s k q.
                ap (λ d. (view w.redis w.platform d).queue k) (depth_kept w now seeds id props s)
                ∙ q;
          })
          (λ d. job_with-Grows (actor_job_at id) total d)

    module _ (seeds : List String) (codes : List ℕ) where
      pub node-Grows :
          (total : ℕ) (label : String) (props : Value)
          → Grows (recover_node w now seeds codes total label props)
      unfolding recover_node
      node-Grows total label props = record {
        grown = λ s k q. elim (Result-cases (has_code w now seeds codes props "http_status")) [
          | inr (e, bad) ↦ rw (recover_node, bad) q
          | inl (b, found) ↦ elim (Bool-cases b) [
            | inl actor ↦
                rw (recover_node, found, actor) ((actor-Grows seeds total label props).grown s k q)
            | inr other ↦
                rw (recover_node, found, other)
                  ((bind-Grows (recover_direction w now seeds codes total label props "followers")
                      (λ n.
                        recover_direction w now seeds codes (total + n) label props "following"
                        >>= λ m. pure (n + m))
                      (direction-Grows seeds codes total label props "followers")
                      (λ n.
                        bind-Grows
                          (recover_direction w now seeds codes (total + n) label props "following")
                          (λ m. pure (n + m))
                          (direction-Grows seeds codes (total + n) label props "following")
                          (λ m. pure-Grows (n + m)))).grown
                    s k q)
          ]
        ];
      }

      pub nodes-Grows :
          (rows : List (ℕ × String × Value)) (total : ℕ)
          → Grows (recover_nodes w now seeds codes total rows)
      unfolding recover_nodes
      nodes-Grows [] total = pure-Grows total
      nodes-Grows ((i, label, props) ∷ rows) total =
          bind-Grows (recover_node w now seeds codes total label props)
            (λ n. recover_nodes w now seeds codes (total + n) rows) (node-Grows total label props)
            (λ n. nodes-Grows rows (total + n))
