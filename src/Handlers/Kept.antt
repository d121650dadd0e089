-- ===== src/Handlers/Kept.antt =====
-- pub_crawler/handle_items.py: what is done with the graph leaves the dispatcher as it was.
use pub_crawler.Base.{String, ℕ, ◌≡◌, refl, ◌∙◌, true, ◌++◌, List, Bool-cases, inl, inr}
use pub_crawler.Exec.{Result, ok, raised, Exec, continue_with, ◌>>◌}
use pub_crawler.Exec.Fallible.{Result-cases}
use pub_crawler.Json.{Value, bool}
use pub_crawler.Json.Python.{add_one, as_label}
use pub_crawler.Job.{is_text, format}
use pub_crawler.Graph
use pub_crawler.Graph.{Graph}
use pub_crawler.Graph.Properties
use pub_crawler.World.{Setting, World, on_graph}
use pub_crawler.Handlers.{connect, set_depths, put_items}

module _ (w : Setting) (order : List String → List String) (now : ℕ) where
  one_on_graph :
      (r : Result (Unit {0})) (m : Exec (Graph w.ids w.labels) Unit) (t : World w)
      → (continue_with (λ u. on_graph w m) r t).1.jobs ≡ t.jobs
  one_on_graph (ok a) m t = refl
  one_on_graph (raised e) m t = refl

  two_on_graph :
      (r : Result String) (f g : String → Exec (Graph w.ids w.labels) Unit) (t : World w)
      → (continue_with (λ o. on_graph w (f o) >> on_graph w (g o)) r t).1.jobs ≡ t.jobs
  two_on_graph (ok o) f g t =
      one_on_graph (f o t.graph).0 (g o) (record t { graph = (f o t.graph).1 })
  two_on_graph (raised e) f g t = refl

  connect_kept :
      (ids : List String) (owner direction : Value) (s : World w)
      → (connect w order now ids owner direction s).1.jobs ≡ s.jobs
  unfolding connect
  connect_kept ids owner direction s = elim (Bool-cases (is_text direction "followers")) [
    | inl to_owner ↦
        rw (connect, to_owner)
          (two_on_graph (as_label owner) (λ o. Graph.ensure_to_edges w.ids w.labels now ids o)
            (λ o.
              Properties.set_to_edges_property w.ids w.labels w.postgres ids o
                ("from_" ++ format w.platform.text_of direction) (bool true))
            s)
    | inr other ↦ elim (Bool-cases (is_text direction "following")) [
      | inl from_owner ↦
          rw (connect, other, from_owner)
            (two_on_graph (as_label owner) (λ o. Graph.ensure_from_edges w.ids w.labels now o ids)
              (λ o.
                Properties.set_from_edges_property w.ids w.labels w.postgres o ids
                  ("from_" ++ format w.platform.text_of direction) (bool true))
              s)
      | inr neither ↦ rw (connect, other, neither) refl
    ]
  ]

  depths_kept :
      (ids : List String) (depth : Value) (s : World w)
      → (set_depths w order now ids depth s).1.jobs ≡ s.jobs
  unfolding set_depths
  depths_kept ids depth s =
      elim (Result-cases
        (Properties.get_nodes_property w.ids w.labels w.postgres ids "depth" s.graph).0) [
          | inr (e, bad) ↦ rw (set_depths, bad) refl
          | inl (d, good) ↦ elim (Result-cases (add_one depth)) [
            | inr (e, bad) ↦ rw (set_depths, good, bad) refl
            | inl (next, added) ↦ rw (set_depths, good, added) refl
          ]
        ]

  both_kept :
      (r : Result (Unit {0})) (m n : Exec (World w) Unit) (t : World w)
      → ((s : World w) → (m s).1.jobs ≡ s.jobs)
      → ((s : World w) → (n s).1.jobs ≡ s.jobs)
      → (continue_with (λ u. m >> n) r t).1.jobs ≡ t.jobs
  both_kept (raised e) m n t k l = refl
  both_kept (ok a) m n t k l = elim (Result-cases (m t).0) [
    | inr (e, bad) ↦ rw bad (k t)
    | inl (b, good) ↦ rw good (l (m t).1 ∙ k t)
  ]

  pub put_items_kept :
      (ids : List String) (owner direction depth : Value) (s : World w)
      → (put_items w order now ids owner direction depth s).1.jobs ≡ s.jobs
  unfolding put_items
  put_items_kept ids owner direction depth s =
      both_kept (Graph.ensure_nodes w.ids w.labels w.postgres ids s.graph).0
        (connect w order now ids owner direction) (set_depths w order now ids depth)
        (record s { graph = (Graph.ensure_nodes w.ids w.labels w.postgres ids s.graph).1 })
        (connect_kept ids owner direction) (depths_kept ids depth)
