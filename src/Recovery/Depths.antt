-- ===== src/Recovery/Depths.antt =====
-- bin/recover_http_status.py: finding the depth of an actor leaves the dispatcher as it was.
use pub_crawler.Base.{String, ℕ, ◌≡◌, refl, Option, none, some, List, Bool-cases, inl, inr}
use pub_crawler.Exec.Fallible.{Result-cases}
use pub_crawler.Json.{Value}
use pub_crawler.Json.Python.{contains_key, add_one}
use pub_crawler.Job.{index}
use pub_crawler.Graph.Properties
use pub_crawler.Graph.Queries
use pub_crawler.Handlers.{contains_text}
use pub_crawler.World.{Setting, World}
use pub_crawler.Recovery.Status.{neighbor_depth, actor_depth, one_deeper, not_none}

module _ (w : Setting) (now : ℕ → ℕ) where
  one_deeper_kept : (o : Option Value) (s : World w) → (one_deeper w now o s).1.jobs ≡ s.jobs
  unfolding one_deeper
  one_deeper_kept none s = refl
  one_deeper_kept (some v) s = elim (Result-cases (add_one v)) [
    | inr (e, bad) ↦ rw (one_deeper, bad) refl
    | inl (n, added) ↦ rw (one_deeper, added) refl
  ]

  neighbor_kept : (o : Option String) (s : World w) → (neighbor_depth w now o s).1.jobs ≡ s.jobs
  unfolding neighbor_depth
  neighbor_kept none s = refl
  neighbor_kept (some n) s =
      elim (Result-cases
        (Properties.get_node_property w.ids w.labels w.postgres n "depth" s.graph).0) [
          | inr (e, bad) ↦ rw (neighbor_depth, bad) refl
          | inl (d, got) ↦ rw (neighbor_depth, got) (one_deeper_kept (not_none d) _)
        ]

  pub depth_kept :
      (seeds : List String) (id : String) (props : Value) (s : World w)
      → (actor_depth w now seeds id props s).1.jobs ≡ s.jobs
  unfolding actor_depth
  depth_kept seeds id props s = elim (Bool-cases (contains_text seeds id)) [
    | inl seed ↦ rw (actor_depth, seed) refl
    | inr other ↦ elim (Result-cases (contains_key props "depth")) [
      | inr (e, bad) ↦ rw (actor_depth, other, bad) refl
      | inl (b, known) ↦ elim (Bool-cases b) [
        | inl has ↦ elim (Result-cases (index props "depth")) [
          | inr (e, bad) ↦ rw (actor_depth, other, known, has, bad) refl
          | inl (d, got) ↦ rw (actor_depth, other, known, has, got) refl
        ]
        | inr has_none ↦
            elim (Result-cases (Queries.first_neighbor w.ids w.labels w.postgres id s.graph).0) [
              | inr (e, bad) ↦ rw (actor_depth, other, known, has_none, bad) refl
              | inl (n, got) ↦ rw (actor_depth, other, known, has_none, got) (neighbor_kept n _)
            ]
      ]
    ]
  ]
