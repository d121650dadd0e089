-- ===== src/Graph/Lookup.antt =====
-- The caches of the graph store agree with the tables, and so `_node_id` gives what the table holds.
use pub_crawler.Base.{
  String, ℕ, ◌≡◌, refl, sym, ap, ◌∙◌, subst, some, Option-cases, inl, inr, is_some,
}
use pub_crawler.Exec.{Result, ok}
use pub_crawler.Graph.{Graph, node_id, has_node}
use pub_crawler.Graph.Libraries.{Lru}
use pub_crawler.Graph.Schema.{select_id, select_label}

module _ (ids : Lru String ℕ) (labels : Lru ℕ String) where
  abbrev pub G : Type 0
  G = Graph ids labels

  pub record Agrees (g : G) : Type 0 where
    pub by_label : (l : String) (i : ℕ) → ids.cached l g.cache ≡ some i → select_id l g.db ≡ some i
    pub by_id :
        (i : ℕ) (l : String) → labels.cached i g.label_cache ≡ some l → select_label i g.db ≡ some l

  -- A call that returned `a` and changed nothing but the caches, which still agree.
  pub record Looked {A : Type 0} (g : G) (call : Result A × G) (a : A) : Type 0 where
    pub result : call.0 ≡ ok a
    pub same : call.1.db ≡ g.db
    pub agrees : Agrees call.1

  module _ (g : G) (w : Agrees g) where
    abbrev store : String → ℕ → G
    store l i = record g { cache = ids.put l i g.cache }

    store-Agrees : (l : String) (i : ℕ) → select_id l g.db ≡ some i → Agrees (store l i)
    store-Agrees l i e = record {
      by_label = λ k j h. elim (ids.cached-put l k i j g.cache h) [
        | inl (same, value) ↦ subst (λ x. select_id x g.db ≡ some j) same (e ∙ ap some value)
        | inr old ↦ w.by_label k j old
      ];
      by_id = w.by_id;
    }

    read-Agrees : (l : String) → Agrees (record g { cache = ids.read l g.cache })
    read-Agrees l = record {
      by_label = λ k j h. w.by_label k j (sym (ids.cached-read l k g.cache) ∙ h);
      by_id = w.by_id;
    }

    -- `_node_id` gives the id in the table.
    pub node_id_lem : (l : String) → Looked g (node_id ids labels l g) (select_id l g.db)
    unfolding node_id
    node_id_lem l = elim (Option-cases (ids.cached l g.cache)) [
      | inr (i, hit) ↦
          rw (hit, node_id)
            (record {
              result = ap ok (sym (w.by_label l i hit));
              same = refl;
              agrees = read-Agrees l;
            })
      | inl miss ↦ elim (Option-cases (select_id l g.db)) [
        | inl absent ↦
            rw (miss, node_id, absent) (record { result = refl; same = refl; agrees = w })
        | inr (i, present) ↦
            rw (miss, node_id, present)
              (record { result = refl; same = refl; agrees = store-Agrees l i present })
      ]
    ]

    -- Where the caches agree with the table, `has_node` says whether the table has the label, and
    -- changes nothing but the caches, which still agree.
    pub has_node_lem :
        (l : String) → Looked g (has_node ids labels l g) (is_some (select_id l g.db))
    unfolding has_node
    has_node_lem l =
        let k = node_id_lem l in
        rw k.result (record { result = refl; same = k.same; agrees = k.agrees })
