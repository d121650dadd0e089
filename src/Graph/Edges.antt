-- ===== src/Graph/Edges.antt =====
-- An edge that was ensured is there, and one that was deleted is not.
use pub_crawler.Base.{
  String, ℕ, ◌≡◌, refl, ap, ◌∙◌, Bool, true, false, not, Option, none, some, List, [], ◌∷◌, ◌==◌,
  ◌&&◌, arith, Option-cases, Bool-cases, inl, inr,
}
use pub_crawler.Exec.{ok}
use pub_crawler.Graph.{
  node_id, ensure_edge, delete_edge, delete_edge_rows, has_edge, execute, is_node,
}
use pub_crawler.Graph.Libraries.{Lru}
use pub_crawler.Graph.Schema.{
  Edge, Tables, find_row, exists, select, insert_row, insert_new, same_edge, has_id, select_id,
  select_label, delete_edge_row, has_label, id_of, label_of,
}
use pub_crawler.Graph.Statements.{insert_edge}
use pub_crawler.Graph.Lookup.{G, Agrees, Looked, node_id_lem}

module _ (f g : ℕ) where
  abbrev joined : Edge → Bool
  joined e = is_node (some f) e.from_node && is_node (some g) e.to_node

  exists-insert_row :
      (e : Edge) (es : List Edge) → joined e ≡ true → exists joined (insert_row e es) ≡ true
  unfolding find_row insert_row
  exists-insert_row e [] h = ground arith
  exists-insert_row e (d ∷ es) h = ground (arith, exists-insert_row e es h)

  exists-same :
      (now : ℕ) (es : List Edge)
      → exists (same_edge (record { from_node = f; to_node = g; at = now })) es ≡ exists joined es
  unfolding find_row
  exists-same now [] = refl
  exists-same now (d ∷ es) = ground (arith, exists-same now es)

  exists-insert_new :
      (now : ℕ) (es : List Edge)
      → exists joined (insert_new same_edge (record { from_node = f; to_node = g; at = now }) es)
        ≡ true
  exists-insert_new now es = elim (Bool-cases (exists joined es)) [
    | inl there ↦ rw (exists-same now es, there) there
    | inr new ↦ rw (exists-same now es, new) (exists-insert_row _ es (ground arith))
  ]

  exists-delete :
      (es : List Edge)
      → exists joined (select (λ e. not ((e.from_node == f) && (e.to_node == g))) es) ≡ false
  unfolding find_row select
  exists-delete [] = refl
  exists-delete (d ∷ es) = ground (arith, exists-delete es)

exists-never :
    {A : Type 0} (f : A → Bool) (xs : List A) → ((x : A) → f x ≡ false) → exists f xs ≡ false
unfolding find_row
exists-never f [] h = refl
exists-never f (x ∷ xs) h = rw (h x) (exists-never f xs h)

module _ (ids : Lru String ℕ) (labels : Lru ℕ String) (a b : String) where
  abbrev edge_test : Option ℕ → Option ℕ → Edge → Bool
  edge_test i j e = is_node i e.from_node && is_node j e.to_node

  module _ (g : G ids labels) (w : Agrees ids labels g) where
    -- the state after both ids were looked up
    abbrev first : G ids labels
    first = (node_id ids labels a g).1

    abbrev second : G ids labels
    second = (node_id ids labels b first).1

    first-Looked : Looked ids labels g (node_id ids labels a g) (select_id a g.db)
    first-Looked = node_id_lem ids labels g w a

    second-Looked : Looked ids labels first (node_id ids labels b first) (select_id b first.db)
    second-Looked = node_id_lem ids labels first first-Looked.agrees b

    second_db : second.db ≡ g.db
    second_db = second-Looked.same ∙ first-Looked.same

    has_edge_lem :
        (has_edge ids labels a b g).0
        ≡ ok (exists (edge_test (select_id a g.db) (select_id b g.db)) g.db.edge)
    unfolding has_edge
    has_edge_lem =
        rw (first-Looked.result, second-Looked.result, second-Looked.same, first-Looked.same) refl

  abbrev with_edges : G ids labels → List Edge → G ids labels
  with_edges g es = record g { db = record g.db { edge = es } }

  with_edges-Agrees :
      (g : G ids labels) (es : List Edge)
      → Agrees ids labels g
      → Agrees ids labels (with_edges g es)
  unfolding select_id select_label
  with_edges-Agrees g es w = record { by_label = w.by_label; by_id = w.by_id }

  with_edges_id :
      (l : String) (g : G ids labels) (es : List Edge)
      → select_id l (with_edges g es).db ≡ select_id l g.db
  unfolding select_id
  with_edges_id l g es = refl

  with_edges_test :
      (g h : G ids labels) (es : List Edge)
      → h.db ≡ g.db
      → (i j : Option ℕ) → select_id a g.db ≡ i
      → select_id b g.db ≡ j
      → Agrees ids labels h
      → (has_edge ids labels a b (with_edges h es)).0 ≡ ok (exists (edge_test i j) es)
  with_edges_test g h es same i j e f w =
      has_edge_lem (with_edges h es) (with_edges-Agrees h es w)
      ∙ ap (λ k. ok (exists (edge_test k (select_id b (with_edges h es).db)) es))
          (with_edges_id a h es ∙ ap (select_id a) same ∙ e)
      ∙ ap (λ k. ok (exists (edge_test i k) es)) (with_edges_id b h es ∙ ap (select_id b) same ∙ f)

  module _ (now : ℕ) (g : G ids labels) (w : Agrees ids labels g) where
    ensured :
        ensure_edge ids labels now a b g
        ≡ execute ids labels (insert_edge now (select_id a g.db) (select_id b g.db)) (second g w)
    unfolding ensure_edge
    ensured =
        rw ((first-Looked g w).result, (second-Looked g w).result, (first-Looked g w).same) refl

    -- Where the caches agree with the tables: when `ensure_edge` returns, `has_edge` says that the
    -- edge is there.
    pub has_edge-ensure_edge :
        (ensure_edge ids labels now a b g).0 ≡ ok tt
        → (has_edge ids labels a b (ensure_edge ids labels now a b g).1).0 ≡ ok true
    unfolding execute insert_edge
    has_edge-ensure_edge h = elim (Option-cases (select_id a g.db)) [
      | inl no_a ↦ absurd (cc (rw (ensured, execute, no_a, insert_edge) at h))
      | inr (i, e) ↦ elim (Option-cases (select_id b g.db)) [
        | inl no_b ↦ absurd (cc (rw (ensured, execute, e, no_b, insert_edge) at h))
        | inr (j, f) ↦
            elim (Bool-cases
              (exists (has_id i) (second g w).db.node && exists (has_id j) (second g w).db.node)) [
                | inr dangling ↦
                    absurd (cc (rw (ensured, execute, e, f, insert_edge, dangling) at h))
                | inl there ↦
                    rw (ensured, execute, e, f, insert_edge, there)
                      (with_edges_test g (second g w) _ (second_db g w) (some i) (some j) e f
                          (second-Looked g w).agrees
                        ∙ ap ok (exists-insert_new i j now (second g w).db.edge))
              ]
      ]
    ]

  module _ (g : G ids labels) (w : Agrees ids labels g) where
    deleted : delete_edge ids labels a b g ≡ (
      ok tt,
      record (second g w) {
        db = delete_edge_rows ids labels (select_id a g.db) (select_id b g.db) (second g w).db;
      },
    )
    unfolding delete_edge execute
    deleted =
        rw ((first-Looked g w).result, (second-Looked g w).result, (first-Looked g w).same) refl

    same_nodes : (i j : Option ℕ) (t : Tables) → (delete_edge_rows ids labels i j t).node ≡ t.node
    unfolding delete_edge_rows delete_edge_row
    same_nodes (some i) (some j) t = refl
    same_nodes (some i) none t = refl
    same_nodes none j t = refl

    none_left :
        (i j : Option ℕ) (t : Tables)
        → exists (edge_test i j) (delete_edge_rows ids labels i j t).edge ≡ false
    unfolding delete_edge_rows delete_edge_row
    none_left (some i) (some j) t = exists-delete i j t.edge
    none_left (some i) none t = exists-never (edge_test (some i) none) t.edge (λ e. ground arith)
    none_left none j t = exists-never (edge_test none j) t.edge (λ e. refl)

    -- Where the caches agree with the tables: `delete_edge` returns, and then `has_edge` says that the
    -- edge is not there.
    pub has_edge-delete_edge :
        ((delete_edge ids labels a b g).0 ≡ ok tt)
        × ((has_edge ids labels a b (delete_edge ids labels a b g).1).0 ≡ ok false)
    unfolding select_id select_label
    has_edge-delete_edge =
        let i = select_id a g.db in
        let j = select_id b g.db in
        let kept = same_nodes i j (second g w).db in
        let agrees = (second-Looked g w).agrees in
        rw deleted (
          refl,
          has_edge_lem _ (record {
            by_label =
                λ l k h. ap (λ ns. id_of (find_row (has_label l) ns)) kept ∙ agrees.by_label l k h;
            by_id = λ k l h. ap (λ ns. label_of (find_row (has_id k) ns)) kept ∙ agrees.by_id k l h;
          })
              ∙ ap
                  (λ ns. ok (
                    exists
                      (edge_test (id_of (find_row (has_label a) ns))
                        (id_of (find_row (has_label b) ns)))
                      (delete_edge_rows ids labels i j (second g w).db).edge))
                  (kept ∙ ap (λ t. t.node) (second_db g w))
              ∙ ap ok (none_left i j (second g w).db),
        )
