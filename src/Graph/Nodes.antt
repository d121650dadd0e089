-- ===== src/Graph/Nodes.antt =====
-- `ensure_nodes`: afterwards every label has a node, the old nodes are as before, and a second call
-- draws no identity.
use pub_crawler.Base.{
  String, ℕ, ◌≡◌, refl, sym, ap, ◌∙◌, subst, Bool, true, not, some, List, [], ◌∷◌, str_eq, eq_iff,
  arith, Option-cases, Bool-cases, inl, inr, is_some, All,
}
use pub_crawler.Exec.{Result, ok}
use pub_crawler.Exec.Fallible.{ok_injective}
use pub_crawler.Platform.{Platform}
use pub_crawler.Graph.{ensure_nodes, execute, in_cache, missing, upsert_nodes}
use pub_crawler.Graph.Libraries.{Lru, Postgres}
use pub_crawler.Graph.Schema.{
  Node, Tables, find_row, exists, select, insert_node, any_of, has_id, has_label, select_id,
  select_label, id_of, label_of,
}
use pub_crawler.Graph.Statements.{insert_nodes}
use pub_crawler.Graph.Lookup.{G, Agrees}
use pub_crawler.Graph.Rows.{
  found-insert_row, insert_row_found, any_of-select, All-select, select-none, any_of-of-select,
}

-- the first table's nodes are found in the second
pub record Extends (t u : Tables) : Type 0 where
  pub ids_kept : (l : String) (i : ℕ) → select_id l t ≡ some i → select_id l u ≡ some i
  pub labels_kept : (i : ℕ) (l : String) → select_label i t ≡ some l → select_label i u ≡ some l

module _ (l : String) (t : Tables) where
  found_kept :
      (f : Node → Bool) (n : Node)
      → find_row f t.node ≡ some n
      → find_row f (insert_node l t).node ≡ some n
  unfolding insert_node
  found_kept f n h = elim (Bool-cases (exists (has_label l) t.node)) [
    | inl there ↦ rw there h
    | inr new ↦ rw new (found-insert_row f n (record { id = t.next; label = l }) t.node h)
  ]

  insert_node-Extends : Extends t (insert_node l t)
  unfolding select_id select_label
  insert_node-Extends = record {
    ids_kept = λ k i h. elim (Option-cases (find_row (has_label k) t.node)) [
      | inl absent ↦ absurd (cc (rw absent at h))
      | inr (n, found) ↦ ap id_of (found_kept (has_label k) n found ∙ sym found) ∙ h
    ];
    labels_kept = λ i k h. elim (Option-cases (find_row (has_id i) t.node)) [
      | inl absent ↦ absurd (cc (rw absent at h))
      | inr (n, found) ↦ ap label_of (found_kept (has_id i) n found ∙ sym found) ∙ h
    ];
  }

  inserted : is_some (select_id l (insert_node l t)) ≡ true
  unfolding select_id insert_node
  inserted = elim (Bool-cases (exists (has_label l) t.node)) [
    | inl there ↦ elim (Option-cases (find_row (has_label l) t.node)) [
      | inl absent ↦ absurd (cc (rw absent at there))
      | inr (n, found) ↦ rw (there, found) refl
    ]
    | inr new ↦ rw new (
        ap (λ o. is_some (id_of o))
          (insert_row_found (has_label l) (record { id = t.next; label = l }) t.node new
            (ground (arith, eq_iff l l))))
  ]

Extends-refl : (t : Tables) → Extends t t
Extends-refl t = record { ids_kept = λ l i h. h; labels_kept = λ i l h. h }

Extends-trans : (t u v : Tables) → Extends t u → Extends u v → Extends t v
Extends-trans t u v a b = record {
  ids_kept = λ l i h. b.ids_kept l i (a.ids_kept l i h);
  labels_kept = λ i l h. b.labels_kept i l (a.labels_kept i l h);
}

abbrev Present : String → Tables → Type 0
Present l t = is_some (select_id l t) ≡ true

Present-later : (l : String) (t u : Tables) → Extends t u → Present l t → Present l u
Present-later l t u e h = elim (Option-cases (select_id l t)) [
  | inl absent ↦ absurd (cc (rw absent at h))
  | inr (i, found) ↦ rw (e.ids_kept l i found) refl
]

Present-exists : (l : String) (t : Tables) → Present l t → exists (has_label l) t.node ≡ true
unfolding select_id
Present-exists l t h = elim (Option-cases (find_row (has_label l) t.node)) [
  | inl absent ↦ absurd (cc (rw absent at h))
  | inr (n, found) ↦ rw found refl
]

exists-Present : (l : String) (t : Tables) → exists (has_label l) t.node ≡ true → Present l t
unfolding select_id
exists-Present l t h = elim (Option-cases (find_row (has_label l) t.node)) [
  | inl absent ↦ absurd (cc (rw absent at h))
  | inr (n, found) ↦ rw found refl
]

execute_lem :
    (ids : Lru String ℕ) (labels : Lru ℕ String) (f : Tables → Result Tables) (g : G ids labels)
    (u : Tables)
    → f g.db ≡ ok u
    → execute ids labels f g ≡ (ok tt, record g { db = u })
unfolding execute
execute_lem ids labels f g u h = rw (execute, h) refl

module _ {p : Platform} (pg : Postgres p) where
  -- the labels fit their column
  abbrev pub Fit : List String → Type 0
  Fit ls = All (λ l. pg.varchar 256 l ≡ ok l) ls

  record Inserted (ls : List String) (t : Tables) : Type 0 where
    after : Tables
    result : insert_nodes pg ls t ≡ ok after
    extends : Extends t after
    present : (l : String) → any_of ls l ≡ true → Present l after

  insert_nodes_lem : (ls : List String) (t : Tables) → Fit ls → Inserted ls t
  unfolding insert_nodes any_of
  insert_nodes_lem [] t fit = record {
    after = t;
    result = refl;
    extends = Extends-refl t;
    present = λ l h. absurd (cc);
  }
  insert_nodes_lem (l ∷ ls) t fit =
      let rest = insert_nodes_lem ls (insert_node l t) fit.1 in
      record {
        after = rest.after;
        result = rw (fit.0, insert_nodes, rest.result) refl;
        extends =
            Extends-trans t (insert_node l t) rest.after (insert_node-Extends l t) rest.extends;
        present = λ k h. elim (Bool-cases (str_eq l k)) [
          | inl same ↦
              Present-later k (insert_node l t) rest.after rest.extends
                (subst (λ x. Present x (insert_node l t)) ((eq_iff l k).0 same) (inserted l t))
          | inr other ↦ rest.present k (rw other at h)
        ];
      }

  module _ (ids : Lru String ℕ) (labels : Lru ℕ String) (ls : List String) where
    abbrev ensure : G ids labels → Result (Unit {0}) × G ids labels
    ensure = ensure_nodes ids labels pg ls

    nothing : (t : Tables) → insert_nodes pg (select (missing ids labels pg t) []) t ≡ ok t
    unfolding insert_nodes select
    nothing t = refl

    upsert_lem :
        (ks : List String) (g : G ids labels) (u : Tables)
        → insert_nodes pg (select (missing ids labels pg g.db) ks) g.db ≡ ok u
        → upsert_nodes ids labels pg ks g ≡ (ok tt, record g { db = u })
    unfolding upsert_nodes
    upsert_lem [] g u h =
        ap (λ t. (ok tt, record g { db = t })) (ok_injective (sym (nothing g.db) ∙ h))
    upsert_lem (k ∷ ks) g u h =
        execute_lem ids labels (λ t. insert_nodes pg (select (missing ids labels pg t) (k ∷ ks)) t)
          g u h

    module _ (g : G ids labels) where
      abbrev uncached : List String
      uncached = select (λ l. not (in_cache ids labels l g)) ls

      abbrev new : List String
      new = select (missing ids labels pg g.db) uncached

      ensure_lem :
          (u : Tables) → insert_nodes pg new g.db ≡ ok u → ensure g ≡ (ok tt, record g { db = u })
      unfolding ensure_nodes
      ensure_lem u h = upsert_lem uncached g u h

      -- When every label has a node, `ensure_nodes` changes nothing.
      ensure-Present : ((l : String) → any_of ls l ≡ true → Present l g.db) → ensure g ≡ (ok tt, g)
      unfolding insert_nodes
      ensure-Present h = ensure_lem g.db (
          rw
            (select-none (missing ids labels pg g.db) uncached
              (λ l i. rw (Present-exists l g.db (h l (any_of-of-select _ ls l i))) refl))
            refl)

      module _ (w : Agrees ids labels g) (fit : Fit ls) where
        inserted_new : Inserted new g.db
        inserted_new = insert_nodes_lem new g.db (
            All-select (λ l. pg.varchar 256 l ≡ ok l) _ uncached
              (All-select (λ l. pg.varchar 256 l ≡ ok l) _ ls fit))

        after-Present : (l : String) → any_of ls l ≡ true → Present l inserted_new.after
        unfolding in_cache
        after-Present l i = elim (Option-cases (ids.cached l g.cache)) [
          | inr (j, hit) ↦
              Present-later l g.db inserted_new.after inserted_new.extends
                (ap is_some (w.by_label l j hit))
          | inl miss ↦ elim (Bool-cases (exists (has_label l) g.db.node)) [
            | inl there ↦
                Present-later l g.db inserted_new.after inserted_new.extends
                  (exists-Present l g.db there)
            | inr absent ↦ inserted_new.present l (
                any_of-select _ uncached l (any_of-select _ ls l i (rw miss refl)) (rw absent refl))
          ]
        ]

    module _ (g : G ids labels) (w : Agrees ids labels g) (fit : Fit ls) where
      -- Where the caches agree with the tables and the labels fit their column: `ensure_nodes`
      -- returns; the caches agree with the tables it leaves; each node that was there has the id
      -- and the label that it had; each of the labels has a node; and a second call with the same
      -- labels leaves everything as it is, the identity that the next node gets included.
      pub ensure_nodes_lem :
          ((ensure g).0 ≡ ok tt)
          × Agrees ids labels (ensure g).1
          × Extends g.db (ensure g).1.db
          × ((l : String) → any_of ls l ≡ true → is_some (select_id l (ensure g).1.db) ≡ true)
          × (ensure (ensure g).1 ≡ (ok tt, (ensure g).1))
      ensure_nodes_lem =
          let e = ensure_lem g (inserted_new g w fit).after (inserted_new g w fit).result in
          rw e (
            refl,
            record {
              by_label = λ l i h. (inserted_new g w fit).extends.ids_kept l i (w.by_label l i h);
              by_id = λ i l h. (inserted_new g w fit).extends.labels_kept i l (w.by_id i l h);
            },
            (inserted_new g w fit).extends,
            after-Present g w fit,
            ensure-Present (record g { db = (inserted_new g w fit).after }) (after-Present g w fit),
          )
