-- ===== src/Graph/RoundTrip.antt =====
-- A property that was set is what is got; setting it leaves the other properties alone.
use pub_crawler.Base.{
  String, ℕ, ◌≡◌, refl, sym, ap, ◌∙◌, subst, Bool, true, false, Option, some, ◌==◌, ◌&&◌, str_eq,
  eq_iff, arith, Option-cases, Bool-cases, inl, inr,
}
use pub_crawler.Exec.{Result, ok}
use pub_crawler.Exec.Fallible.{Result-cases}
use pub_crawler.Json.{Value}
use pub_crawler.Platform.{Platform}
use pub_crawler.Graph.{node_id, execute}
use pub_crawler.Graph.Libraries.{Lru, Postgres}
use pub_crawler.Graph.Schema.{
  NodeProperty, Tables, exists, same_node_property, has_id, select_id, select_label,
}
use pub_crawler.Graph.Statements.{put_node_property, insert_node_property}
use pub_crawler.Graph.Properties.{
  set_node_property, get_node_property, select_value, value_of, read_value,
}
use pub_crawler.Graph.Rows.{found-upsert, other-upsert}
use pub_crawler.Graph.Lookup.{G, Agrees, node_id_lem}

some_injective : {x y : ℕ} → ◌≡◌ {A = Option ℕ} (some x) (some y) → x ≡ y
some_injective h = ground arith

module _ (i : ℕ) (name : String) where
  abbrev keyed : NodeProperty → Bool
  keyed r = (r.id == i) && str_eq r.name name

  module _ (text : String) where
    abbrev row : NodeProperty
    row = record { id = i; name = name; value = text }

    value-put :
        (t : Tables) → select_value (some i) name (put_node_property i name text t) ≡ some text
    unfolding select_value put_node_property
    value-put t = ap value_of (
        found-upsert same_node_property keyed row t.node_property (ground (arith, eq_iff name name))
          (λ r h. ground (arith, eq_iff name r.name, eq_iff r.name name)))

    value-other :
        (j : ℕ) (other : String) (t : Tables)
        → (i == j) && str_eq name other ≡ false
        → select_value (some j) other (put_node_property i name text t)
          ≡ select_value (some j) other t
    unfolding select_value put_node_property
    value-other j other t h = ap value_of (
        other-upsert same_node_property (λ r. (r.id == j) && str_eq r.name other) row
          t.node_property h
          (λ r k. ground (arith, eq_iff name r.name, eq_iff name other, eq_iff r.name other)))

module _ (ids : Lru String ℕ) (labels : Lru ℕ String) {p : Platform} (pg : Postgres p) where
  abbrev set : String → String → Value → G ids labels → Result (Unit {0}) × G ids labels
  set = set_node_property ids labels pg

  abbrev got : String → String → G ids labels → Result Value × G ids labels
  got = get_node_property ids labels pg

  put-Agrees :
      (g : G ids labels) (i : ℕ) (name text : String)
      → Agrees ids labels g
      → Agrees ids labels (record g { db = put_node_property i name text g.db })
  unfolding select_id select_label put_node_property
  put-Agrees g i name text w = record { by_label = w.by_label; by_id = w.by_id }

  get_lem :
      (g : G ids labels) (label name : String)
      → Agrees ids labels g
      → (got label name g).0
        ≡ read_value ids labels pg (select_value (select_id label g.db) name g.db)
  unfolding get_node_property
  get_lem g label name w = let k = node_id_lem ids labels g w label in rw (k.result, k.same) refl

  id-put :
      (i : ℕ) (name text l : String) (t : Tables)
      → select_id l (put_node_property i name text t) ≡ select_id l t
  unfolding select_id put_node_property
  id-put i name text l t = refl

  -- What a call that returned has done.
  record WasSet (g : G ids labels) (label name : String) (v : Value) : Type 0 where
    id : ℕ
    text : String
    stored_text : String
    is_id : select_id label g.db ≡ some id
    dumped : p.dumps_unsorted v ≡ ok text
    kept : pg.jsonb text ≡ ok stored_text
    changed : (set label name v g).1.db ≡ put_node_property id name stored_text g.db
    agrees : Agrees ids labels (set label name v g).1

  module _ (g : G ids labels) (w : Agrees ids labels g) (label name : String) (v : Value)
      (fits : pg.varchar 32 name ≡ ok name) where
    abbrev looked : G ids labels
    looked = (node_id ids labels label g).1

    module _ (i : ℕ) (text st : String) (present : select_id label g.db ≡ some i)
        (d : p.dumps_unsorted v ≡ ok text) (j : pg.jsonb text ≡ ok st)
        (there : exists (has_id i) looked.db.node ≡ true) where
      outcome :
          set label name v g ≡ (ok tt, record looked { db = put_node_property i name st looked.db })
      unfolding set_node_property insert_node_property execute
      outcome =
          let k = node_id_lem ids labels g w label in
          rw (k.result, d, j, execute, fits, present, insert_node_property, there) refl

      written : WasSet g label name v
      written =
          let k = node_id_lem ids labels g w label in
          record {
            id = i;
            text = text;
            stored_text = st;
            is_id = present;
            dumped = d;
            kept = j;
            changed = ap (λ c. c.1.db) outcome ∙ ap (put_node_property i name st) k.same;
            agrees =
                subst (λ c. Agrees ids labels c.1) (sym outcome)
                  (put-Agrees looked i name st k.agrees);
          }

    was_set : (set label name v g).0 ≡ ok tt → WasSet g label name v
    unfolding set_node_property insert_node_property execute
    was_set h =
        let k = node_id_lem ids labels g w label in
        elim (Result-cases (p.dumps_unsorted v)) [
          | inr (e, d) ↦ absurd (cc (rw (k.result, d) at h))
          | inl (text, d) ↦ elim (Result-cases (pg.jsonb text)) [
            | inr (e, j) ↦ absurd (cc (rw (k.result, d, j) at h))
            | inl (st, j) ↦ elim (Option-cases (select_id label g.db)) [
              | inl absent ↦
                  absurd
                    (cc (rw (k.result, d, j, execute, fits, absent, insert_node_property) at h))
              | inr (i, present) ↦
                  elim (Bool-cases (exists (has_id i) (node_id ids labels label g).1.db.node)) [
                    | inr dangling ↦ absurd (
                        cc (
                          rw
                            (k.result, d, j, execute, fits, present, insert_node_property, dangling)
                            at h))
                    | inl there ↦ written i text st present d j there
                  ]
            ]
          ]
        ]

    module _ (s : WasSet g label name v) where
      abbrev after : G ids labels
      after = (set label name v g).1

      id_after : (l : String) → select_id l after.db ≡ select_id l g.db
      id_after l = ap (select_id l) s.changed ∙ id-put s.id name s.stored_text l g.db

      got_after :
          (l m : String)
          → (got l m after).0
            ≡ read_value ids labels pg
                (select_value (select_id l g.db) m (put_node_property s.id name s.stored_text g.db))
      got_after l m =
          get_lem after l m s.agrees
          ∙ ap (λ i. read_value ids labels pg (select_value i m after.db)) (id_after l)
          ∙ ap (λ t. read_value ids labels pg (select_value (select_id l g.db) m t)) s.changed

      got_stored : (got label name after).0 ≡ ok (pg.stored v)
      unfolding read_value
      got_stored =
          got_after label name
          ∙ ap
              (λ i.
                read_value ids labels pg
                  (select_value i name (put_node_property s.id name s.stored_text g.db)))
              s.is_id
          ∙ ap (read_value ids labels pg) (value-put s.id name s.stored_text g.db)
          ∙ pg.loads-jsonb v s.text s.stored_text s.dumped s.kept

      got_other :
          (l m : String) (j : ℕ)
          → select_id l g.db ≡ some j
          → (s.id == j) && str_eq name m ≡ false
          → (got l m after).0 ≡ (got l m g).0
      got_other l m j e apart =
          got_after l m
          ∙ ap
              (λ i.
                read_value ids labels pg
                  (select_value i m (put_node_property s.id name s.stored_text g.db)))
              e
          ∙ ap (read_value ids labels pg) (value-other s.id name s.stored_text j m g.db apart)
          ∙ ap (λ i. read_value ids labels pg (select_value i m g.db)) (sym e)
          ∙ sym (get_lem g l m w)

    -- Where the caches agree with the tables and the name fits its column: when
    -- `set_node_property` returns, `get_node_property` with the same label and name returns the value
    -- as a JSONB column keeps it, and with another name or the label of another node it gives what it
    -- gave before.
    pub get-set_node_property :
        (set label name v g).0 ≡ ok tt
        → ((got label name (set label name v g).1).0 ≡ ok (pg.stored v))
          × ((other_label other_name : String) (i j : ℕ)
              → select_id label g.db ≡ some i
              → select_id other_label g.db ≡ some j
              → (i == j) && str_eq name other_name ≡ false
              → (got other_label other_name (set label name v g).1).0
                ≡ (got other_label other_name g).0)
    get-set_node_property h =
        let s = was_set h in
        (
          got_stored s,
          λ l m i j e f apart. got_other s l m j f (
              subst (λ x. (x == j) && str_eq name m ≡ false) (some_injective (sym e ∙ s.is_id))
                apart),
        )
