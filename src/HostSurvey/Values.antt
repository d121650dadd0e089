-- ===== src/HostSurvey/Values.antt =====
-- The value of a property after the statements that insert and delete properties.
use pub_crawler.Base.{
  String, ℕ, ◌≡◌, refl, sym, ap, ◌∙◌, true, false, not, ◌&&◌, Option, none, some, List, [], ◌∷◌,
  ◌==◌, str_eq, eq_iff, arith, Bool-cases, Option-cases, inl, inr, is_some, if◌then◌else◌,
}
use pub_crawler.Exec.{ok}
use pub_crawler.Exec.Fallible.{ok_injective}
use pub_crawler.Platform.{Platform}
use pub_crawler.Graph.{is_node}
use pub_crawler.Graph.Libraries.{Lru, Postgres, value_in}
use pub_crawler.Graph.Schema.{find_row, select, any_of}
use pub_crawler.Graph.Rows.{found-upsert, other-upsert}
use pub_crawler.HostSurvey.{HostSurvey, get_host_property, read_host_value}
use pub_crawler.HostSurvey.Schema.{
  HostProperty, Tables, same_property, value_of, select_host, select_host_value, put_host_property,
  insert_each, delete_property_rows,
}
use pub_crawler.HostSurvey.Lookup.{Agrees, host_id_lem}

-- the first that is there
abbrev pub or : Option String → Option String → Option String
or none b = b
or (some a) b = some a

module _ (i : ℕ) (name text : String) where
  abbrev row : HostProperty
  row = record { id = i; name = name; value = text }

  pub value-put :
      (t : Tables) → select_host_value (some i) name (put_host_property i name text t) ≡ some text
  unfolding select_host_value put_host_property
  value-put t = ap value_of (
      found-upsert same_property (λ r. (r.id == i) && str_eq r.name name) row t.host_property
        (ground (arith, eq_iff name name))
        (λ r h. ground (arith, eq_iff name r.name, eq_iff r.name name)))

  pub value-other :
      (j : ℕ) (other : String) (t : Tables)
      → (i == j) && str_eq name other ≡ false
      → select_host_value (some j) other (put_host_property i name text t)
        ≡ select_host_value (some j) other t
  unfolding select_host_value put_host_property
  value-other j other t h = ap value_of (
      other-upsert same_property (λ r. (r.id == j) && str_eq r.name other) row t.host_property h
        (λ r k. ground (arith, eq_iff name r.name, eq_iff name other, eq_iff r.name other)))

  value-one :
      (k : String) (t : Tables)
      → select_host_value (some i) k (put_host_property i name text t)
        ≡ or (if str_eq name k then some text else none) (select_host_value (some i) k t)
  value-one k t = elim (Bool-cases (str_eq name k)) [
    | inl same ↦ rw same (
        ap (λ x. select_host_value (some i) x (put_host_property i name text t))
          (sym ((eq_iff name k).0 same))
        ∙ value-put t)
    | inr other ↦ rw other (value-other i k t (ground arith))
  ]

deleted :
    (id : Option ℕ) (names : List String) (k : String) (rs : List HostProperty)
    → value_of (
        find_row
          (λ r. is_node id r.id && str_eq r.name k)
          (select (λ r. not (is_node id r.id && any_of names r.name)) rs))
      ≡ (if any_of names k
          then none
          else value_of (find_row (λ r. is_node id r.id && str_eq r.name k) rs))
unfolding find_row select
deleted none names k [] = ground arith
deleted (some i) names k [] = ground arith
deleted none names k (r ∷ rs) = deleted none names k rs
deleted (some i) names k (r ∷ rs) = elim (Bool-cases (str_eq r.name k)) [
  | inl same ↦
      let e : any_of names r.name ≡ any_of names k = ap (any_of names) ((eq_iff r.name k).0 same) in
      ground (arith, deleted (some i) names k rs)
  | inr other ↦ ground (arith, deleted (some i) names k rs)
]

-- What DELETE FROM host_property leaves of a property.
pub value-delete :
    (id : Option ℕ) (names : List String) (k : String) (t : Tables)
    → select_host_value id k (delete_property_rows id names t)
      ≡ (if any_of names k then none else select_host_value id k t)
unfolding select_host_value delete_property_rows
value-delete id names k t = deleted id names k t.host_property

module _ {p : Platform} (pg : Postgres p) where
  -- the names of the rows fit their column
  abbrev pub NamesFit : List (String × String) → Type 0
  NamesFit kvs = (k : String) → is_some (value_in k kvs) ≡ true → pg.varchar 32 k ≡ ok k

  pub head_fits :
      (name text : String) (kvs : List (String × String))
      → NamesFit ((name, text) ∷ kvs)
      → pg.varchar 32 name ≡ ok name
  unfolding value_in
  head_fits name text kvs fit = fit name (elim (Option-cases (value_in name kvs)) [
    | inl absent ↦ rw absent (ground (arith, eq_iff name name))
    | inr (t, found) ↦ rw found refl
  ])

  pub tail_fits :
      (name text : String) (kvs : List (String × String))
      → NamesFit ((name, text) ∷ kvs)
      → NamesFit kvs
  unfolding value_in
  tail_fits name text kvs fit k h = fit k (elim (Option-cases (value_in k kvs)) [
    | inl absent ↦ absurd (cc (rw absent at h))
    | inr (t, found) ↦ rw found refl
  ])

  value_in-cons :
      (name text k : String) (kvs : List (String × String)) (old : Option String)
      → or (value_in k kvs) (or (if str_eq name k then some text else none) old)
        ≡ or (value_in k ((name, text) ∷ kvs)) old
  unfolding value_in
  value_in-cons name text k kvs old = ground arith

  -- What the INSERT of several properties leaves: the row of that name, or what there was.
  pub value-each :
      (i : ℕ) (k : String) (kvs : List (String × String)) (t u : Tables)
      → NamesFit kvs
      → insert_each pg i kvs t ≡ ok u
      → select_host_value (some i) k u ≡ or (value_in k kvs) (select_host_value (some i) k t)
  unfolding insert_each value_in
  value-each i k [] t u fit h = ap (select_host_value (some i) k) (sym (ok_injective h))
  value-each i k ((name, text) ∷ kvs) t u fit h =
      value-each i k kvs (put_host_property i name text t) u (tail_fits name text kvs fit)
        (rw (head_fits name text kvs fit, insert_each) at h)
      ∙ ap (or (value_in k kvs)) (value-one i name text k t)
      ∙ value_in-cons name text k kvs (select_host_value (some i) k t)

  module _ (hosts : Lru String ℕ) where
    -- Where the cache agrees with the table, a property that is got is that of the host's row.
    pub get_host_property_lem :
        (s : HostSurvey hosts) (n k : String)
        → Agrees hosts s
        → (get_host_property hosts pg n k s).0
          ≡ read_host_value hosts pg (select_host_value (select_host n s.db) k s.db)
    unfolding get_host_property
    get_host_property_lem s n k w = let l = host_id_lem hosts s w n in rw (l.result, l.same) refl
