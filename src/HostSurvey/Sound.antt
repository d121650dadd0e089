-- ===== src/HostSurvey/Sound.antt =====
-- The keys of the tables: no two hosts have a name or an identity in common, no identity is drawn
-- twice, each property belongs to a host, and no host has two properties of one name.
use pub_crawler.Base.{
  String, ℕ, suc, ◌<◌, ◌≡◌, refl, sym, ap, ◌∙◌, Bool, true, false, not, Option, none, some, List,
  [], ◌∷◌, ◌==◌, str_eq, eq_iff, arith, Bool-cases, Option-cases, inl, inr, All, All-map,
}
use pub_crawler.Graph.Schema.{select, find_row, exists, insert_row, upsert}
use pub_crawler.Graph.Rows.{All-insert_row, All-upsert, All-select, found-insert_row}
use pub_crawler.HostSurvey.Schema.{
  Host, HostProperty, Tables, same_property, has_name, has_host_id, id_of, select_host, insert_host,
  delete_host_row, put_host_property, delete_property_rows,
}

abbrev pub Apart : Host → Host → Type 0
Apart h k = (str_eq k.hostname h.hostname ≡ false) × ((k.id == h.id) ≡ false)

abbrev pub Distinct : List Host → Type 0
Distinct [] = Unit
Distinct (h ∷ hs) = All (Apart h) hs × Distinct hs

abbrev pub Keyed : List HostProperty → Type 0
Keyed [] = Unit
Keyed (r ∷ rs) = All (λ q. same_property q r ≡ false) rs × Keyed rs

abbrev pub Owned : List Host → HostProperty → Type 0
Owned hs r = exists (has_host_id r.id) hs ≡ true

pub record IsSound (t : Tables) : Type 0 where
  pub distinct : Distinct t.host
  pub below : All (λ h. h.id < t.next) t.host
  pub owned : All (Owned t.host) t.host_property
  pub keyed : Keyed t.host_property

-- the hosts that were found keep their identities
abbrev pub Keeps : Tables → Tables → Type 0
Keeps t u = (n : String) (i : ℕ) → select_host n t ≡ some i → select_host n u ≡ some i

insert_row-Distinct :
    (n : String) (next : ℕ) (hs : List Host)
    → exists (has_name n) hs ≡ false
    → All (λ h. h.id < next) hs
    → Distinct hs
    → Distinct (insert_row (record { id = next; hostname = n }) hs)
unfolding find_row insert_row
insert_row-Distinct n next [] e b d = (tt, tt)
insert_row-Distinct n next (h ∷ hs) e b d = elim (Bool-cases (has_name n h)) [
  | inl same ↦ absurd (cc (rw same at e))
  | inr other ↦ (
    All-insert_row (Apart h) (record { id = next; hostname = n }) hs
        (ground (arith, eq_iff n h.hostname, eq_iff h.hostname n), ground arith) d.0,
    insert_row-Distinct n next hs (rw other at e) b.1 d.1,
  )
]

select-Distinct : (f : Host → Bool) (hs : List Host) → Distinct hs → Distinct (select f hs)
unfolding select
select-Distinct f [] d = tt
select-Distinct f (h ∷ hs) d = elim (Bool-cases (f h)) [
  | inl kept ↦ rw kept (All-select (Apart h) f hs d.0, select-Distinct f hs d.1)
  | inr dropped ↦ rw dropped (select-Distinct f hs d.1)
]

select-Keyed : (f : HostProperty → Bool) (rs : List HostProperty) → Keyed rs → Keyed (select f rs)
unfolding select
select-Keyed f [] d = tt
select-Keyed f (r ∷ rs) d = elim (Bool-cases (f r)) [
  | inl kept ↦ rw kept (All-select _ f rs d.0, select-Keyed f rs d.1)
  | inr dropped ↦ rw dropped (select-Keyed f rs d.1)
]

upsert-Keyed :
    (r : HostProperty) (rs : List HostProperty) → Keyed rs → Keyed (upsert same_property r rs)
unfolding upsert
upsert-Keyed r [] d = (tt, tt)
upsert-Keyed r (q ∷ rs) d = elim (Bool-cases (same_property r q)) [
  | inl same ↦ rw same (
    All-map (λ x. same_property x q ≡ false) (λ x. same_property x r ≡ false) rs
        (λ x h. ground (arith, eq_iff x.name q.name, eq_iff x.name r.name, eq_iff r.name q.name))
        d.0,
    d.1,
  )
  | inr other ↦ rw other (
    All-upsert (λ x. same_property x q ≡ false) same_property r rs other d.0,
    upsert-Keyed r rs d.1,
  )
]

-- a host that stands in the table is found by its identity
exists-insert_row :
    (f : Host → Bool) (h : Host) (hs : List Host)
    → exists f hs ≡ true
    → exists f (insert_row h hs) ≡ true
exists-insert_row f h hs e = elim (Option-cases (find_row f hs)) [
  | inl absent ↦ absurd (cc (rw absent at e))
  | inr (k, found) ↦ rw (found-insert_row f k h hs found) refl
]

exists-select :
    (i j : ℕ) (hs : List Host)
    → (j == i) ≡ false
    → exists (has_host_id j) hs ≡ true
    → exists (has_host_id j) (select (λ h. not (has_host_id i h)) hs) ≡ true
unfolding find_row select
exists-select i j [] e h = h
exists-select i j (k ∷ hs) e h = ground (arith, exists-select i j hs e)

-- the properties of the other hosts
Owned-select :
    (i : ℕ) (hs : List Host) (rs : List HostProperty)
    → All (Owned hs) rs
    → All (Owned (select (λ h. not (has_host_id i h)) hs)) (select (λ r. not (r.id == i)) rs)
unfolding select
Owned-select i hs [] a = tt
Owned-select i hs (r ∷ rs) a = elim (Bool-cases (r.id == i)) [
  | inl gone ↦ rw gone (Owned-select i hs rs a.1)
  | inr kept ↦ rw kept (exists-select i r.id hs kept a.0, Owned-select i hs rs a.1)
]

module _ (t : Tables) (w : IsSound t) where
  pub insert_host-IsSound : (n : String) → IsSound (insert_host n t)
  unfolding insert_host
  insert_host-IsSound n = elim (Bool-cases (exists (has_name n) t.host)) [
    | inl there ↦ rw there (record {
      distinct = w.distinct;
      below =
          All-map (λ h. h.id < t.next) (λ h. h.id < suc t.next) t.host (λ h b. omega arith) w.below;
      owned = w.owned;
      keyed = w.keyed;
    })
    | inr new ↦ rw new (record {
      distinct = insert_row-Distinct n t.next t.host new w.below w.distinct;
      below =
          All-insert_row (λ h. h.id < suc t.next) (record { id = t.next; hostname = n }) t.host
            (omega arith)
            (All-map (λ h. h.id < t.next) (λ h. h.id < suc t.next) t.host (λ h b. omega arith)
              w.below);
      owned =
          All-map (Owned t.host) (Owned (insert_row (record { id = t.next; hostname = n }) t.host))
            t.host_property
            (λ r o.
              exists-insert_row (has_host_id r.id) (record { id = t.next; hostname = n }) t.host o)
            w.owned;
      keyed = w.keyed;
    })
  ]

  pub insert_host-Keeps : (n : String) → Keeps t (insert_host n t)
  unfolding insert_host select_host
  insert_host-Keeps n m i h = elim (Bool-cases (exists (has_name n) t.host)) [
    | inl there ↦ rw there h
    | inr new ↦ elim (Option-cases (find_row (has_name m) t.host)) [
      | inl absent ↦ absurd (cc (rw absent at h))
      | inr (k, found) ↦ rw new (
          ap id_of (
            found-insert_row (has_name m) k (record { id = t.next; hostname = n }) t.host found
            ∙ sym found)
          ∙ h)
    ]
  ]

  pub delete_host_row-IsSound : (i : Option ℕ) → IsSound (delete_host_row i t)
  unfolding delete_host_row
  delete_host_row-IsSound none = w
  delete_host_row-IsSound (some i) = record {
    distinct = select-Distinct _ t.host w.distinct;
    below = All-select (λ h. h.id < t.next) _ t.host w.below;
    owned = Owned-select i t.host t.host_property w.owned;
    keyed = select-Keyed _ t.host_property w.keyed;
  }

  pub put_host_property-IsSound :
      (i : ℕ) (name value : String)
      → exists (has_host_id i) t.host ≡ true
      → IsSound (put_host_property i name value t)
  unfolding put_host_property
  put_host_property-IsSound i name value h = record {
    distinct = w.distinct;
    below = w.below;
    owned =
        All-upsert (Owned t.host) same_property (record { id = i; name = name; value = value })
          t.host_property h w.owned;
    keyed = upsert-Keyed (record { id = i; name = name; value = value }) t.host_property w.keyed;
  }

  pub delete_property_rows-IsSound :
      (i : Option ℕ) (names : List String) → IsSound (delete_property_rows i names t)
  unfolding delete_property_rows
  delete_property_rows-IsSound i names = record {
    distinct = w.distinct;
    below = w.below;
    owned = All-select (Owned t.host) _ t.host_property w.owned;
    keyed = select-Keyed _ t.host_property w.keyed;
  }
