-- ===== src/HostSurvey/Deletion.antt =====
-- What is found in the table of hosts after one was deleted.
use pub_crawler.Base.{
  String, ℕ, ◌≡◌, refl, sym, ap, ◌∙◌, true, false, not, Option, none, some, List, [], ◌∷◌, ◌==◌,
  ◌≢◌, str_eq, eq_iff, arith, Bool-cases, Option-cases, inl, inr, All, All-map,
}
use pub_crawler.Graph.Schema.{select, find_row}
use pub_crawler.Graph.Rows.{All-found}
use pub_crawler.HostSurvey.Schema.{
  Host, Tables, has_name, has_host_id, select_host, delete_host_row,
}
use pub_crawler.HostSurvey.Sound.{IsSound, Distinct, Apart}

some_injective : {h k : Host} → ◌≡◌ {A = Option Host} (some h) (some k) → h ≡ k
some_injective e = cc

module _ (i : ℕ) where
  abbrev left : List Host → List Host
  left hs = select (λ h. not (has_host_id i h)) hs

  kept :
      (m : String) (k : Host) (hs : List Host)
      → find_row (has_name m) hs ≡ some k
      → (k.id == i) ≡ false
      → find_row (has_name m) (left hs) ≡ some k
  unfolding find_row select
  kept m k [] e h = e
  kept m k (x ∷ hs) e h = ground (arith, kept m k hs)

  absent :
      (m : String) (hs : List Host)
      → find_row (has_name m) hs ≡ none
      → find_row (has_name m) (left hs) ≡ none
  unfolding find_row select
  absent m [] e = e
  absent m (x ∷ hs) e = ground (arith, absent m hs)

not_found :
    (m : String) (hs : List Host)
    → All (λ h. str_eq h.hostname m ≡ false) hs
    → find_row (has_name m) hs ≡ none
unfolding find_row
not_found m [] a = refl
not_found m (h ∷ hs) a = ground (arith, not_found m hs)

gone :
    (m : String) (k : Host) (hs : List Host)
    → Distinct hs
    → find_row (has_name m) hs ≡ some k
    → find_row (has_name m) (left k.id hs) ≡ none
unfolding find_row select
gone m k [] d e = refl
gone m k (x ∷ hs) d e = elim (Bool-cases (has_name m x)) [
  | inr miss ↦ ground (arith, gone m k hs d.1)
  | inl hit ↦
      let same : x ≡ k = some_injective (rw hit at e) in
      let rest : find_row (has_name m) (left k.id hs) ≡ none = absent k.id m hs (
        not_found m hs (
          All-map (Apart x) (λ h. str_eq h.hostname m ≡ false) hs
            (λ h a.
              ground
                (arith, eq_iff x.hostname m, eq_iff h.hostname m, eq_iff h.hostname x.hostname))
            d.0)) in
      rw same (ground (arith, rest))
]

ids_differ :
    (n m : String) (h k : Host) (hs : List Host)
    → Distinct hs
    → find_row (has_name n) hs ≡ some h
    → find_row (has_name m) hs ≡ some k
    → (k.id == h.id) ≡ true
    → n ≡ m
unfolding find_row
ids_differ n m h k [] d e f s = absurd (cc)
ids_differ n m h k (x ∷ hs) d e f s = elim (Bool-cases (has_name n x)) [
  | inl a ↦ elim (Bool-cases (has_name m x)) [
    | inl b ↦ sym ((eq_iff x.hostname n).0 a) ∙ (eq_iff x.hostname m).0 b
    | inr b ↦
        let same : x ≡ h = some_injective (rw a at e) in
        absurd (
          cc (
            (All-found (Apart x) (has_name m) k hs d.0 (rw b at f)).1,
            ap (λ y. k.id == y.id) same,
            s,
          ))
  ]
  | inr a ↦ elim (Bool-cases (has_name m x)) [
    | inl b ↦
        let same : x ≡ k = some_injective (rw b at f) in
        absurd (
          cc (
            (All-found (Apart x) (has_name n) h hs d.0 (rw a at e)).1,
            ap (λ y. h.id == y.id) same,
            flip h.id k.id s,
          ))
    | inr b ↦ ids_differ n m h k hs d.1 (rw a at e) (rw b at f) s
  ]
]
  where
    flip : (i j : ℕ) → (j == i) ≡ true → (i == j) ≡ true
    flip i j h = ground arith

module _ (t : Tables) (w : IsSound t) (n : String) where
  -- the host is found no more
  pub gone_host : select_host n (delete_host_row (select_host n t) t) ≡ none
  unfolding select_host delete_host_row
  gone_host = elim (Option-cases (find_row (has_name n) t.host)) [
    | inl missing ↦ rw (missing, delete_host_row, missing) refl
    | inr (k, found) ↦ rw (found, delete_host_row, gone n k t.host w.distinct found) refl
  ]

  -- the others are found as before
  pub other_host :
      (m : String) → n ≢ m → select_host m (delete_host_row (select_host n t) t) ≡ select_host m t
  unfolding select_host delete_host_row
  other_host m apart = elim (Option-cases (find_row (has_name n) t.host)) [
    | inl missing ↦ rw (missing, delete_host_row) refl
    | inr (h, found) ↦ elim (Option-cases (find_row (has_name m) t.host)) [
      | inl missing ↦ rw (found, delete_host_row, missing, absent h.id m t.host missing) refl
      | inr (k, other) ↦ elim (Bool-cases (k.id == h.id)) [
        | inl same ↦ absurd (apart (ids_differ n m h k t.host w.distinct found other same))
        | inr differ ↦ rw (found, delete_host_row, other, kept h.id m k t.host other differ) refl
      ]
    ]
  ]
