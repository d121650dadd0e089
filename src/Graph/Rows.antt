-- ===== src/Graph/Rows.antt =====
-- Lists of rows: what is found after an insertion, an update or a deletion.
use pub_crawler.Base.{
  String, ◌≡◌, refl, sym, ap, ◌∙◌, Bool, true, false, Option, some, List, [], ◌∷◌, str_eq, eq_iff,
  arith, Bool-cases, inl, inr, All,
}
use pub_crawler.Graph.Schema.{find_row, exists, select, insert_row, upsert, any_of}

module _ {A : Type 0} (f : A → Bool) where
  pub found-insert_row :
      (x y : A) (xs : List A) → find_row f xs ≡ some x → find_row f (insert_row y xs) ≡ some x
  unfolding find_row insert_row
  found-insert_row x y [] h = absurd (cc)
  found-insert_row x y (z ∷ xs) h = ground (arith, found-insert_row x y xs)

  pub insert_row_found :
      (y : A) (xs : List A)
      → exists f xs ≡ false
      → f y ≡ true
      → find_row f (insert_row y xs) ≡ some y
  unfolding find_row insert_row
  insert_row_found y [] h k = ground arith
  insert_row_found y (z ∷ xs) h k = ground (arith, insert_row_found y xs)

pub any_of-select :
    (f : String → Bool) (ls : List String) (l : String)
    → any_of ls l ≡ true
    → f l ≡ true
    → any_of (select f ls) l ≡ true
unfolding any_of select
any_of-select f [] l h k = h
any_of-select f (m ∷ ls) l h k = elim (Bool-cases (str_eq m l)) [
  | inl same ↦ rw (ap f ((eq_iff m l).0 same) ∙ k, any_of, same) refl
  | inr other ↦ elim (Bool-cases (f m)) [
    | inl kept ↦ rw (kept, any_of, other) (any_of-select f ls l (rw other at h) k)
    | inr dropped ↦ rw dropped (any_of-select f ls l (rw other at h) k)
  ]
]

pub All-select :
    {A : Type 0} (P : A → Type 0) (f : A → Bool) (ls : List A) → All P ls → All P (select f ls)
unfolding select
All-select P f [] a = tt
All-select P f (l ∷ ls) a = elim (Bool-cases (f l)) [
  | inl kept ↦ rw kept (a.0, All-select P f ls a.1)
  | inr dropped ↦ rw dropped (All-select P f ls a.1)
]

pub select-none :
    (f : String → Bool) (ls : List String)
    → ((l : String) → any_of ls l ≡ true → f l ≡ false)
    → select f ls ≡ []
unfolding select any_of
select-none f [] h = refl
select-none f (l ∷ ls) h =
    rw (h l (ground (arith, eq_iff l l))) (select-none f ls (λ k i. h k (ground arith)))

pub any_of-of-select :
    (f : String → Bool) (ls : List String) (l : String)
    → any_of (select f ls) l ≡ true
    → any_of ls l ≡ true
unfolding select any_of
any_of-of-select f [] l h = h
any_of-of-select f (m ∷ ls) l h = ground (arith, any_of-of-select f ls l)

module _ {A : Type 0} (same : A → A → Bool) (f : A → Bool) (x : A) where
  -- Where the test holds of the new row and of the rows with its key, it finds the new row.
  pub found-upsert :
      (xs : List A)
      → f x ≡ true
      → ((y : A) → f y ≡ true → same x y ≡ true)
      → find_row f (upsert same x xs) ≡ some x
  unfolding find_row upsert
  found-upsert [] h k = ground arith
  found-upsert (y ∷ xs) h k = ground (arith, found-upsert xs h k, k y)

  -- Where it holds neither of the new row nor of the rows with its key, it finds what it found.
  pub other-upsert :
      (xs : List A)
      → f x ≡ false
      → ((y : A) → same x y ≡ true → f y ≡ false)
      → find_row f (upsert same x xs) ≡ find_row f xs
  unfolding find_row upsert
  other-upsert [] h k = ground arith
  other-upsert (y ∷ xs) h k = ground (arith, other-upsert xs h k, k y)

module _ {A : Type 0} (P : A → Type 0) where
  pub All-insert_row : (x : A) (xs : List A) → P x → All P xs → All P (insert_row x xs)
  unfolding insert_row
  All-insert_row x [] p a = (p, tt)
  All-insert_row x (y ∷ xs) p a = (a.0, All-insert_row x xs p a.1)

  pub All-upsert :
      (same : A → A → Bool) (x : A) (xs : List A) → P x → All P xs → All P (upsert same x xs)
  unfolding upsert
  All-upsert same x [] p a = (p, tt)
  All-upsert same x (y ∷ xs) p a = elim (Bool-cases (same x y)) [
    | inl old ↦ rw old (p, a.1)
    | inr new ↦ rw new (a.0, All-upsert same x xs p a.1)
  ]

  pub All-found : (f : A → Bool) (x : A) (xs : List A) → All P xs → find_row f xs ≡ some x → P x
  unfolding find_row
  All-found f x [] a h = absurd (cc)
  All-found f x (y ∷ xs) a h = elim (Bool-cases (f y)) [
    | inl hit ↦ rw (some_injective (rw hit at h)) at a.0
    | inr miss ↦ All-found f x xs a.1 (rw miss at h)
  ]
    where
      some_injective : ◌≡◌ {A = Option A} (some y) (some x) → y ≡ x
      some_injective e = cc

-- A row that is found passes the test.
pub find_row_passes :
    {A : Type 0} (f : A → Bool) (x : A) (xs : List A) → find_row f xs ≡ some x → f x ≡ true
unfolding find_row
find_row_passes f x [] h = absurd (cc)
find_row_passes f x (y ∷ xs) h = elim (Bool-cases (f y)) [
  | inl hit ↦ ap f (sym (some_injective (rw hit at h))) ∙ hit
  | inr miss ↦ find_row_passes f x xs (rw miss at h)
]
  where
    some_injective : ◌≡◌ {A = Option _} (some y) (some x) → y ≡ x
    some_injective e = cc
