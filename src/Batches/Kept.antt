-- ===== src/Batches/Kept.antt =====
-- Batches that are kept as they are: none is empty or larger than its size, and together they are
-- the items.
use mathlib.Core.List.{◌++◌}
use pub_crawler.Base.{
  ℕ, ◌≡◌, ◌≤◌, ◌<◌, ◌+◌, refl, sym, ap, ◌∙◌, Option, List, [], ◌∷◌, leb, length, length-append,
  arith, Bool-cases, Option-cases, inl, inr, All, All-join, append_assoc, append-nil,
}
use pub_crawler.Exec.{Result, ok, Exec, modify}
use pub_crawler.Batches.{in_batches}
use pub_crawler.Batches.Joined.{collect}

unfoldable pub concat : {A : Type 0} → List (List A) → List A
concat [] = []
concat (xs ∷ xss) = xs ++ concat xss

concat-snoc :
    {A : Type 0} (xss : List (List A)) (xs : List A) → concat (xss ++ (xs ∷ [])) ≡ concat xss ++ xs
unfolding concat
concat-snoc [] xs = append-nil xs
concat-snoc (ys ∷ xss) xs =
    ap (λ l. ys ++ l) (concat-snoc xss xs) ∙ sym (append_assoc ys (concat xss) xs)

-- a batch that is written: not empty, and no larger than the size
abbrev pub Sized : {A : Type 0} → ℕ → List A → Type 0
Sized size xs = (0 < length xs) × (length xs ≤ size)

-- `writer.write_batch(...)`
unfoldable pub keep_batch : {A : Type 0} → List A → Exec (List (List A)) Unit
keep_batch batch = modify (λ written. written ++ (batch ∷ []))

module _ {E A : Type 0} (size : ℕ) (positive : 0 < size) (keep : E → Option A) where
  pub record Kept (before : List (List A)) (items : List A)
      (call : Result (Unit {0}) × List (List A)) : Type 0 where
    pub result : call.0 ≡ ok tt
    pub together : concat call.1 ≡ concat before ++ items
    pub sized : All (Sized size) call.1

  pub kept_batches :
      (batch : List A) (es : List E) (before : List (List A))
      → length batch < size
      → All (Sized size) before
      → Kept before
          (batch ++ collect keep es)
          (in_batches size keep_batch (λ e. ok (keep e)) batch es before)
  unfolding in_batches collect keep_batch
  kept_batches [] [] before fits a = record {
    result = refl;
    together = sym (append-nil (concat before));
    sized = a;
  }
  kept_batches (b ∷ batch) [] before fits a = record {
    result = refl;
    together =
        concat-snoc before (b ∷ batch)
        ∙ ap (λ l. concat before ++ l) (sym (append-nil (b ∷ batch)));
    sized = All-join (Sized size) before ((b ∷ batch) ∷ []) a ((omega arith, omega arith), tt);
  }
  kept_batches batch (e ∷ es) before fits a = elim (Option-cases (keep e)) [
    | inl skipped ↦ rw (in_batches, skipped, collect) (kept_batches batch es before fits a)
    | inr (x, taken) ↦
        let grown : List A = batch ++ (x ∷ []) in
        let same : grown ++ collect keep es ≡ batch ++ (x ∷ collect keep es) =
          append_assoc batch (x ∷ []) (collect keep es) in
        let long : length grown ≡ length batch + 1 = length-append batch (x ∷ []) in
        rw (in_batches, taken, collect, sym same)
          (elim (Bool-cases (leb size (length grown))) [
            | inr room ↦ rw room (kept_batches grown es before (ground arith) a)
            | inl full ↦
                let written =
                  All-join (Sized size) before (grown ∷ []) a ((omega arith, omega arith), tt) in
                let rest = kept_batches [] es (before ++ (grown ∷ [])) positive written in
                rw full (record {
                  result = rest.result;
                  together =
                      rest.together
                      ∙ ap (λ l. l ++ collect keep es) (concat-snoc before grown)
                      ∙ append_assoc (concat before) grown (collect keep es);
                  sized = rest.sized;
                })
          ])
  ]
