-- ===== src/Batches/Joined.antt =====
-- Writing in batches is writing all at once, whatever the size of a batch.
use mathlib.Core.List.{◌++◌}
use pub_crawler.Base.{
  ℕ, ◌≡◌, refl, sym, ap, ◌∙◌, Option, none, some, List, [], ◌∷◌, leb, length, Bool-cases,
  Option-cases, inl, inr, append_assoc, append-nil, fun_ext, All, map, All-split, subst,
}
use pub_crawler.Exec.{Result, ok, raised, Exec, for_each, ◌>>◌, continue_with}
use pub_crawler.Batches.{in_batches}

-- the items of the entries that are kept
unfoldable pub collect : {E I : Type 0} → (E → Option I) → List E → List I
collect item [] = []
collect item (e ∷ es) =
    let rest = collect item es in elim (item e) [ none ↦ rest | some i ↦ i ∷ rest ]

module _ {S I : Type 0} (f : I → Exec S Unit) where
  continue_assoc :
      (m : Result (Unit {0})) (g h : Exec S Unit) (s : S)
      → continue_with (λ _. g >> h) m s ≡ (continue_with (λ _. g) m >> h) s
  continue_assoc (ok a) g h s = refl
  continue_assoc (raised e) g h s = refl

  -- going through two lists is going through one and then the other
  pub for_each-append :
      (xs ys : List I) (s : S) → for_each (xs ++ ys) f s ≡ (for_each xs f >> for_each ys f) s
  unfolding for_each
  for_each-append [] ys s = refl
  for_each-append (x ∷ xs) ys s =
      ap (λ g. continue_with (λ _. g) (f x s).0 (f x s).1) (fun_ext (for_each-append xs ys))
      ∙ continue_assoc (f x s).0 (for_each xs f) (for_each ys f) (f x s).1

module _ {S E I : Type 0} (size : ℕ) (write : List I → Exec S Unit) (keep : E → Result (Option I))
    (item : E → Option I) (Fine : I → Type 0) (nothing : (s : S) → write [] s ≡ (ok tt, s))
    (joins : (xs ys : List I) (s : S)
      → All Fine (xs ++ ys)
      → write (xs ++ ys) s ≡ (write xs >> write ys) s) where
  -- Where the entries are kept as `item` says: in batches all their items are written.
  pub in_batches_lem :
      (batch : List I) (es : List E) (s : S)
      → All (λ e. keep e ≡ ok (item e)) es
      → All Fine (batch ++ collect item es)
      → in_batches size write keep batch es s ≡ write (batch ++ collect item es) s
  unfolding in_batches collect
  in_batches_lem [] [] s k a = sym (nothing s)
  in_batches_lem (b ∷ batch) [] s k a = ap (λ l. write l s) (sym (append-nil (b ∷ batch)))
  in_batches_lem batch (e ∷ es) s k a = elim (Option-cases (item e)) [
    | inl skipped ↦
        rw (in_batches, k.0, collect, skipped)
          (in_batches_lem batch es s k.1 (rw (collect, skipped) at a))
    | inr (i, taken) ↦
        let same : (batch ++ (i ∷ [])) ++ collect item es ≡ batch ++ (i ∷ collect item es) =
          append_assoc batch (i ∷ []) (collect item es) in
        let fine : All Fine ((batch ++ (i ∷ [])) ++ collect item es) =
          subst (All Fine) (sym same) (rw (collect, taken) at a) in
        rw (in_batches, k.0, collect, taken, sym same)
          (elim (Bool-cases (leb size (length (batch ++ (i ∷ []))))) [
            | inr room ↦ rw room (in_batches_lem (batch ++ (i ∷ [])) es s k.1 fine)
            | inl full ↦ rw full (
                ap (λ g. (write (batch ++ (i ∷ [])) >> g) s)
                  (fun_ext (λ t.
                    in_batches_lem [] es t k.1
                      (All-split Fine (batch ++ (i ∷ [])) (collect item es) fine).1))
                ∙ sym (joins (batch ++ (i ∷ [])) (collect item es) s fine))
          ])
  ]

module _ {S E I : Type 0} (f : I → Exec S Unit) (g : E → I) where
  pub collect-map : (es : List E) → collect (λ e. some (g e)) es ≡ map g es
  unfolding collect
  collect-map [] = refl
  collect-map (e ∷ es) = ap (λ l. g e ∷ l) (collect-map es)

  every_kept :
      (es : List E) → All (λ e. ◌≡◌ {A = Result (Option I)} (ok (some (g e))) (ok (some (g e)))) es
  every_kept [] = tt
  every_kept (e ∷ es) = (refl, every_kept es)

  every_fine : (is : List I) → All (λ i. Unit {0}) is
  every_fine [] = tt
  every_fine (i ∷ is) = (tt, every_fine is)

  -- Where every entry is kept and each item is written on its own, batches make no difference.
  pub each_in_batches :
      (size : ℕ) (es : List E) (s : S)
      → in_batches size (λ batch. for_each batch f) (λ e. ok (some (g e))) [] es s
        ≡ for_each (map g es) f s
  unfolding for_each
  each_in_batches size es s =
      in_batches_lem size (λ batch. for_each batch f) (λ e. ok (some (g e))) (λ e. some (g e))
        (λ i. Unit {0}) (λ t. refl) (λ xs ys t a. for_each-append f xs ys t) [] es s (every_kept es)
        (every_fine _)
      ∙ ap (λ l. for_each l f s) (collect-map es)
