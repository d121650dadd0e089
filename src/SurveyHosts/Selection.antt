-- ===== src/SurveyHosts/Selection.antt =====
-- Which hosts are gathered to be surveyed.
use mathlib.Core.List.{◌++◌}
use pub_crawler.Base.{
  String, ℕ, zero, suc, ◌+◌, ◌≡◌, refl, sym, ap, ◌∙◌, Bool, true, false, none, some, List, [], ◌∷◌,
  leb, length, length-append, take, append_assoc, append-nil, All, arith, Bool-cases, inl, inr,
  if◌then◌else◌,
}
use pub_crawler.Exec.{Result, ok}
use pub_crawler.Json.{Value}
use pub_crawler.SurveyHosts.{Moment, is_due, is_full, gather}

module _ (parse : String → Result Moment) (cutoff : ℕ) (test : Value → Bool) where
  abbrev Row : Type 0
  Row = ℕ × String × Value

  -- for none of the rows does the code's test raise, and it answers what `test` says
  abbrev pub Classified : List Row → Type 0
  Classified rows = All (λ r. is_due parse cutoff r.2 ≡ ok (test r.2)) rows

  -- the names of the hosts that are due, in the order of the rows
  abbrev pub due_names : List Row → List String
  due_names [] = []
  due_names ((id, hostname, props) ∷ rows) =
      let rest = due_names rows in if test props then hostname ∷ rest else rest

  gather_all :
      (acc : List String) (rows : List Row)
      → Classified rows
      → gather parse cutoff none acc rows ≡ ok (acc ++ due_names rows)
  unfolding gather is_full
  gather_all acc [] c = ap ok (sym (append-nil acc))
  gather_all acc ((id, hostname, props) ∷ rows) c = elim (Bool-cases (test props)) [
    | inl due ↦
        rw (gather, c.0, due, is_full)
          (gather_all (acc ++ (hostname ∷ [])) rows c.1
            ∙ ap ok (append_assoc acc (hostname ∷ []) (due_names rows)))
    | inr fresh ↦ rw (gather, c.0, fresh, is_full) (gather_all acc rows c.1)
  ]

  not_yet : (n k : ℕ) (acc : List String) → n ≡ length acc + suc k → leb n (length acc) ≡ false
  not_yet n k acc e = ground arith

  filled :
      (n : ℕ) (acc : List String) (h : String)
      → n ≡ length acc + 1
      → leb n (length (acc ++ (h ∷ []))) ≡ true
  filled n acc h e = ground (arith, length-append acc (h ∷ []))

  one_more :
      (n k : ℕ) (acc : List String) (h : String)
      → n ≡ length acc + suc (suc k)
      → n ≡ length (acc ++ (h ∷ [])) + suc k
  one_more n k acc h e = ground (arith, length-append acc (h ∷ []))

  not_filled :
      (n k : ℕ) (acc : List String) (h : String)
      → n ≡ length acc + suc (suc k)
      → leb n (length (acc ++ (h ∷ []))) ≡ false
  not_filled n k acc h e = ground (arith, length-append acc (h ∷ []))

  gather-some :
      (n k : ℕ) (acc : List String) (rows : List Row)
      → n ≡ length acc + suc k
      → Classified rows
      → gather parse cutoff (some n) acc rows ≡ ok (acc ++ take (suc k) (due_names rows))
  unfolding gather is_full
  gather-some n k acc [] e c = ap ok (sym (append-nil acc))
  gather-some n zero acc ((id, hostname, props) ∷ rows) e c = elim (Bool-cases (test props)) [
    | inl due ↦ rw (gather, c.0, due, is_full, filled n acc hostname e) refl
    | inr fresh ↦
        rw (gather, c.0, fresh, is_full, not_yet n 0 acc e) (gather-some n zero acc rows e c.1)
  ]
  gather-some n (suc k) acc ((id, hostname, props) ∷ rows) e c = elim (Bool-cases (test props)) [
    | inl due ↦
        rw (gather, c.0, due, is_full, not_filled n k acc hostname e)
          (gather-some n k (acc ++ (hostname ∷ [])) rows (one_more n k acc hostname e) c.1
            ∙ ap ok (append_assoc acc (hostname ∷ []) (take (suc k) (due_names rows))))
    | inr fresh ↦
        rw (gather, c.0, fresh, is_full, not_yet n (suc k) acc e)
          (gather-some n (suc k) acc rows e c.1)
  ]

  -- Where the code's test of a host raises for none of the rows: without a limit the hosts that are due are gathered; with a limit of one or more, the first ones
  -- that are due, up to the limit.
  pub gather_lem :
      (rows : List Row)
      → Classified rows
      → (gather parse cutoff none [] rows ≡ ok (due_names rows))
        × ((n : ℕ)
            → gather parse cutoff (some (suc n)) [] rows ≡ ok (take (suc n) (due_names rows)))
  gather_lem rows c = (gather_all [] rows c, λ n. gather-some (suc n) n [] rows (omega arith) c)
