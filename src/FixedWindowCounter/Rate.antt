-- ===== src/FixedWindowCounter/Rate.antt =====
-- The counter keeps its promise: in no window are there more requests to an origin than tokens.
use pub_crawler.Base.{
  String, ℕ, zero, suc, ◌+◌, ◌/◌, ◌≤◌, ◌<◌, ◌≡◌, refl, sym, ap, subst, ◌∙◌, false, some, List, [],
  ◌∷◌, str_eq, eq_iff, arith, All-map, Bool-cases, inl, inr,
}
use pub_crawler.Base.Int.{pos, sub_ℕ}
use text.Mathlib.TextPositions.{eq_refl as str_eq_self}
use pub_crawler.Exec.{ok}
use pub_crawler.FixedWindowCounter.{
  Counter, init, ensure_origin, acquire_round, check_bucket, assign, Outcome, acquired, asleep,
  window_end,
}
use pub_crawler.Exec.Fallible.{Result-cases}
use pub_crawler.FixedWindowCounter.Log.{count_in, div_mono, Round, follow, follow_all, InOrder}
use pub_crawler.FixedWindowCounter.Ensure.{
  Known, Known-later, unknown, used, Kept, Kept-later, Ready, ready, assign_self,
}

-- A round after `_ensure_origin`, by what is in the bucket.
module _ (o : String) (first second third : ℕ) (c c' : Counter)
    (e : ensure_origin o first c ≡ ok c') where
  pub round_zero :
      c'.bucket o ≡ some 0
      → acquire_round o first second third c ≡ ok (asleep (sub_ℕ (window_end c' second) third), c')
  unfolding acquire_round
  round_zero f = rw (e, acquire_round) (rw (f, check_bucket))

  pub round_suc :
      (b : ℕ)
      → c'.bucket o ≡ some (suc b)
      → acquire_round o first second third c
        ≡ ok (
          acquired,
          record c' { bucket = assign o b c'.bucket; last = assign o (pos second) c'.last },
        )
  unfolding acquire_round
  round_suc b f = rw (e, acquire_round) (rw (f, check_bucket))

-- A round for another origin leaves this one's entries alone.
pub record Untouched (o : String) (c c' : Counter) : Type 0 where
  pub same_last : c'.last o ≡ c.last o
  pub same_bucket : c'.bucket o ≡ c.bucket o
  pub same_tokens : c'.tokens ≡ c.tokens
  pub same_window : c'.window_ms ≡ c.window_ms

ensure_other :
    (j o : String) (first : ℕ) (c c' : Counter)
    → str_eq j o ≡ false
    → ensure_origin j first c ≡ ok c'
    → Untouched o c c'
unfolding ensure_origin
ensure_other j o first c c' h e = ground (arith)

bucket_other :
    (j o : String) (second third : ℕ) (c c' : Counter) (out : Outcome)
    → str_eq j o ≡ false
    → check_bucket j second third c ≡ ok (out, c')
    → Untouched o c c'
unfolding check_bucket window_end
bucket_other j o second third c c' out h e = ground arith

pub round_other :
    (j o : String) (first second third : ℕ) (c c' : Counter) (out : Outcome)
    → str_eq j o ≡ false
    → acquire_round j first second third c ≡ ok (out, c')
    → Untouched o c c'
unfolding acquire_round
round_other j o first second third c c' out h e = elim (Result-cases (ensure_origin j first c)) [
  | inl (d, f) ↦
      let u = ensure_other j o first c d h f in
      let v = bucket_other j o second third d c' out h (rw (f, acquire_round) at e) in
      record {
        same_last = v.same_last ∙ u.same_last;
        same_bucket = v.same_bucket ∙ u.same_bucket;
        same_tokens = v.same_tokens ∙ u.same_tokens;
        same_window = v.same_window ∙ u.same_window;
      }
  | inr (x, f) ↦ absurd (cc (rw (f, acquire_round) at e))
]

module _ (n w : ℕ) (positive : 0 < w) where
  -- the round that takes a token
  taken :
      (o : String) (first second left : ℕ) (c : Counter) (log : List ℕ)
      → first ≤ second
      → (r : Ready n w positive o first c log) → r.left ≡ suc left
      → ((q : ℕ) → count_in w q log ≤ n)
      → Kept n w positive o second
          (record c { bucket = assign o left c.bucket; last = assign o (pos second) c.last })
          (second ∷ log)
  unfolding count_in
  taken o first second left c log later r e limited = record {
    tokens = r.tokens;
    window = r.window;
    known =
        subst (λ l. Known n w positive second l (assign o left c.bucket o) (second ∷ log))
          (sym (assign_self o (pos second) c.last))
          (subst (λ b. Known n w positive second (some (pos second)) b (second ∷ log))
            (sym (assign_self o left c.bucket))
            (used (omega arith)
              (
                omega arith,
                All-map (λ x. x ≤ first) (λ x. x ≤ second) log (λ x h. omega arith) r.recent,
              )
              room));
    limited = λ q. ground (arith, limited q, r.room q, div_mono first second w positive later);
  }
    where
      room : (q : ℕ) → second / w ≤ q → count_in w q (second ∷ log) + left ≤ n
      room q h = ground (arith, r.room q, div_mono first second w positive later)

  waited :
      (o : String) (first second : ℕ) (c : Counter) (log : List ℕ)
      → first ≤ second
      → (r : Ready n w positive o first c log) → r.left ≡ 0
      → ((q : ℕ) → count_in w q log ≤ n)
      → Kept n w positive o second c log
  waited o first second c log later r e limited = record {
    tokens = r.tokens;
    window = r.window;
    known =
        subst (λ l. Known n w positive second l (c.bucket o) log) (sym r.last_is)
          (subst (λ b. Known n w positive second (some r.last) b log) (sym r.left_is)
            (Known-later n w positive first second _ _ log later (r.known e)));
    limited = limited;
  }

  abbrev KeptBy : String → ℕ → Counter × List ℕ → Type 0
  KeptBy o now s = Kept n w positive o now s.0 s.1

  module _ (o : String) (now first second third : ℕ) (c : Counter) (log : List ℕ) (a : now ≤ first)
      (b : first ≤ second) (d : second ≤ third) (k : Kept n w positive o now c log) where
    abbrev round : String → Round
    round j = record { origin = j; first = first; second = second; third = third }

    own_round : KeptBy o third (follow o (round o) (c, log))
    unfolding follow
    own_round = by_level r.left refl
      where
        found :
            (c' : Counter) × (ensure_origin o first c ≡ ok c') × Ready n w positive o first c' log
        found = ready n w positive o now first c log a k

        c' : Counter
        c' = found.0

        e : ensure_origin o first c ≡ ok c'
        e = found.1

        r : Ready n w positive o first c' log
        r = found.2

        by_level : (m : ℕ) → r.left ≡ m → KeptBy o third (follow o (round o) (c, log))
        by_level zero z =
            rw (round_zero o first second third c c' e (r.left_is ∙ ap some z), follow)
              (waited o first third c' log (omega arith) r z k.limited)
        by_level (suc m) z =
            rw
              (
                round_suc o first second third c c' e m (r.left_is ∙ ap some z),
                follow,
                str_eq_self o,
              )
              (Kept-later n w positive o second third _ _ d
                (taken o first second m c' log b r z k.limited))

    other_round : (j : String) → str_eq j o ≡ false → KeptBy o third (follow o (round j) (c, log))
    unfolding follow
    other_round j h = elim (Result-cases (acquire_round j first second third c)) [
      | inl ((acquired, c'), e) ↦
          rw (e, follow, h) (untouched c' (round_other j o first second third c c' acquired h e))
      | inl ((asleep ms, c'), e) ↦
          rw (e, follow) (untouched c' (round_other j o first second third c c' (asleep ms) h e))
      | inr (x, e) ↦ rw (e, follow) (Kept-later n w positive o now third c log (omega arith) k)
    ]
      where
        untouched : (c' : Counter) → Untouched o c c' → Kept n w positive o third c' log
        untouched c' u = Kept-later n w positive o now third c' log (omega arith) (record {
          tokens = u.same_tokens ∙ k.tokens;
          window = u.same_window ∙ k.window;
          known =
              subst (λ l. Known n w positive now l (c'.bucket o) log) (sym u.same_last)
                (subst (λ l. Known n w positive now (c.last o) l log) (sym u.same_bucket) k.known);
          limited = k.limited;
        })

  follow-Kept :
      (o : String) (now : ℕ) (r : Round) (s : Counter × List ℕ)
      → now ≤ r.first
      → r.first ≤ r.second
      → r.second ≤ r.third
      → KeptBy o now s
      → KeptBy o r.third (follow o r s)
  follow-Kept o now r (c, log) a b d k = elim (Bool-cases (str_eq r.origin o)) [
    | inl same ↦
        subst (λ j. KeptBy o r.third (follow o (record r { origin = j }) (c, log)))
          (sym ((eq_iff r.origin o).0 same))
          (own_round o now r.first r.second r.third c log a b d k)
    | inr other ↦ other_round o now r.first r.second r.third c log a b d k r.origin other
  ]

  follow_all-Kept :
      (o : String) (now : ℕ) (rs : List Round) (s : Counter × List ℕ)
      → InOrder now rs
      → KeptBy o now s
      → (q : ℕ) → count_in w q (follow_all o rs s).1 ≤ n
  unfolding follow_all
  follow_all-Kept o now [] s h k q = k.limited q
  follow_all-Kept o now (r ∷ rs) s h k q =
      follow_all-Kept o r.third rs (follow o r s) h.3 (follow-Kept o now r s h.0 h.1 h.2 k) q

  -- Where windows have some length: whatever tasks run rounds of `acquire` on a new counter, for whatever origins and in whatever
  -- order, by a clock that does not go back: of the requests to one origin that are let through, no
  -- more than `tokens` lie in any window.
  pub rate_limit :
      (o : String) (rs : List Round) (q : ℕ)
      → InOrder 0 rs
      → count_in w q (follow_all o rs (init n w, [])).1 ≤ n
  unfolding count_in init
  rate_limit o rs q h =
      follow_all-Kept o 0 rs (init n w, []) h
        (record { tokens = refl; window = refl; known = unknown; limited = λ q. omega arith }) q
