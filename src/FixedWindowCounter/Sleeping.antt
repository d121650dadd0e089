-- ===== src/FixedWindowCounter/Sleeping.antt =====
-- The counter while a task sleeps in `acquire`, and other tasks run rounds of it.
use pub_crawler.Base.{
  String, ℕ, zero, suc, ◌+◌, ◌-◌, ◌*◌, ◌/◌, ◌≤◌, ◌<◌, ◌≡◌, sym, ap, subst, ◌∙◌, true, false, some,
  List, [], ◌∷◌, str_eq, eq_iff, if◌then◌else◌, arith, ◌⊎◌, inl, inr, Bool-cases,
}
use pub_crawler.Base.Int.{ℤ, pos, ltb_ℤ}
use pub_crawler.Exec.{ok}
use pub_crawler.Exec.Fallible.{Result-cases}
use pub_crawler.FixedWindowCounter.{
  Counter, ensure_origin, acquire_round, assign, window_start, acquired, asleep,
}
use pub_crawler.FixedWindowCounter.Ensure.{filled, assign_self}
use pub_crawler.FixedWindowCounter.Log.{Round, follow, follow_all}
use pub_crawler.FixedWindowCounter.Rate.{round_zero, round_suc, Untouched, round_other}

-- how many of the rounds are for `o`
abbrev pub requests : String → List Round → ℕ
requests o [] = 0
requests o (r ∷ rs) = if str_eq r.origin o then suc (requests o rs) else requests o rs

module _ (o : String) (first : ℕ) (c : Counter) (l : ℤ) (e : c.last o ≡ some l) where
  ensure_past :
      ltb_ℤ l (pos (window_start c first)) ≡ true → ensure_origin o first c ≡ ok (filled o first c)
  unfolding ensure_origin
  ensure_past h = ground arith

  ensure_same : ltb_ℤ l (pos (window_start c first)) ≡ false → ensure_origin o first c ≡ ok c
  unfolding ensure_origin
  ensure_same h = ground arith

-- After `k` requests to an origin: it has its tokens less `k` left, or none, and then it is filled
-- at the time `wake`.
module _ (n w wake : ℕ) (o : String) where
  pub record Enough (k : ℕ) (c : Counter) : Type 0 where
    pub tokens : c.tokens ≡ n
    pub window : c.window_ms ≡ w
    pub last : ℤ
    pub left : ℕ
    pub last_is : c.last o ≡ some last
    pub left_is : c.bucket o ≡ some left
    pub enough : ((left ≡ 0) × (ltb_ℤ last (pos ((wake / w) * w)) ≡ true)) ⊎ (n ≤ left + k)

  Enough-more : (k : ℕ) (c : Counter) → Enough k c → Enough (suc k) c
  Enough-more k c g = record {
    tokens = g.tokens;
    window = g.window;
    last = g.last;
    left = g.left;
    last_is = g.last_is;
    left_is = g.left_is;
    enough = elim g.enough [ inl x ↦ inl x | inr x ↦ inr (omega arith) ];
  }

  untouched : (k : ℕ) (c c' : Counter) → Untouched o c c' → Enough k c → Enough k c'
  untouched k c c' u g = record {
    tokens = u.same_tokens ∙ g.tokens;
    window = u.same_window ∙ g.window;
    last = g.last;
    left = g.left;
    last_is = u.same_last ∙ g.last_is;
    left_is = u.same_bucket ∙ g.left_is;
    enough = g.enough;
  }

  took :
      (k b second : ℕ) (c : Counter)
      → c.tokens ≡ n
      → c.window_ms ≡ w
      → n ≤ suc b + k
      → Enough
          (suc k)
          (record c { bucket = assign o b c.bucket; last = assign o (pos second) c.last })
  took k b second c t m h = record {
    tokens = t;
    window = m;
    last = pos second;
    left = b;
    last_is = assign_self o (pos second) c.last;
    left_is = assign_self o b c.bucket;
    enough = inr (omega arith);
  }

  module _ (some_tokens : 0 < n) (k : ℕ) (r : Round) (c : Counter) (log : List ℕ)
      (g : Enough k c) where
    -- a round for the origin itself, by what `_ensure_origin` leaves in the bucket
    left_over :
        (c' : Counter) (b : ℕ)
        → ensure_origin o r.first c ≡ ok c'
        → Enough k c'
        → c'.bucket o ≡ some b
        → (b ≡ 0 ⊎ (n ≤ b + k))
        → Enough (suc k) (follow o (record r { origin = o }) (c, log)).0
    unfolding follow
    left_over c' zero e h f x =
        rw (round_zero o r.first r.second r.third c c' e f, follow) (Enough-more k c' h)
    left_over c' (suc b) e h f x =
        rw (round_suc o r.first r.second r.third c c' e b f, follow)
          (took k b r.second c' h.tokens h.window
            (elim x [ inl z ↦ absurd (ground arith) | inr y ↦ y ]))

    own : Enough (suc k) (follow o (record r { origin = o }) (c, log)).0
    own = elim (Bool-cases (ltb_ℤ g.last (pos (window_start c r.first)))) [
      | inl past ↦
          left_over (filled o r.first c) n (ensure_past o r.first c g.last g.last_is past) full
            full.left_is (inr (omega arith))
      | inr same ↦
          left_over c g.left (ensure_same o r.first c g.last g.last_is same) g g.left_is
            (elim g.enough [ inl x ↦ inl x.0 | inr x ↦ inr x ])
    ]
      where
        full : Enough k (filled o r.first c)
        full = record {
          tokens = g.tokens;
          window = g.window;
          last = g.last;
          left = n;
          last_is = g.last_is;
          left_is = assign_self o c.tokens c.bucket ∙ ap some g.tokens;
          enough = inr (omega arith);
        }

    other : str_eq r.origin o ≡ false → Enough k (follow o r (c, log)).0
    unfolding follow
    other h = elim (Result-cases (acquire_round r.origin r.first r.second r.third c)) [
      | inl ((acquired, c'), e) ↦
          rw (e, follow)
            (untouched k c c' (round_other r.origin o r.first r.second r.third c c' acquired h e) g)
      | inl ((asleep ms, c'), e) ↦
          rw (e, follow)
            (untouched k c c' (round_other r.origin o r.first r.second r.third c c' (asleep ms) h e)
              g)
      | inr (x, e) ↦ rw (e, follow) g
    ]

  pub follow_all-Enough :
      (k : ℕ) (rs : List Round) (s : Counter × List ℕ)
      → 0 < n
      → Enough k s.0
      → Enough (requests o rs + k) (follow_all o rs s).0
  unfolding follow_all
  follow_all-Enough k [] s t g = subst (λ m. Enough m (follow_all o [] s).0) (omega arith) g
  follow_all-Enough k (r ∷ rs) (c, log) t g = elim (Bool-cases (str_eq r.origin o)) [
    | inl same ↦ rw (same) (
        subst (λ m. Enough m (follow_all o rs (follow o r (c, log))).0) (omega arith)
          (follow_all-Enough (suc k) rs (follow o r (c, log)) t (
            subst (λ j. Enough (suc k) (follow o (record r { origin = j }) (c, log)).0)
              (sym ((eq_iff r.origin o).0 same)) (own t k r c log g))))
    | inr different ↦
        rw (different)
          (follow_all-Enough k rs (follow o r (c, log)) t (other t k r c log g different))
  ]

  -- at the time `wake` there is a token
  pub wake_up :
      (k : ℕ) (c : Counter)
      → k < n
      → Enough k c
      → (c' : Counter) × (b : ℕ) × (ensure_origin o wake c ≡ ok c') × (c'.bucket o ≡ some (suc b))
  unfolding window_start
  wake_up k c h g = elim (Bool-cases (ltb_ℤ g.last (pos (window_start c wake)))) [
    | inl past ↦ (
      filled o wake c,
      n - 1,
      ensure_past o wake c g.last g.last_is past,
      assign_self o c.tokens c.bucket ∙ ap some (omega (arith, g.tokens)),
    )
    | inr same ↦ (
      c,
      g.left - 1,
      ensure_same o wake c g.last g.last_is same,
      g.left_is
          ∙ ap some (elim g.enough [
            | inl x ↦
                absurd (cc (subst (λ m. ltb_ℤ g.last (pos ((wake / m) * m)) ≡ false) g.window same))
            | inr x ↦ omega arith
          ]),
    )
  ]
