-- ===== src/FixedWindowCounter/Waiting.antt =====
-- `acquire` ends: when a task finds no token, the sleep till the window's end suffices, unless others take all the
-- tokens first.
use pub_crawler.Base.{
  String, ℕ, zero, suc, ◌+◌, ◌*◌, ◌/◌, ◌≤◌, ◌<◌, ◌≡◌, refl, ap, ◌∙◌, true, Option, some, List, [],
  arith, inl,
}
use pub_crawler.Base.Int.{ℤ, pos, ltb_ℤ}
use pub_crawler.Exec.{ok}
use pub_crawler.FixedWindowCounter.{
  Counter, ensure_origin, acquire, acquire_round, acquired, assign,
}
use pub_crawler.FixedWindowCounter.Windows.{lt-start_of_end-le}
use pub_crawler.FixedWindowCounter.Ensure.{Known, unused, used, Kept, Ready, ready}
use pub_crawler.FixedWindowCounter.Log.{Round, follow_all}
use pub_crawler.FixedWindowCounter.Sleeping.{requests, Enough, follow_all-Enough, wake_up}
use pub_crawler.FixedWindowCounter.Rate.{round_zero, round_suc}

-- what other tasks do in a sleep, by their rounds
abbrev pub meanwhile : String → (ℕ → List Round) → ℕ → Counter → Counter
meanwhile o others i c = (follow_all o (others i) (c, [])).0

-- The loop ends within the fuel, and its last round, which begins with reading number `j`, takes a
-- token.
abbrev pub Acquires : ℕ → String → (ℕ → ℕ) → (ℕ → List Round) → ℕ → Counter → Type 0
Acquires fuel o clock others i c =
    (j : ℕ) × (d : Counter) × (c' : Counter) × (acquire fuel o clock (meanwhile o others) i c
      ≡ some (ok (j + 2, c')))
    × (acquire_round o (clock j) (clock (j + 1)) (clock (j + 2)) d ≡ ok (acquired, c'))

module _ (n w : ℕ) (positive : 0 < w) (some_tokens : 0 < n) where
  module _ (o : String) (clock : ℕ → ℕ) (others : ℕ → List Round) (i : ℕ) (c c' : Counter)
      (e : ensure_origin o (clock i) c ≡ ok c') where
    at_once : (fuel m : ℕ) → c'.bucket o ≡ some (suc m) → Acquires (suc fuel) o clock others i c
    unfolding acquire
    at_once fuel m b = (
      i,
      c,
      record c' { bucket = assign o m c'.bucket; last = assign o (pos (clock (i + 1))) c'.last },
      rw (round_suc o (clock i) (clock (i + 1)) (clock (i + 2)) c c' e m b, acquire),
      round_suc o (clock i) (clock (i + 1)) (clock (i + 2)) c c' e m b,
    )

    after_sleep :
        (fuel : ℕ)
        → c'.bucket o ≡ some 0
        → Acquires fuel o clock others (i + 3) (meanwhile o others i c')
        → Acquires (suc fuel) o clock others i c
    unfolding acquire
    after_sleep fuel b (j, d, f, h, taken) = (
      j,
      d,
      f,
      rw (round_zero o (clock i) (clock (i + 1)) (clock (i + 2)) c c' e b, acquire) h,
      taken,
    )

  -- what a round leaves that finds no token
  spent :
      (o : String) (first wake : ℕ) (c : Counter) (l : ℤ) (b : Option ℕ) (log : List ℕ)
      → (first / w) * w + w ≤ wake
      → c.tokens ≡ n
      → c.window_ms ≡ w
      → c.last o ≡ some l
      → c.bucket o ≡ some 0
      → Known n w positive first (some l) b log
      → Enough n w wake o 0 c
  spent o first wake c l b log h t m e f known = record {
    tokens = t;
    window = m;
    last = l;
    left = 0;
    last_is = e;
    left_is = f;
    enough = inl (refl, past l b log known);
  }
    where
      past :
          (l : ℤ) (b : Option ℕ) (log : List ℕ)
          → Known n w positive first (some l) b log
          → ltb_ℤ l (pos ((wake / w) * w)) ≡ true
      past l b log unused = ground arith
      past l b log (used {t = s} until before room) =
          ground (arith, lt-start_of_end-le s first wake w positive until h)

  -- Where there are tokens and windows of some length: if the entries of an origin are kept as in
  -- every run, the clock does not go back before the call, a sleep that the first round may make
  -- lasts till the end of the window, and in this sleep other tasks run any rounds of `acquire`, of
  -- which fewer than `tokens` are for the same origin, then `acquire` returns within two rounds of
  -- its loop, and the last of them takes a token.
  pub acquire_returns :
      (o : String) (now : ℕ) (clock : ℕ → ℕ) (others : ℕ → List Round) (i : ℕ) (c : Counter)
      (log : List ℕ)
      → Kept n w positive o now c log
      → now ≤ clock i
      → (clock i / w) * w + w ≤ clock (i + 3)
      → requests o (others i) < n
      → Acquires 2 o clock others i c
  acquire_returns o now clock others i c log k h slept few =
      let (c', e, r) = ready n w positive o now (clock i) c log h k in by_left c' e r r.left refl
    where
      by_left :
          (c' : Counter)
          → ensure_origin o (clock i) c ≡ ok c'
          → (r : Ready n w positive o (clock i) c' log) → (m : ℕ) → r.left ≡ m
          → Acquires 2 o clock others i c
      by_left c' e r (suc m) z = at_once o clock others i c c' e 1 m (r.left_is ∙ ap some z)
      by_left c' e r zero z =
          let empty = r.left_is ∙ ap some z in
          let asleep =
            spent o (clock i) (clock (i + 3)) c' r.last (some r.left) log slept r.tokens r.window
              r.last_is empty (r.known z) in
          let (d, b, f, token) =
            wake_up n w (clock (i + 3)) o (requests o (others i) + 0) (meanwhile o others i c')
              (omega arith)
              (follow_all-Enough n w (clock (i + 3)) o 0 (others i) (c', []) some_tokens asleep) in
          after_sleep o clock others i c c' e 1 empty
            (at_once o clock others (i + 3) (meanwhile o others i c') d f 0 b token)
