-- ===== src/Tests/Counter.antt =====
-- pub_crawler/fixed_window_counter.py at concrete clocks.
use pub_crawler.Base.{String, ℕ, ◌≡◌, refl, List, [], ◌∷◌, ◌≤◌, ◌+◌, ◌*◌, arith, none}
use pub_crawler.Base.Int.{pos}
use pub_crawler.FixedWindowCounter.{Counter, assign, init, acquire_round, acquire, ensure_origin}
use pub_crawler.FixedWindowCounter.Log.{Round, follow, follow_all, count_in}
use pub_crawler.FixedWindowCounter.Ensure.{Kept, used}
use pub_crawler.FixedWindowCounter.Rate.{rate_limit}
use pub_crawler.FixedWindowCounter.Waiting.{Acquires, acquire_returns}

abbrev origin : String
origin = "https://a.example"

-- two requests are let through, and a third task finds no token
abbrev rounds : List Round
rounds =
    record { origin = origin; first = 1000; second = 1001; third = 1002 }
    ∷ record { origin = origin; first = 1003; second = 1004; third = 1005 }
    ∷ record { origin = origin; first = 1006; second = 1007; third = 1008 }
    ∷ []

let_through : (follow_all origin rounds (init 2 1000, [])).1 ≡ 1004 ∷ 1001 ∷ []
unfolding follow_all follow acquire_round ensure_origin init
let_through = refl

rate_limit_example : count_in 1000 1 (follow_all origin rounds (init 2 1000, [])).1 ≤ 2
rate_limit_example = rate_limit 2 1000 (omega arith) origin rounds 1 (
  omega arith,
  omega arith,
  omega arith,
  (omega arith, omega arith, omega arith, (omega arith, omega arith, omega arith, tt)),
)

abbrev clock : ℕ → ℕ
clock i = 1500 + i * 300

-- the counter after two requests, with no token left in their window
abbrev emptied : Counter
emptied = record {
  tokens = 2;
  window_ms = 1000;
  bucket = assign origin 0 (λ o. none);
  last = assign origin (pos 1490) (λ o. none);
}

emptied-Kept : Kept 2 1000 (omega arith) origin 1500 emptied (1490 ∷ 1480 ∷ [])
unfolding count_in
emptied-Kept = record {
  tokens = refl;
  window = refl;
  known =
      used {t = 1490} {b = 0} (omega arith) (omega arith, (omega arith, tt)) (λ q h. ground arith);
  limited = λ q. ground arith;
}

-- another task takes a token of the next window in the sleep
abbrev others : ℕ → List Round
others i = record { origin = origin; first = 2100; second = 2101; third = 2102 } ∷ []

acquire_returns_example : Acquires 2 origin clock others 0 emptied
acquire_returns_example =
    acquire_returns 2 1000 (omega arith) (omega arith) origin 1500 clock others 0 emptied
      (1490 ∷ 1480 ∷ []) emptied-Kept (omega arith) (omega arith) (omega arith)

-- the first round sleeps, so that one does not suffice
sleeps : acquire 1 origin clock (λ i c. (follow_all origin (others i) (c, [])).0) 0 emptied ≡ none
unfolding acquire ensure_origin
sleeps = refl
