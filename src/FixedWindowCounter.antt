-- ===== src/FixedWindowCounter.antt =====
-- pub_crawler/fixed_window_counter.py: so many requests to an origin in each window of time.
-- Times are whole milliseconds; each reading of the clock is an argument of its own.
pub mod Windows
pub mod Log
pub mod Ensure
pub mod Rate
pub mod Sleeping
pub mod Waiting
use pub_crawler.Base.{
  String, ℕ, zero, suc, ◌+◌, ◌-◌, ◌*◌, ◌/◌, Bool, Option, none, some, ltb, if◌then◌else◌, str_eq,
  is_some, not,
}
use pub_crawler.Base.Int.{ℤ, pos, negsuc, sub_ℕ, ltb_ℤ}
use pub_crawler.Exec.{Result, ok, raised, key_error}

pub record Counter : Type 0 where
  pub tokens : ℕ
  pub window_ms : ℕ
  pub bucket : String → Option ℕ
  pub last : String → Option ℤ

unfoldable pub init : ℕ → ℕ → Counter
init tokens window_ms = record {
  tokens = tokens;
  window_ms = window_ms;
  bucket = λ o. none;
  last = λ o. none;
}

-- `d[k] = v`
abbrev pub assign : {A : Type 0} → String → A → (String → Option A) → String → Option A
assign k v d j = if str_eq k j then some v else d j

unfoldable pub window_start : Counter → ℕ → ℕ
window_start c now = (now / c.window_ms) * c.window_ms

unfoldable pub window_end : Counter → ℕ → ℕ
unfolding window_start
window_end c now = window_start c now + c.window_ms

add_origin : String → Counter → Counter
add_origin origin c =
    if is_some (c.last origin) then c else record c { last = assign origin (negsuc 0) c.last }

refill : String → ℤ → ℕ → Counter → Counter
refill origin last start c =
    if ltb_ℤ last (pos start) then record c { bucket = assign origin c.tokens c.bucket } else c

unfoldable pub ensure_origin : String → ℕ → Counter → Result Counter
unfolding add_origin refill window_start
ensure_origin origin now c =
    let c = add_origin origin c in
    elim (c.last origin) [
      | none ↦ raised (key_error origin)
      | some last ↦ ok (refill origin last (window_start c now) c)
    ]

pub data Outcome : Type 0 where
  acquired : Outcome
  -- `_sleep_till_window_reset`: the milliseconds to sleep for, which may be no time at all
  asleep : ℤ → Outcome

take_token : String → ℕ → ℕ → ℕ → Counter → Result (Outcome × Counter)
take_token origin second third zero c = ok (asleep (sub_ℕ (window_end c second) third), c)
take_token origin second third (suc b) c = ok (
  acquired,
  record c { bucket = assign origin b c.bucket; last = assign origin (pos second) c.last },
)

check_bucket : String → ℕ → ℕ → Counter → Result (Outcome × Counter)
unfolding take_token
check_bucket origin second third c = elim (c.bucket origin) [
  | none ↦ raised (key_error origin)
  | some b ↦ take_token origin second third b c
]

-- One round of the loop of `acquire`, with the clock's three readings in it.
unfoldable pub acquire_round : String → ℕ → ℕ → ℕ → Counter → Result (Outcome × Counter)
unfolding check_bucket
acquire_round origin first second third c = elim (ensure_origin origin first c) [
  | raised e ↦ raised e
  | ok c ↦ check_bucket origin second third c
]

-- The loop, on fuel; `clock i` is the clock's reading number i, and `others i` is what other tasks
-- do to the counter in the sleep of the round that begins with reading number i. Gives the number of
-- readings used, with the state; none stands for fuel that ran out.
unfoldable pub acquire :
    ℕ → String → (ℕ → ℕ) → (ℕ → Counter → Counter) → ℕ → Counter → Option (Result (ℕ × Counter))
unfolding acquire_round
acquire zero origin clock others i c = none
acquire (suc fuel) origin clock others i c =
    elim (acquire_round origin (clock i) (clock (i + 1)) (clock (i + 2)) c) [
      | raised e ↦ some (raised e)
      | ok (acquired, c) ↦ some (ok (i + 2, c))
      | ok (asleep ms, c) ↦ acquire fuel origin clock others (i + 3) (others i c)
    ]

available : String → ℕ → Counter → Result (ℕ × Counter)
available origin second c = elim (c.bucket origin) [
  | none ↦ raised (key_error origin)
  | some b ↦ ok (if ltb 0 b then second else window_end c second, c)
]

-- When the next token is there; like `acquire` it may fill the bucket.
unfoldable pub next_available : String → ℕ → ℕ → Counter → Result (ℕ × Counter)
unfolding available window_end
next_available origin first second c = elim (ensure_origin origin first c) [
  | raised e ↦ raised e
  | ok c ↦ available origin second c
]
