-- ===== src/Nodeinfo.antt =====
-- pub_crawler/nodeinfo_client.py. The rate limiters, the HTTP client's stream of a response's chunks,
-- orjson on bytes, `urljoin`, `urlsplit` and the decimal digits of Unicode are arguments.
pub mod Bounds
pub mod Client
use Prim.Native.Char.{code}
use text.Mathlib.Text.{is_lt}
use Prim.Native.String.{compare}
use pub_crawler.Base.{
  String, ℕ, zero, suc, ◌+◌, ◌-◌, ◌*◌, ◌/◌, ◌%◌, ◌^◌, ◌++◌, Bool, true, false, not, ◌||◌, ◌&&◌,
  Option, none, some, ltb, ◌==◌, str_eq, length, if◌then◌else◌,
}
use pub_crawler.Base.Int.{ℤ, pos, negsuc, sub_ℕ}
use pub_crawler.Exec.{Result, ok, raised, value_error, type_error, Exec, pure, lift, ◌>>=◌, ◌>>◌}
use pub_crawler.Exec.Fallible
use pub_crawler.Json.{
  Value, Items, Dict, null, bool, int, float, str, list, dict, empty, get, put, items,
}
use pub_crawler.Job.{get_or}

abbrev pub max_response_bytes : ℕ
max_response_bytes = 128 * 1028

abbrev pub max_value : ℕ
max_value = 2 ^ 62

abbrev pub max_str_len : ℕ
max_str_len = 128

-- int() refuses longer texts
abbrev max_digits : ℕ
max_digits = 4300

unfoldable pub bounds_int : Option ℤ → Option ℤ
bounds_int none = none
bounds_int (some (negsuc n)) = none
bounds_int (some (pos n)) = if ltb max_value n then none else some (pos n)

-- `round(m / 2 ** k)`, for m ≥ 0: to the even number between two
unfoldable pub round_half_even : ℕ → ℕ → ℕ
round_half_even m k =
    let q = m / 2 ^ k in
    let r = 2 * (m % 2 ^ k) in if ltb r (2 ^ k) || ((r == 2 ^ k) && even q) then q else suc q
  where
    even : ℕ → Bool
    even n = n % 2 == 0

negative : ℕ → ℤ
negative n = sub_ℕ 0 n

unfoldable pub take_text : ℕ → String → String
take_text zero s = ""
take_text (suc n) String.[] = ""
take_text (suc n) (String.◌∷◌ c s) = String.◌∷◌ c (take_text n s)

unfoldable pub bounds_str : Option String → Option String
bounds_str none = none
bounds_str (some s) = some (take_text max_str_len s)

module _ (text_of : Value → String) where
  unfoldable pub coerce_str : Value → Option String
  coerce_str null = none
  coerce_str (str s) = some s
  coerce_str v = some (text_of v)

  unfoldable pub safe_str : Value → Option String
  safe_str v = bounds_str (coerce_str v)

module _ (decimal : ℕ → Option ℕ) where
  -- the number that a text of digits writes, and how many digits it has
  digits : ℕ → ℕ → String → Option (ℕ × ℕ)
  digits n count String.[] = some (n, count)
  digits n count (String.◌∷◌ c s) = elim (decimal (code c)) [
    | none ↦ none
    | some d ↦ digits (10 * n + d) (suc count) s
  ]

  -- a text of one digit or more, as `int` reads it
  unsigned : String → Result (Option ℕ)
  unfolding digits
  unsigned s = elim (digits 0 0 s) [
    | none ↦ ok none
    | some (n, count) ↦
        if count == 0
        then ok none
        else if ltb max_digits count
        then raised value_error
        else ok (some n)
  ]

  signed : (ℕ → ℤ) → Result (Option ℕ) → Result (Option ℤ)
  signed sign (raised e) = raised e
  signed sign (ok none) = ok none
  signed sign (ok (some n)) = ok (some (sign n))

  coerce_text : String → Result (Option ℤ)
  unfolding unsigned signed negative
  coerce_text String.[] = ok none
  coerce_text (String.◌∷◌ c s) =
      if code c == 45 then signed negative (unsigned s) else signed pos (unsigned (String.◌∷◌ c s))

  unfoldable pub coerce_int : Value → Result (Option ℤ)
  unfolding coerce_text negative
  coerce_int (int n) = ok (some n)
  coerce_int (float (pos m) k) = ok (some (pos (round_half_even m k)))
  coerce_int (float (negsuc m) k) = ok (some (negative (round_half_even (suc m) k)))
  coerce_int (str s) = coerce_text s
  coerce_int _ = ok none

  unfoldable pub safe_int : Value → Result (Option ℤ)
  safe_int v = elim (coerce_int v) [ raised e ↦ raised e | ok n ↦ ok (bounds_int n) ]
