-- ===== src/Redis/Order.antt =====
-- The order of a sorted set is a strict total order on members with scores.
use Prim.Native.Nat.{Ordering, compare as compare_ℕ}
use Prim.Native.Char.{code}
use Prim.Native.String.{String, compare, then}
use Prim.Native.String.compare
use text.Mathlib.Text.{is_lt}
use pub_crawler.Base.{◌≡◌, true, false, arith}

compare-cons :
    (c d : Prim.Native.Char.Char) (s t : String)
    → compare (String.◌∷◌ c s) (String.◌∷◌ d t) ≡ then (compare_ℕ (code c) (code d)) (compare s t)
compare-cons c d s t = λ i. compare.cons-cons c d s t i

compare-nil-cons :
    (d : Prim.Native.Char.Char) (t : String) → compare "" (String.◌∷◌ d t) ≡ Ordering.lt
compare-nil-cons d t = λ i. compare.nil-cons d t i

compare-cons-nil :
    (d : Prim.Native.Char.Char) (t : String) → compare (String.◌∷◌ d t) "" ≡ Ordering.gt
compare-cons-nil d t = λ i. compare.cons-nil d t i

pub lt_asymm : (s t : String) → is_lt (compare s t) ≡ true → is_lt (compare t s) ≡ false
lt_asymm String.[] String.[] h = ground arith
lt_asymm String.[] (String.◌∷◌ d t) h = ground (arith, compare-cons-nil d t)
lt_asymm (String.◌∷◌ c s) String.[] h = ground (arith, compare-cons-nil c s)
lt_asymm (String.◌∷◌ c s) (String.◌∷◌ d t) h =
    ground (arith, compare-cons c d s t, compare-cons d c t s, lt_asymm s t)

-- what does not come before the second, and the second not before the third
pub not-lt_trans :
    (s t u : String)
    → is_lt (compare t s) ≡ false
    → is_lt (compare u t) ≡ false
    → is_lt (compare u s) ≡ false
not-lt_trans String.[] t String.[] h k = ground arith
not-lt_trans String.[] t (String.◌∷◌ e u) h k = ground (arith, compare-cons-nil e u)
not-lt_trans (String.◌∷◌ c s) String.[] u h k = absurd (ground (arith, compare-nil-cons c s))
not-lt_trans (String.◌∷◌ c s) (String.◌∷◌ d t) String.[] h k =
    absurd (ground (arith, compare-nil-cons d t))
not-lt_trans (String.◌∷◌ c s) (String.◌∷◌ d t) (String.◌∷◌ e u) h k =
    ground
      (arith, compare-cons d c t s, compare-cons e d u t, compare-cons e c u s, not-lt_trans s t u)
