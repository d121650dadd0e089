-- ===== src/Json/Python.antt =====
-- What Python's operators do with the values of documents and jobs, which may be of any type.
use text.Mathlib.Text.{starts_with}
use pub_crawler.Base.{
  String, ℕ, zero, suc, ◌+◌, ◌*◌, ◌^◌, Bool, true, false, not, ◌||◌, List, [], ◌∷◌, ltb, ◌==◌,
  str_eq, if◌then◌else◌,
}
use pub_crawler.Base.Int.{ℤ, pos, negsuc, ◌+ℤ◌, ltb_ℤ}
use pub_crawler.Exec.{Result, ok, raised, type_error, other}
use pub_crawler.Json.{
  Value, Items, Dict, null, bool, int, float, str, list, dict, nil, cons, empty, entry, items,
  has_key,
}

-- `if v:`
unfoldable pub truthy : Value → Bool
truthy null = false
truthy (bool b) = b
truthy (int (pos n)) = ltb 0 n
truthy (int (negsuc n)) = true
truthy (float (pos n) k) = ltb 0 n
truthy (float (negsuc n) k) = true
truthy (str s) = not (str_eq s "")
truthy (list nil) = false
truthy (list (cons v vs)) = true
truthy (dict empty) = false
truthy (dict (entry k v d)) = true

-- `s in t` for texts
unfoldable pub within : String → String → Bool
within s String.[] = str_eq s ""
within s (String.◌∷◌ c t) = starts_with (String.◌∷◌ c t) s || within s t

unfoldable pub has_item : String → Items → Bool
has_item k nil = false
has_item k (cons (str s) vs) = str_eq s k || has_item k vs
has_item k (cons v vs) = has_item k vs

-- `k in v`
unfoldable pub contains_key : Value → String → Result Bool
contains_key (dict d) k = ok (has_key d k)
contains_key (list vs) k = ok (has_item k vs)
contains_key (str s) k = ok (within k s)
contains_key _ k = raised type_error

keys : Dict → List Value
keys empty = []
keys (entry k v d) = str k ∷ keys d

characters : String → List Value
characters String.[] = []
characters (String.◌∷◌ c s) = str (String.◌∷◌ c "") ∷ characters s

-- `for x in v`
unfoldable pub iterate : Value → Result (List Value)
unfolding keys characters
iterate (list vs) = ok (items vs)
iterate (dict d) = ok (keys d)
iterate (str s) = ok (characters s)
iterate _ = raised type_error

-- `v + 1`; of a float, without rounding
unfoldable pub add_one : Value → Result Value
add_one (int n) = ok (int (n +ℤ pos 1))
add_one (bool b) = ok (int (if b then pos 2 else pos 1))
add_one (float m k) = ok (float (m +ℤ pos (2 ^ k)) k)
add_one _ = raised type_error

times : ℤ → ℕ → ℤ
times (pos n) m = pos (n * m)
times (negsuc n) zero = pos 0
times (negsuc n) (suc m) = negsuc (n * suc m + m)

-- `v < n`
unfoldable pub less_than : Value → ℤ → Result Bool
unfolding times
less_than (int m) n = ok (ltb_ℤ m n)
less_than (bool b) n = ok (ltb_ℤ (if b then pos 1 else pos 0) n)
less_than (float m k) n = ok (ltb_ℤ m (times n (2 ^ k)))
less_than _ n = raised type_error

-- `v == 0`
unfoldable pub is_zero : Value → Bool
is_zero (int (pos n)) = n == 0
is_zero (bool b) = not b
is_zero (float (pos n) k) = n == 0
is_zero _ = false

-- a value as a label: asyncpg takes texts, the caches take what can be hashed
unfoldable pub as_label : Value → Result String
as_label (str s) = ok s
as_label (list vs) = raised type_error
as_label (dict d) = raised type_error
as_label v = raised (other "DataError")
