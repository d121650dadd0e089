-- ===== src/Json.antt =====
-- Python's values as JSON gives them: job dictionaries, documents and the values of properties.
-- A dictionary is a list of entries in the order of insertion. A float is the number m / 2 ^ k,
-- which every finite double is.
pub mod Python
use pub_crawler.Base.{
  String, ℕ, ◌≡◌, refl, Bool, true, false, Option, none, some, List, [], ◌∷◌, arith, if◌then◌else◌,
  str_eq, eq_iff, is_some,
}
use pub_crawler.Base.Int.{ℤ, pos}

mutual
  pub data Value : Type 0 where
    null : Value
    bool : Bool → Value
    int : ℤ → Value
    float : ℤ → ℕ → Value
    str : String → Value
    list : Items → Value
    dict : Dict → Value

  pub data Items : Type 0 where
    nil : Items
    cons : Value → Items → Items

  pub data Dict : Type 0 where
    empty : Dict
    entry : String → Value → Dict → Dict

-- `d.get(k)`, with `none` for a missing key
unfoldable pub get : Dict → String → Option Value
get empty k = none
get (entry j v d) k = if str_eq j k then some v else get d k

-- `d[k] = v`
unfoldable pub put : Dict → String → Value → Dict
put empty k v = entry k v empty
put (entry j w d) k v = if str_eq j k then entry k v d else entry j w (put d k v)

abbrev pub has_key : Dict → String → Bool
has_key d k = is_some (get d k)

-- the values of a list, in order
unfoldable pub items : Items → List Value
items nil = []
items (cons v vs) = v ∷ items vs

unfoldable pub of_list : List Value → Items
of_list [] = nil
of_list (v ∷ vs) = cons v (of_list vs)

-- `isinstance(v, str)`, and so on: the value as that type
abbrev pub as_str : Value → Option String
as_str (str s) = some s
as_str _ = none

abbrev pub as_dict : Value → Option Dict
as_dict (dict d) = some d
as_dict _ = none

abbrev pub as_bool : Value → Option Bool
as_bool (bool b) = some b
as_bool _ = none

-- `bool` is a subclass of `int`
abbrev pub as_int : Value → Option ℤ
as_int (int n) = some n
as_int (bool true) = some (pos 1)
as_int (bool false) = some (pos 0)
as_int _ = none

pub get-put :
    (d : Dict) (k j : String) (v : Value)
    → get (put d k v) j ≡ (if str_eq k j then some v else get d j)
unfolding get put
get-put empty k j v = refl
get-put (entry i w d) k j v = ground (arith, eq_iff k j, eq_iff i k, eq_iff i j, get-put d k j v)
