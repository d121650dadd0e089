-- ===== src/Platform/Plain.antt =====
-- A plain platform: what is assumed of the libraries can be met. A value is written in prefix form,
-- behind a number of steps that suffices to read it back.
use mathlib.Core.Option
use Prim.Native.Nat.{max}
use Prim.Native.Char.{code}
use pub_crawler.Base.{
  String, ℕ, zero, suc, ◌≡◌, refl, true, false, Option, none, some, ◌==◌, ◌≤◌, arith, if◌then◌else◌,
}
use pub_crawler.Base.Int.{pos, negsuc}
use pub_crawler.Base.Text.{has_char}
use pub_crawler.Exec.{Result, ok, raised, value_error}
use pub_crawler.Exec.Fallible.{ok_injective}
use native.Mathlib.Nat.{le_refl}
use pub_crawler.Json.{
  Value, Items, Dict, null, bool, int, float, str, list, dict, nil, cons, empty, entry, get,
}
use pub_crawler.Platform.{Platform}

abbrev Text : Type 0
Text = String

put_nat : ℕ → Text → Text
put_nat zero r = String.◌∷◌ "0" r
put_nat (suc n) r = String.◌∷◌ "1" (put_nat n r)

get_nat : Text → Option.Option (ℕ × Text)
get_nat String.[] = none
get_nat (String.◌∷◌ c s) =
    if code c == b'0' then some (0, s) else Option.map (λ e. (suc e.0, e.1)) (get_nat s)

get_nat-put_nat : (n : ℕ) (r : Text) → get_nat (put_nat n r) ≡ some (n, r)
unfolding get_nat put_nat
get_nat-put_nat zero r = refl
get_nat-put_nat (suc n) r = rw (get_nat-put_nat n r)

put_str : String → Text → Text
put_str String.[] r = String.◌∷◌ "." r
put_str (String.◌∷◌ c s) r = String.◌∷◌ "+" (String.◌∷◌ c (put_str s r))

get_str : Text → Option.Option (String × Text)
get_str String.[] = none
get_str (String.◌∷◌ c String.[]) = some ("", "")
get_str (String.◌∷◌ c (String.◌∷◌ d s)) =
    if code c == b'+'
    then Option.map (λ e. (String.◌∷◌ d e.0, e.1)) (get_str s)
    else some ("", String.◌∷◌ d s)

get_str-put_str : (s : String) (r : Text) → get_str (put_str s r) ≡ some (s, r)
unfolding get_str put_str
get_str-put_str String.[] String.[] = refl
get_str-put_str String.[] (String.◌∷◌ d r) = refl
get_str-put_str (String.◌∷◌ c s) r = rw (get_str-put_str s r)

mutual
  size : Value → ℕ
  size (list vs) = suc (size_items vs)
  size (dict d) = suc (size_dict d)
  size _ = 1

  size_items : Items → ℕ
  size_items nil = 1
  size_items (cons v vs) = suc (max (size v) (size_items vs))

  size_dict : Dict → ℕ
  size_dict empty = 1
  size_dict (entry k v d) = suc (max (size v) (size_dict d))

mutual
  put : Value → Text → Text
  put null r = String.◌∷◌ "n" r
  put (bool true) r = String.◌∷◌ "t" r
  put (bool false) r = String.◌∷◌ "f" r
  put (int (pos n)) r = String.◌∷◌ "p" (put_nat n r)
  put (int (negsuc n)) r = String.◌∷◌ "m" (put_nat n r)
  put (float (pos n) k) r = String.◌∷◌ "P" (put_nat n (put_nat k r))
  put (float (negsuc n) k) r = String.◌∷◌ "M" (put_nat n (put_nat k r))
  put (str s) r = String.◌∷◌ "s" (put_str s r)
  put (list vs) r = String.◌∷◌ "l" (put_items vs r)
  put (dict d) r = String.◌∷◌ "d" (put_dict d r)

  put_items : Items → Text → Text
  put_items nil r = String.◌∷◌ ";" r
  put_items (cons v vs) r = String.◌∷◌ "," (put v (put_items vs r))

  put_dict : Dict → Text → Text
  put_dict empty r = String.◌∷◌ ";" r
  put_dict (entry k v d) r = String.◌∷◌ "," (put_str k (put v (put_dict d r)))

infixl 5 ◌>>=◌
abbrev ◌>>=◌ : {A B : Type 0} → Option.Option A → (A → Option.Option B) → Option.Option B
none >>= f = none
some a >>= f = f a

mutual
  read : ℕ → Text → Option.Option (Value × Text)
  read zero s = none
  read (suc f) String.[] = none
  read (suc f) (String.◌∷◌ c s) =
      let items = read_items f s in
      let fields = read_dict f s in
      if code c == b'n'
      then some (null, s)
      else if code c == b't'
      then some (bool true, s)
      else if code c == b'f'
      then some (bool false, s)
      else if code c == b'p'
      then (do (n, r) ← get_nat s; some (int (pos n), r))
      else if code c == b'm'
      then (do (n, r) ← get_nat s; some (int (negsuc n), r))
      else if code c == b'P'
      then (do (n, r) ← get_nat s; (k, r) ← get_nat r; some (float (pos n) k, r))
      else if code c == b'M'
      then (do (n, r) ← get_nat s; (k, r) ← get_nat r; some (float (negsuc n) k, r))
      else if code c == b's'
      then (do (t, r) ← get_str s; some (str t, r))
      else if code c == b'l'
      then (do (vs, r) ← items; some (list vs, r))
      else (do (d, r) ← fields; some (dict d, r))

  read_items : ℕ → Text → Option.Option (Items × Text)
  read_items zero s = none
  read_items (suc f) String.[] = none
  read_items (suc f) (String.◌∷◌ c s) =
      let more = (do (v, r) ← read f s; (vs, r) ← read_items f r; some (cons v vs, r)) in
      if code c == b';' then some (nil, s) else more

  read_dict : ℕ → Text → Option.Option (Dict × Text)
  read_dict zero s = none
  read_dict (suc f) String.[] = none
  read_dict (suc f) (String.◌∷◌ c s) =
      let more = (do
        (k, r) ← get_str s
        (v, r) ← read f r
        (d, r) ← read_dict f r
        some (entry k v d, r)) in
      if code c == b';' then some (empty, s) else more

size_pos : (v : Value) → 1 ≤ size v
unfolding size
size_pos null = omega arith
size_pos (list vs) = omega arith
size_pos (dict d) = omega arith
size_pos _ = omega arith

size_items_pos : (vs : Items) → 1 ≤ size_items vs
unfolding size
size_items_pos nil = omega arith
size_items_pos (cons v vs) = omega arith

size_dict_pos : (d : Dict) → 1 ≤ size_dict d
unfolding size
size_dict_pos empty = omega arith
size_dict_pos (entry k v d) = omega arith

mutual
  unfolding size put read

  read-put : (v : Value) (f : ℕ) (r : Text) → size v ≤ f → read f (put v r) ≡ some (v, r)
  read-put null (suc f) r h = refl
  read-put (bool true) (suc f) r h = refl
  read-put (bool false) (suc f) r h = refl
  read-put (int (pos n)) (suc f) r h = rw (get_nat-put_nat n r)
  read-put (int (negsuc n)) (suc f) r h = rw (get_nat-put_nat n r)
  read-put (float (pos n) k) (suc f) r h = rw (get_nat-put_nat n (put_nat k r), get_nat-put_nat k r)
  read-put (float (negsuc n) k) (suc f) r h =
      rw (get_nat-put_nat n (put_nat k r), get_nat-put_nat k r)
  read-put (str s) (suc f) r h = rw (get_str-put_str s r)
  read-put (list vs) (suc f) r h = rw (read_items-put vs f r (omega arith))
  read-put (dict d) (suc f) r h = rw (read_dict-put d f r (omega arith))
  read-put v zero r h = absurd (omega (arith, size_pos v))

  read_items-put :
      (vs : Items) (f : ℕ) (r : Text)
      → size_items vs ≤ f
      → read_items f (put_items vs r) ≡ some (vs, r)
  read_items-put nil (suc f) r h = refl
  read_items-put (cons v vs) (suc f) r h =
      rw (read-put v f (put_items vs r) (omega arith), read_items-put vs f r (omega arith))
  read_items-put vs zero r h = absurd (omega (arith, size_items_pos vs))

  read_dict-put :
      (d : Dict) (f : ℕ) (r : Text) → size_dict d ≤ f → read_dict f (put_dict d r) ≡ some (d, r)
  read_dict-put empty (suc f) r h = refl
  read_dict-put (entry k v d) (suc f) r h = rw (
    get_str-put_str k (put v (put_dict d r)),
    read-put v f (put_dict d r) (omega arith),
    read_dict-put d f r (omega arith),
  )
  read_dict-put d zero r h = absurd (omega (arith, size_dict_pos d))

dumps : Value → Result String
dumps v = ok (put_nat (size v) (put v ""))

abbrev value_or_error : Option.Option (Value × Text) → Result Value
value_or_error none = raised value_error
value_or_error (some (v, r)) = ok v

loads : String → Result Value
loads s = value_or_error (do (f, r) ← get_nat s; read f r)

loads-dumps : (v : Value) (s : String) → dumps v ≡ ok s → loads s ≡ ok v
unfolding dumps loads
loads-dumps v s h = rw (
  ← ok_injective h,
  get_nat-put_nat (size v) (put v ""),
  read-put v (size v) "" (le_refl (size v)),
)

map-identity : {A : Type 0} (o : Option.Option A) → o ≡ Option.map (λ a. a) o
map-identity none = refl
map-identity (some a) = refl

no_bar : has_char b'|' "1970-01-01T00:00:00.000000+00:00" ≡ false
unfolding has_char
no_bar = refl

pub plain : Platform
plain = record {
  text_of = λ v. "?";
  dumps = dumps;
  loads = loads;
  sorted = λ v. v;
  sorted_dict = λ d. d;
  loads-dumps = loads-dumps;
  dumps-sorted = λ v. refl;
  sorted-str = λ s. refl;
  sorted-int = λ n. refl;
  sorted-dict = λ d. refl;
  get-sorted_dict = λ d k. map-identity (get d k);
  dumps_unsorted = dumps;
  loads-dumps_unsorted = loads-dumps;
  crc32 = λ s. 0;
  blake2b = λ s. s;
  isoformat = λ ms. "1970-01-01T00:00:00.000000+00:00";
  isoformat_no_bar = λ ms. no_bar;
}

-- every value can be written
pub plain_dumps : (v : Value) → (s : String) × (plain.dumps v ≡ ok s)
unfolding plain dumps
plain_dumps v = (put_nat (size v) (put v ""), refl)

-- the identity is its own hash
pub plain_blake2b : (s : String) → plain.blake2b s ≡ s
unfolding plain
plain_blake2b s = refl

pub plain_dumps_unsorted : (v : Value) → (s : String) × (plain.dumps_unsorted v ≡ ok s)
unfolding plain dumps
plain_dumps_unsorted v = (put_nat (size v) (put v ""), refl)

pub plain_sorted : (v : Value) → plain.sorted v ≡ v
unfolding plain
plain_sorted v = refl

pub plain_isoformat : (ms : ℕ) → plain.isoformat ms ≡ "1970-01-01T00:00:00.000000+00:00"
unfolding plain
plain_isoformat ms = refl
