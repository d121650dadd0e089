-- ===== src/Base/Text.antt =====
-- Python's `str` operations that the program uses, over the native texts: searching and splitting
-- at a character, replacing, and the formats `:02d` and `:08x`.
use Prim.Native.Nat.{ℕ, zero, suc, ◌-◌, ◌/◌, ◌%◌, ◌<◌}
use Prim.Native.Char.{Char, code}
use Prim.Native.String.{String, ◌++◌, count}
use text.Mathlib.Text.{starts_with}
use text.Mathlib.TextLemmas.{nil-append, cons-append}
use mathlib.Core.Path.{◌≡◌, refl, sym, ap, ◌∙◌}
use mathlib.Core.Logic.{◌⊎◌, inl, inr}
use mathlib.Core.Bool.{Bool, false, ◌||◌}
use mathlib.Core.Option.{Option, none, some}
use mathlib.Core.Option
use mathlib.Core.List.{List, [], ◌∷◌}
use native.Mathlib.Omega.{arith}
use pub_crawler.Base.Tests.{Bool-cases, Option-cases, ◌==◌, if◌then◌else◌}

-- `chr(k) in s`
unfoldable pub has_char : ℕ → String → Bool
has_char k String.[] = false
has_char k (String.◌∷◌ c s) = (code c == k) || has_char k s

-- `s.partition(chr(k))`, none where the separator is missing
unfoldable pub split_once : ℕ → String → Option (String × String)
split_once k String.[] = none
split_once k (String.◌∷◌ c s) =
    if code c == k then some ("", s) else Option.map (λ p. (String.◌∷◌ c p.0, p.1)) (split_once k s)

-- `s.split(chr(k), n)`
unfoldable pub split : ℕ → ℕ → String → List String
split k zero s = s ∷ []
split k (suc n) s = elim (split_once k s) [ none ↦ s ∷ [] | some (a, b) ↦ a ∷ split k n b ]

-- `s.replace(old, new)`; `skip` counts the characters of a match still to be passed over.
unfoldable pub replace_from : ℕ → String → String → String → String
replace_from skip old new String.[] = ""
replace_from (suc skip) old new (String.◌∷◌ c s) = replace_from skip old new s
replace_from zero old new (String.◌∷◌ c s) =
    let found = new ++ replace_from (count old - 1) old new s in
    let other = String.◌∷◌ c (replace_from zero old new s) in
    if starts_with (String.◌∷◌ c s) old then found else other

pub has_char-append : (k : ℕ) (s t : String) → has_char k (s ++ t) ≡ (has_char k s || has_char k t)
unfolding has_char
has_char-append k String.[] t = rw nil-append
has_char-append k (String.◌∷◌ c s) t = rw cons-append (ground (arith, has_char-append k s t))

-- A text with no separator, then the separator: the split is there.
pub split_once-append :
    (k : ℕ) (c : Char) (s t : String)
    → code c ≡ k
    → has_char k s ≡ false
    → split_once k (s ++ String.◌∷◌ c t) ≡ some (s, t)
unfolding has_char split_once
split_once-append k c String.[] t e h = rw nil-append (ground arith)
split_once-append k c (String.◌∷◌ d s) t e h =
    rw cons-append (ground (arith, split_once-append k c s t e))

same_first :
    {x y a b : String} → ◌≡◌ {A = Option (String × String)} (some (x, y)) (some (a, b)) → x ≡ a
same_first h = cc

-- What stands before the first separator has none.
pub has_char-split_once :
    (k : ℕ) (s a b : String) → split_once k s ≡ some (a, b) → has_char k a ≡ false
unfolding has_char split_once
has_char-split_once k String.[] a b h = absurd (cc)
has_char-split_once k (String.◌∷◌ c s) a b h = elim (Bool-cases (code c == k)) [
  | inl here ↦ ap (has_char k) (sym (same_first (rw here at h)))
  | inr on ↦ elim (Option-cases (split_once k s)) [
    | inl absent ↦ absurd (cc (rw (on, absent) at h))
    | inr (parts, found) ↦
        ap (has_char k) (sym (same_first (rw (on, found) at h)))
        ∙ rw (on, has_char-split_once k s parts.0 parts.1 found) refl
  ]
]

-- The digits, one character each, up to the hexadecimal ones.
unfoldable pub digit : ℕ → String
digit zero = "0"
digit (suc zero) = "1"
digit (suc (suc zero)) = "2"
digit (suc (suc (suc zero))) = "3"
digit (suc (suc (suc (suc zero)))) = "4"
digit (suc (suc (suc (suc (suc zero))))) = "5"
digit (suc (suc (suc (suc (suc (suc zero)))))) = "6"
digit (suc (suc (suc (suc (suc (suc (suc zero))))))) = "7"
digit (suc (suc (suc (suc (suc (suc (suc (suc zero)))))))) = "8"
digit (suc (suc (suc (suc (suc (suc (suc (suc (suc zero))))))))) = "9"
digit (suc (suc (suc (suc (suc (suc (suc (suc (suc (suc zero)))))))))) = "a"
digit (suc (suc (suc (suc (suc (suc (suc (suc (suc (suc (suc zero))))))))))) = "b"
digit (suc (suc (suc (suc (suc (suc (suc (suc (suc (suc (suc (suc zero)))))))))))) = "c"
digit (suc (suc (suc (suc (suc (suc (suc (suc (suc (suc (suc (suc (suc zero))))))))))))) = "d"
digit (suc (suc (suc (suc (suc (suc (suc (suc (suc (suc (suc (suc (suc (suc zero)))))))))))))) = "e"
digit _ = "f"

-- `f"{n:02d}"` for n up to 99
unfoldable pub format_02d : ℕ → String
format_02d n = digit (n / 10) ++ digit (n % 10)

-- `f"{n:0wx}"` for n below 16 ^ w
unfoldable pub format_hex : ℕ → ℕ → String
format_hex zero n = ""
format_hex (suc w) n = format_hex w (n / 16) ++ digit (n % 16)

-- characters that are no hexadecimal digits
module _ (k : ℕ) (outside : ((57 < k) × (k < 97)) ⊎ (102 < k)) where
  pub has_char-digit : (n : ℕ) → has_char k (digit n) ≡ false
  unfolding digit has_char
  has_char-digit zero = ground arith
  has_char-digit (suc zero) = ground arith
  has_char-digit (suc (suc zero)) = ground arith
  has_char-digit (suc (suc (suc zero))) = ground arith
  has_char-digit (suc (suc (suc (suc zero)))) = ground arith
  has_char-digit (suc (suc (suc (suc (suc zero))))) = ground arith
  has_char-digit (suc (suc (suc (suc (suc (suc zero)))))) = ground arith
  has_char-digit (suc (suc (suc (suc (suc (suc (suc zero))))))) = ground arith
  has_char-digit (suc (suc (suc (suc (suc (suc (suc (suc zero)))))))) = ground arith
  has_char-digit (suc (suc (suc (suc (suc (suc (suc (suc (suc zero))))))))) = ground arith
  has_char-digit (suc (suc (suc (suc (suc (suc (suc (suc (suc (suc zero)))))))))) = ground arith
  has_char-digit (suc (suc (suc (suc (suc (suc (suc (suc (suc (suc (suc zero))))))))))) =
      ground arith
  has_char-digit (suc (suc (suc (suc (suc (suc (suc (suc (suc (suc (suc (suc zero)))))))))))) =
      ground arith
  has_char-digit
        (suc (suc (suc (suc (suc (suc (suc (suc (suc (suc (suc (suc (suc zero))))))))))))) =
      ground arith
  has_char-digit
        (suc (suc (suc (suc (suc (suc (suc (suc (suc (suc (suc (suc (suc (suc zero)))))))))))))) =
      ground arith
  has_char-digit
        (suc
          (suc (suc (suc (suc (suc (suc (suc (suc (suc (suc (suc (suc (suc (suc n))))))))))))))) =
      ground arith

  pub has_char-format_02d : (n : ℕ) → has_char k (format_02d n) ≡ false
  unfolding format_02d
  has_char-format_02d n =
      rw has_char-append (ground (arith, has_char-digit (n / 10), has_char-digit (n % 10)))

  pub has_char-format_hex : (w n : ℕ) → has_char k (format_hex w n) ≡ false
  unfolding format_hex has_char
  has_char-format_hex zero n = refl
  has_char-format_hex (suc w) n =
      rw has_char-append (ground (arith, has_char-format_hex w (n / 16), has_char-digit (n % 16)))

-- A separator that does not stand in the new text is put nowhere.
pub has_char-replace_from :
    (k skip : ℕ) (old new s : String)
    → has_char k new ≡ false
    → has_char k s ≡ false
    → has_char k (replace_from skip old new s) ≡ false
unfolding has_char replace_from
has_char-replace_from k skip old new String.[] n h = refl
has_char-replace_from k (suc skip) old new (String.◌∷◌ c s) n h =
    has_char-replace_from k skip old new s n (ground arith)
has_char-replace_from k zero old new (String.◌∷◌ c s) n h = ground (
  arith,
  has_char-append k new (replace_from (count old - 1) old new s),
  has_char-replace_from k (count old - 1) old new s n,
  has_char-replace_from k zero old new s n,
)

-- A field with no separator, the separator and a rest: the split goes on in the rest.
pub split-field :
    (n : ℕ) (c : Char) (s t : String)
    → has_char (code c) s ≡ false
    → split (code c) (suc n) (s ++ (String.◌∷◌ c "" ++ t)) ≡ s ∷ split (code c) n t
unfolding split
split-field n c s t h =
    rw (cons-append c "" t, nil-append t, split_once-append (code c) c s t refl h, split) refl
