-- ===== src/Dispatcher/Priority.antt =====
-- The order of the queue: by depth, and then by the job's type.
use Prim.Native.Nat.{compare as compare_ℕ}
use Prim.Native.Char.{Char, code}
use Prim.Native.String.{compare, then as lexical}
use Prim.Native.String.compare
use text.Mathlib.Text.{is_lt}
use text.Mathlib.TextLemmas.{nil-append, cons-append, append_assoc}
use pub_crawler.Base.{
  String, ℕ, zero, suc, ◌+◌, ◌/◌, ◌%◌, ◌≤◌, ◌<◌, ◌++◌, ◌*◌, ◌≡◌, if◌then◌else◌, refl, sym, subst,
  some, true, false, arith,
}
use native.Mathlib.Decide.{dec_lt}
use pub_crawler.Base.Text.{digit, format_02d, format_hex}
use pub_crawler.Exec.{ok}
use pub_crawler.Base.Int.{pos}
use pub_crawler.Json.{Value, int}
use pub_crawler.Job.{is_text}
use pub_crawler.Platform.{Platform}
use pub_crawler.Redis.{Redis, precedes}
use pub_crawler.Dispatcher.{Dispatcher}
use pub_crawler.Dispatcher.Methods.{view}
use pub_crawler.Dispatcher.Invariant.{Good}
use pub_crawler.Dispatcher.Runs.{Handed}
use pub_crawler.Dispatcher.Member.{type_code, clamp, member_text, iso_utc}
use pub_crawler.Dispatcher.Codec.{IsMemberOf, clamp-le}

compare-cons :
    (c d : Char) (s t : String)
    → compare (String.◌∷◌ c s) (String.◌∷◌ d t)
      ≡ lexical (compare_ℕ (code c) (code d)) (compare s t)
compare-cons c d s t = λ i. compare.cons-cons c d s t i

-- Texts with a common beginning compare as what follows it.
compare-append : (s t u : String) → compare (s ++ t) (s ++ u) ≡ compare t u
compare-append String.[] t u = rw (nil-append t, nil-append u)
compare-append (String.◌∷◌ c s) t u =
    rw (cons-append c s t, cons-append c s u)
      (ground (arith, compare-cons c c (s ++ t) (s ++ u), compare-append s t u))

abbrev lit : Char → Char
lit c = c

digit_head : (n : ℕ) → n < 10 → (c : Char) × (digit n ≡ String.◌∷◌ c "") × (code c ≡ 48 + n)
unfolding digit
digit_head zero h = (lit "0", refl, refl)
digit_head (suc zero) h = (lit "1", refl, refl)
digit_head (suc (suc zero)) h = (lit "2", refl, refl)
digit_head (suc (suc (suc zero))) h = (lit "3", refl, refl)
digit_head (suc (suc (suc (suc zero)))) h = (lit "4", refl, refl)
digit_head (suc (suc (suc (suc (suc zero))))) h = (lit "5", refl, refl)
digit_head (suc (suc (suc (suc (suc (suc zero)))))) h = (lit "6", refl, refl)
digit_head (suc (suc (suc (suc (suc (suc (suc zero))))))) h = (lit "7", refl, refl)
digit_head (suc (suc (suc (suc (suc (suc (suc (suc zero)))))))) h = (lit "8", refl, refl)
digit_head (suc (suc (suc (suc (suc (suc (suc (suc (suc zero))))))))) h = (lit "9", refl, refl)
digit_head (suc (suc (suc (suc (suc (suc (suc (suc (suc (suc n)))))))))) h = absurd (omega arith)

digit-lt :
    (m n : ℕ) (s t : String) → m < n → n < 10 → is_lt (compare (digit m ++ s) (digit n ++ t)) ≡ true
digit-lt m n s t h k =
    let (c, mc, mv) = digit_head m (omega arith) in
    let (d, nd, nv) = digit_head n k in
    rw (mc, nd, cons-append c "" s, cons-append d "" t)
      (ground (arith, compare-cons c d ("" ++ s) ("" ++ t)))

-- Two-digit numbers compare as they are written.
format_02d-lt :
    (m n : ℕ) (s t : String)
    → m < n
    → n ≤ 99
    → is_lt (compare (format_02d m ++ s) (format_02d n ++ t)) ≡ true
unfolding format_02d
format_02d-lt m n s t h k =
    rw
      (
        append_assoc (digit (m / 10)) (digit (m % 10)) s,
        append_assoc (digit (n / 10)) (digit (n % 10)) t,
      )
      (elim (dec_lt (m / 10) (n / 10)) [
        | yes l ↦ digit-lt (m / 10) (n / 10) _ _ l (omega arith)
        | no g ↦
            let e : m / 10 ≡ n / 10 = omega arith in
            rw (e, compare-append (digit (n / 10)) (digit (m % 10) ++ s) (digit (n % 10) ++ t))
              (digit-lt (m % 10) (n % 10) s t (omega arith) (omega arith))
      ])

type_code-le : (v : Value) (code : ℕ) → type_code v ≡ ok code → code ≤ 99
unfolding type_code
type_code-le v code h = ground arith

member_text-code-lt :
    (p : Platform) (d c c' k k' : ℕ) (ts ts' j j' : String)
    → c < c'
    → c' ≤ 99
    → is_lt (compare (member_text p d c k ts j) (member_text p d c' k' ts' j')) ≡ true
unfolding member_text
member_text-code-lt p d c c' k k' ts ts' j j' h l =
    rw
      (
        compare-append (format_02d d) (after c k ts j) (after c' k' ts' j'),
        compare-append "|" (rest c k ts j) (rest c' k' ts' j'),
      )
      (format_02d-lt c c' _ _ h l)
  where
    rest : ℕ → ℕ → String → String → String
    rest c k ts j = format_02d c ++ ("|" ++ (format_hex 8 k ++ ("|" ++ (ts ++ ("|" ++ j)))))

    after : ℕ → ℕ → String → String → String
    after c k ts j = "|" ++ rest c k ts j

module _ (p : Platform) {t u : ℕ} {a b : Value} {m n : String} where
  -- A member for a job of less depth is less.
  depth-lt :
      (x : IsMemberOf p t a m) (y : IsMemberOf p u b n)
      → x.depth < y.depth
      → is_lt (compare m n) ≡ true
  unfolding member_text
  depth-lt x y h =
      rw (x.written, y.written)
        (format_02d-lt x.depth y.depth _ _ h (clamp-le y.depth_value y.depth y.clamped))

  code-lt :
      (x : IsMemberOf p t a m) (y : IsMemberOf p u b n)
      → x.depth ≡ y.depth
      → x.code < y.code
      → is_lt (compare m n) ≡ true
  code-lt x y e h =
      rw (x.written, y.written)
        (subst (λ d. is_lt (compare (text_of x d) (text_of y y.depth)) ≡ true) (sym e)
          (member_text-code-lt p y.depth x.code y.code _ _ _ _ _ _ h
            (type_code-le y.type_value y.code y.coded)))
    where
      text_of : {v : ℕ} {c : Value} {k : String} → IsMemberOf p v c k → ℕ → String
      text_of {v} z d = member_text p d z.code (p.crc32 z.jid) (iso_utc p v) z.text

-- Between members with one score, the one that does not come later is of less or equal depth,
-- and at equal depth its type's code is less or equal.
module _ (p : Platform) {t u : ℕ} {a b : Value} {m n : String} where
  pub member_order :
      (x : IsMemberOf p t a m) (y : IsMemberOf p u b n)
      → is_lt (compare n m) ≡ false
      → (x.depth ≤ y.depth) × (x.depth ≡ y.depth → x.code ≤ y.code)
  member_order x y h = (
    elim (dec_lt y.depth x.depth) [ yes l ↦ absurd (cc (depth-lt p y x l)) | no g ↦ omega arith ],
    λ e. elim (dec_lt y.code x.code) [
      | yes l ↦ absurd (cc (code-lt p y x (sym e) l))
      | no g ↦ omega arith
    ],
  )

-- the types of jobs in the order in which they are wanted
abbrev pub place : Value → ℕ
place v =
    if is_text v "webfinger"
    then 0
    else if is_text v "actor"
    then 1
    else if is_text v "collection"
    then 2
    else if is_text v "page"
    then 3
    else 4

type_code-place : (v : Value) (code : ℕ) → type_code v ≡ ok code → code ≡ 10 * (place v + 1)
unfolding type_code
type_code-place v code h = ground arith

module _ (p : Platform) {t u : ℕ} {a b : Value} {m n : String} (x : IsMemberOf p t a m)
    (y : IsMemberOf p u b n) where
  place-le : x.code ≤ y.code → place x.type_value ≤ place y.type_value
  place-le h = omega (
    arith,
    type_code-place x.type_value x.code x.coded,
    type_code-place y.type_value y.code y.coded,
  )

  cut_off :
      x.depth ≤ y.depth
      → (i j : ℕ) → x.depth_value ≡ int (pos i)
      → y.depth_value ≡ int (pos j)
      → j < i
      → 99 ≤ j
  unfolding clamp
  cut_off h i j e f l =
      let c : clamp (int (pos i)) ≡ ok x.depth = subst (λ v. clamp v ≡ ok x.depth) e x.clamped in
      let d : clamp (int (pos j)) ≡ ok y.depth = subst (λ v. clamp v ≡ ok y.depth) f y.clamped in
      ground arith

-- Where the keys are well formed: with each depth cut off below 0 and above 99, whatever else is in
-- the queue is of no less depth than the job that `get` hands out, and, at the same depth, of no
-- earlier type in the order webfinger, actor, collection, page. So if both depths are natural
-- numbers and the other one is less, then it is 99 or more.
pub get_priority :
    (r : Redis) (p : Platform) (d : Dispatcher r) (now : ℕ)
    → Good r p d
    → (h : Handed r p d now) (n : String) (y : ℕ) → (view r p d).queue n ≡ some y
    → (x : IsMemberOf p h.time h.job h.member) (u : ℕ) (b : Value) (o : IsMemberOf p u b n)
    → (x.depth ≤ o.depth)
      × (x.depth ≡ o.depth → place x.type_value ≤ place o.type_value)
      × ((i j : ℕ) → x.depth_value ≡ int (pos i) → o.depth_value ≡ int (pos j) → j < i → 99 ≤ j)
get_priority r p d now w h n y queued x u b o =
    let (shallow, early) = member_order p x o (
      subst (λ z. precedes (n, z) (h.member, 0) ≡ false) (w.queued n y queued).zero_score
        (h.first n y queued)) in
    (shallow, λ e. place-le p x o (early e), cut_off p x o shallow)
