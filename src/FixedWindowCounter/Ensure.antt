-- ===== src/FixedWindowCounter/Ensure.antt =====
-- The invariant of one origin's entries, and what `_ensure_origin` makes of it.
use pub_crawler.Base.{
  String, ℕ, ◌+◌, ◌*◌, ◌/◌, ◌≤◌, ◌<◌, ◌≡◌, refl, ap, subst, ◌∙◌, false, Option, none, some, List,
  [], str_eq, eq_iff, arith, All, All-map,
}
use native.Mathlib.Decide.{dec_lt}
use pub_crawler.Base.Int.{ℤ, pos, negsuc}
use pub_crawler.Exec.{ok}
use pub_crawler.FixedWindowCounter.{Counter, ensure_origin, assign, window_start}
use pub_crawler.FixedWindowCounter.Log.{count_in, count_in-zero, div_mono}
use pub_crawler.FixedWindowCounter.Windows.{div-lt_of_lt-mul}

-- What `_ensure_origin` does, by the last request.
module _ (o : String) (first : ℕ) (c : Counter) where
  abbrev pub filled : Counter
  filled = record c { bucket = assign o c.tokens c.bucket }

  ensure_unknown :
      c.last o ≡ none
      → ensure_origin o first c ≡ ok (record filled { last = assign o (negsuc 0) c.last })
  unfolding ensure_origin
  ensure_unknown e = ground (arith, eq_iff o o)

  pub ensure_unused : c.last o ≡ some (negsuc 0) → ensure_origin o first c ≡ ok filled
  unfolding ensure_origin
  ensure_unused e = ground arith

  module _ (t : ℕ) (e : c.last o ≡ some (pos t)) where
    pub ensure_old : t < window_start c first → ensure_origin o first c ≡ ok filled
    unfolding ensure_origin window_start
    ensure_old h = ground arith

    ensure_recent : window_start c first ≤ t → ensure_origin o first c ≡ ok c
    unfolding ensure_origin window_start
    ensure_recent h = ground arith

pub assign_self :
    {A : Type 0} (o : String) (v : A) (d : String → Option A) → assign o v d o ≡ some v
assign_self o v d = ground (arith, eq_iff o o)

pub assign_ne :
    {A : Type 0} (o j : String) (v : A) (d : String → Option A)
    → str_eq o j ≡ false
    → assign o v d j ≡ d j
assign_ne o j v d h = ground arith

module _ (n w : ℕ) (positive : 0 < w) where
  -- what the two dictionaries hold of an origin, for the times of its requests
  pub data Known (now : ℕ) : Option ℤ → Option ℕ → List ℕ → Type 0 where
    unknown : {b : Option ℕ} → Known now none b []
    unused : {b : Option ℕ} → Known now (some (negsuc 0)) b []
    used :
        {t b : ℕ} {log : List ℕ}
        → t ≤ now
        → All (λ x. x ≤ t) log
        → ((q : ℕ) → t / w ≤ q → count_in w q log + b ≤ n)
        → Known now (some (pos t)) (some b) log

  pub record Kept (o : String) (now : ℕ) (c : Counter) (log : List ℕ) : Type 0 where
    pub tokens : c.tokens ≡ n
    pub window : c.window_ms ≡ w
    pub known : Known now (c.last o) (c.bucket o) log
    pub limited : (q : ℕ) → count_in w q log ≤ n

  pub Known-later :
      (now later : ℕ) (l : Option ℤ) (b : Option ℕ) (log : List ℕ)
      → now ≤ later
      → Known now l b log
      → Known later l b log
  Known-later now later l b log h unknown = unknown
  Known-later now later l b log h unused = unused
  Known-later now later l b log h (used past before room) = used (omega arith) before room

  pub Kept-later :
      (o : String) (now later : ℕ) (c : Counter) (log : List ℕ)
      → now ≤ later
      → Kept o now c log
      → Kept o later c log
  Kept-later o now later c log h k = record {
    tokens = k.tokens;
    window = k.window;
    known = Known-later now later _ _ log h k.known;
    limited = k.limited;
  }

  -- after `_ensure_origin`: what is left in the bucket may be used in this window and later
  pub record Ready (o : String) (first : ℕ) (c : Counter) (log : List ℕ) : Type 0 where
    pub tokens : c.tokens ≡ n
    pub window : c.window_ms ≡ w
    pub last : ℤ
    pub left : ℕ
    pub last_is : c.last o ≡ some last
    pub left_is : c.bucket o ≡ some left
    pub recent : All (λ x. x ≤ first) log
    pub room : (q : ℕ) → first / w ≤ q → count_in w q log + left ≤ n
    pub known : left ≡ 0 → Known first (some last) (some left) log

  module _ (o : String) (now first : ℕ) (c : Counter) (later : now ≤ first) where
    abbrev Ensured : List ℕ → Type 0
    Ensured log = (c' : Counter) × (ensure_origin o first c ≡ ok c') × Ready o first c' log

    full_bucket : (c.tokens ≡ n) → assign o c.tokens c.bucket o ≡ some n
    full_bucket e = assign_self o c.tokens c.bucket ∙ ap some e

    ready_unknown : c.tokens ≡ n → c.window_ms ≡ w → c.last o ≡ none → Ensured []
    unfolding count_in
    ready_unknown k m e = (
      record (filled o first c) { last = assign o (negsuc 0) c.last },
      ensure_unknown o first c e,
      record {
        tokens = k;
        window = m;
        last = negsuc 0;
        left = n;
        last_is = assign_self o (negsuc 0) c.last;
        left_is = full_bucket k;
        recent = tt;
        room = λ q h. omega arith;
        known = λ z. unused;
      },
    )

    ready_unused : c.tokens ≡ n → c.window_ms ≡ w → c.last o ≡ some (negsuc 0) → Ensured []
    unfolding count_in
    ready_unused k m e = (
      filled o first c,
      ensure_unused o first c e,
      record {
        tokens = k;
        window = m;
        last = negsuc 0;
        left = n;
        last_is = e;
        left_is = full_bucket k;
        recent = tt;
        room = λ q h. omega arith;
        known = λ z. unused;
      },
    )

    module _ (t b : ℕ) (log : List ℕ) (k : c.tokens ≡ n) (m : c.window_ms ≡ w)
        (e : c.last o ≡ some (pos t)) (f : c.bucket o ≡ some b) (past : t ≤ now)
        (before : All (λ x. x ≤ t) log) (room : (q : ℕ) → t / w ≤ q → count_in w q log + b ≤ n)
        (limited : (q : ℕ) → count_in w q log ≤ n) where
      recent : All (λ x. x ≤ first) log
      recent = All-map (λ x. x ≤ t) (λ x. x ≤ first) log (λ x h. omega arith) before

      ready_old : t < window_start c first → Ensured log
      unfolding window_start
      ready_old h = (
        filled o first c,
        ensure_old o first c t e h,
        record {
          tokens = k;
          window = m;
          last = pos t;
          left = n;
          last_is = e;
          left_is = full_bucket k;
          recent = recent;
          room = λ q h'. omega (
            arith,
            count_in-zero w q t log positive before (
                omega (
                  arith,
                  div-lt_of_lt-mul t (first / w) w positive (subst (λ x. t < (first / x) * x) m h),
                )),
          );
          known = λ z. used (omega arith) before (λ q h'. omega (arith, limited q));
        },
      )

      ready_recent : window_start c first ≤ t → Ensured log
      ready_recent h = (
        c,
        ensure_recent o first c t e h,
        record {
          tokens = k;
          window = m;
          last = pos t;
          left = b;
          last_is = e;
          left_is = f;
          recent = recent;
          room = λ q h'. room q (omega (arith, div_mono t first w positive (omega arith)));
          known = λ z. used (omega arith) before room;
        },
      )

      ready_used : Ensured log
      ready_used = elim (dec_lt t (window_start c first)) [
        | yes h ↦ ready_old h
        | no h ↦ ready_recent (omega arith)
      ]

  -- `_ensure_origin` leaves an entry ready, whatever was known of it.
  pub ready :
      (o : String) (now first : ℕ) (c : Counter) (log : List ℕ)
      → now ≤ first
      → Kept o now c log
      → (c' : Counter) × (ensure_origin o first c ≡ ok c') × Ready o first c' log
  ready o now first c log later k = by_entry (c.last o) (c.bucket o) log refl refl k.limited k.known
    where
      by_entry :
          (l : Option ℤ) (b : Option ℕ) (log : List ℕ)
          → c.last o ≡ l
          → c.bucket o ≡ b
          → ((q : ℕ) → count_in w q log ≤ n)
          → Known now l b log
          → Ensured o now first c later log
      by_entry l b log e f limited unknown = ready_unknown o now first c later k.tokens k.window e
      by_entry l b log e f limited unused = ready_unused o now first c later k.tokens k.window e
      by_entry l b log e f limited (used {t = t} {b = b'} past before room) =
          ready_used o now first c later t b' log k.tokens k.window e f past before room limited
