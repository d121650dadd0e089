-- ===== src/Job/Identity.antt =====
-- What the identity of a job determines: its type and what it is about.
use mathlib.Core.Option
use Prim.Native.Char.{Char}
use text.Mathlib.TextLemmas.{nil-append, cons-append}
use pub_crawler.Base.{
  String, ◌++◌, ◌≡◌, refl, Option, none, some, arith, false, true, Bool-cases, Option-cases, inl,
  inr, ap, sym, ◌∙◌, ◌⊎◌, eq_iff, str_eq, ◌&&◌, if◌then◌else◌,
}
use pub_crawler.Base.Text.{split_once, has_char, split_once-append}
use pub_crawler.Json.{Value, Dict, null, bool, int, float, list, str, dict, get, has_key}
use pub_crawler.Job.{job_id, format, is_text, id_with, id_of_type}

abbrev colon : Char
colon = ":"

split-colon :
    (t x : String) → has_char b':' t ≡ false → split_once b':' (t ++ (":" ++ x)) ≡ some (t, x)
split-colon t x h =
    rw (cons-append colon "" x, nil-append x) (split_once-append b':' colon t x refl h)

pub data Kind : Type 0 where
  webfinger actor collection page : Kind

abbrev pub name_of : Kind → String
name_of webfinger = "webfinger"
name_of actor = "actor"
name_of collection = "collection"
name_of page = "page"

kind_of : String → Kind
kind_of s =
    if str_eq s "webfinger"
    then webfinger
    else if str_eq s "actor"
    then actor
    else if str_eq s "collection"
    then collection
    else page

kind_of-name_of : (k : Kind) → kind_of (name_of k) ≡ k
unfolding kind_of
kind_of-name_of webfinger = refl
kind_of-name_of actor = refl
kind_of-name_of collection = refl
kind_of-name_of page = refl

abbrev pub key_of : Kind → String
key_of webfinger = "webfinger"
key_of actor = "actor_id"
key_of collection = "collection_id"
key_of page = "page_id"

-- `v` is a job of the kind, about `subject`
pub record IsJob (v : Value) (k : Kind) (subject : Value) : Type 0 where
  pub fields : Dict
  pub is_dict : v ≡ dict fields
  pub typed : get fields "job_type" ≡ some (str (name_of k))
  pub keyed : get fields (key_of k) ≡ some subject

abbrev pub identity : (Value → String) → Kind → Value → String
identity text_of k subject = name_of k ++ (":" ++ format text_of subject)

text-of-is_text : (v : Value) (t : String) → is_text v t ≡ true → v ≡ str t
text-of-is_text (str s) t h = ap str ((eq_iff s t).0 h)
text-of-is_text null t h = absurd (cc)
text-of-is_text (bool b) t h = absurd (cc)
text-of-is_text (int n) t h = absurd (cc)
text-of-is_text (float m k) t h = absurd (cc)
text-of-is_text (list vs) t h = absurd (cc)
text-of-is_text (dict d) t h = absurd (cc)

split-name :
    (k : Kind) (x : String) → split_once b':' (name_of k ++ (":" ++ x)) ≡ some (name_of k, x)
unfolding has_char
split-name webfinger x = split-colon "webfinger" x refl
split-name actor x = split-colon "actor" x refl
split-name collection x = split-colon "collection" x refl
split-name page x = split-colon "page" x refl

pair_injective :
    (a b c d : String)
    → ◌≡◌ {A = Option (String × String)} (some (a, b)) (some (c, d))
    → (a ≡ c) × (b ≡ d)
pair_injective a b c d h = ground arith

module _ (text_of : Value → String) where
  abbrev Found : Dict → String → Type 0
  Found d i = (k : Kind) × (x : Value) × IsJob (dict d) k x × (i ≡ identity text_of k x)

  found :
      (k : Kind) (d : Dict) (i : String)
      → get d "job_type" ≡ some (str (name_of k))
      → (o : Option Value) → get d (key_of k) ≡ o
      → Option.map (λ v. name_of k ++ (":" ++ format text_of v)) o ≡ some i
      → Found d i
  found k d i typed none e h = absurd (cc)
  found k d i typed (some x) e h =
      (k, x, record { fields = d; is_dict = refl; typed = typed; keyed = e }, ground arith)

  -- one test of the chain: it gives the identity, or the rest of the chain does
  link :
      (k : Kind) (t : Value) (d : Dict) (rest : Option String) (i : String)
      → get d "job_type" ≡ some t
      → (if is_text t (name_of k) && has_key d (key_of k)
          then id_with text_of (name_of k) (key_of k) d
          else rest)
        ≡ some i
      → Found d i ⊎ (rest ≡ some i)
  unfolding id_with
  link k t d rest i e h = elim (Bool-cases (is_text t (name_of k))) [
    | inl a ↦ elim (Bool-cases (has_key d (key_of k))) [
      | inl b ↦ inl (
          found k d i (e ∙ ap some (text-of-is_text t (name_of k) a)) (get d (key_of k)) refl
            (rw (a, b) at h))
      | inr b ↦ inr (rw (a, b) at h)
    ]
    | inr a ↦ inr (rw a at h)
  ]

  id_of_type-IsJob :
      (t : Value) (d : Dict) (i : String)
      → get d "job_type" ≡ some t
      → id_of_type text_of t d ≡ some i
      → Found d i
  unfolding id_of_type
  id_of_type-IsJob t d i e h = elim (link actor t d _ i e h) [
    | inl f ↦ f
    | inr h ↦ elim (link webfinger t d _ i e h) [
      | inl f ↦ f
      | inr h ↦ elim (link collection t d _ i e h) [
        | inl f ↦ f
        | inr h ↦ elim (link page t d none i e h) [ inl f ↦ f | inr h ↦ absurd (cc) ]
      ]
    ]
  ]

  -- Whatever has an identity is a job of one of the four kinds with the field that names its
  -- subject, and the identity is the kind's name, a colon and the subject.
  pub job_id-IsJob :
      (v : Value) (i : String)
      → job_id text_of v ≡ some i
      → (k : Kind) × (x : Value) × IsJob v k x × (i ≡ identity text_of k x)
  unfolding job_id
  job_id-IsJob (dict d) i h = elim (Option-cases (get d "job_type")) [
    | inl e ↦ absurd (ground arith)
    | inr (t, e) ↦ id_of_type-IsJob t d i e (ground arith)
  ]
  job_id-IsJob null i h = absurd (cc)
  job_id-IsJob _ i h = absurd (cc)

  job_id-dict :
      (k : Kind) (d : Dict) (x : Value)
      → get d "job_type" ≡ some (str (name_of k))
      → get d (key_of k) ≡ some x
      → job_id text_of (dict d) ≡ some (identity text_of k x)
  unfolding job_id
  job_id-dict webfinger d x t e = ground arith
  job_id-dict actor d x t e = ground arith
  job_id-dict collection d x t e = ground arith
  job_id-dict page d x t e = ground arith

  -- A job of one of the four kinds with the field that names its subject has an identity: the
  -- kind's name, a colon and the subject.
  pub IsJob-job_id :
      (v : Value) (k : Kind) (x : Value)
      → IsJob v k x
      → job_id text_of v ≡ some (identity text_of k x)
  IsJob-job_id v k x j = rw j.is_dict (job_id-dict k j.fields x j.typed j.keyed)

  -- Two jobs with one identity are of one kind and about one subject, as it is written.
  pub job_id_injective :
      (v w : Value) (k l : Kind) (x y : Value)
      → IsJob v k x
      → IsJob w l y
      → job_id text_of v ≡ job_id text_of w
      → (k ≡ l) × (format text_of x ≡ format text_of y)
  job_id_injective v w k l x y a b e =
      let (names, subjects) = inverse in
      (sym (kind_of-name_of k) ∙ ap kind_of names ∙ kind_of-name_of l, subjects)
    where
      same : identity text_of k x ≡ identity text_of l y
      same = ground (arith, IsJob-job_id v k x a, IsJob-job_id w l y b)

      both :
          ◌≡◌ {A = Option (String × String)}
            (some (name_of k, format text_of x))
            (some (name_of l, format text_of y))
      both =
          sym (split-name k (format text_of x))
          ∙ ap (split_once b':') same
          ∙ split-name l (format text_of y)

      inverse : (name_of k ≡ name_of l) × (format text_of x ≡ format text_of y)
      inverse = pair_injective _ _ _ _ both
