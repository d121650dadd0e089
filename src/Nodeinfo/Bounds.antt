-- ===== src/Nodeinfo/Bounds.antt =====
-- Whatever document a server sends, the properties taken from it are within bounds.
use pub_crawler.Base.{
  String, ℕ, zero, suc, ◌+◌, length, ◌≤◌, ◌≡◌, subst, Option, none, some, List, [], ◌∷◌, str_eq,
  arith, ltb, Bool-cases, inl, inr,
}
use pub_crawler.Base.Int.{ℤ, pos, negsuc}
use pub_crawler.Exec.{Result, ok}
use pub_crawler.Exec.Fallible.{Result-cases, ok_injective}
use pub_crawler.Json.{
  Value, Dict, null, bool, int, float, str, list, dict, empty, get, put, get-put,
}
use pub_crawler.Nodeinfo.{
  max_value, max_response_bytes, max_str_len, bounds_int, take_text, bounds_str, safe_str, safe_int,
  coerce_int, coerce_str,
}
use pub_crawler.Nodeinfo.Client.{
  or_null, int_or_null, get_null, put_ints, put_text, all_null, names, software_props, users_props,
  usage_props, parse_nodeinfo, extend, join_chunks,
}

unfoldable pub text_length : String → ℕ
text_length String.[] = 0
text_length (String.◌∷◌ c s) = suc (text_length s)

pub data IsSafe : Value → Type 0 where
  nothing : IsSafe null
  number : (n : ℕ) → n ≤ max_value → IsSafe (int (pos n))
  text : (s : String) → text_length s ≤ max_str_len → IsSafe (str s)

take_text-le : (n : ℕ) (s : String) → text_length (take_text n s) ≤ n
unfolding take_text text_length
take_text-le zero s = ground arith
take_text-le (suc n) String.[] = ground arith
take_text-le (suc n) (String.◌∷◌ c s) = ground (arith, take_text-le n s)

bounds_int-IsSafe : (o : Option ℤ) → IsSafe (int_or_null (bounds_int o))
unfolding int_or_null bounds_int
bounds_int-IsSafe none = nothing
bounds_int-IsSafe (some (negsuc n)) = nothing
bounds_int-IsSafe (some (pos n)) = elim (Bool-cases (ltb max_value n)) [
  | inl beyond ↦ rw beyond nothing
  | inr within ↦ rw within (number n (ground arith))
]

bounds_str-IsSafe : (o : Option String) → IsSafe (or_null (bounds_str o))
unfolding or_null bounds_str
bounds_str-IsSafe none = nothing
bounds_str-IsSafe (some s) = text (take_text max_str_len s) (take_text-le max_str_len s)

pub record AllSafe (d : Dict) : Type 0 where
  pub safe : (k : String) (v : Value) → get d k ≡ some v → IsSafe v

bytes_injective : {v w : List ℕ} → ◌≡◌ {A = Option (List ℕ)} (some v) (some w) → v ≡ w
bytes_injective h = cc

some_injective : {v w : Value} → ◌≡◌ {A = Option Value} (some v) (some w) → v ≡ w
some_injective h = ground arith

put-AllSafe : (d : Dict) (k : String) (v : Value) → AllSafe d → IsSafe v → AllSafe (put d k v)
put-AllSafe d k v a i = record {
  safe = λ j x h. elim (Bool-cases (str_eq k j)) [
    | inl same ↦ subst IsSafe (some_injective (rw (get-put d k j v, same) at h)) i
    | inr other ↦ a.safe j x (rw (get-put d k j v, other) at h)
  ];
}

all_null-AllSafe : (ns : List String) (d : Dict) → AllSafe d → AllSafe (all_null ns d)
unfolding all_null
all_null-AllSafe [] d a = a
all_null-AllSafe (n ∷ ns) d a = all_null-AllSafe ns (put d n null) (put-AllSafe d n null a nothing)

empty-AllSafe : AllSafe empty
unfolding get
empty-AllSafe = record { safe = λ k v h. absurd (cc) }

-- a result that is a safe dictionary, if it is one
abbrev SafeResult : Result Dict → Type 0
SafeResult r = (props : Dict) → r ≡ ok props → AllSafe props

module _ (text_of : Value → String) (decimal : ℕ → Option ℕ) where
  put_ints-SafeResult :
      (fields : List (String × String)) (d props : Dict)
      → AllSafe props
      → SafeResult (put_ints text_of decimal fields d props)
  unfolding put_ints safe_int
  put_ints-SafeResult [] d props a out h = subst AllSafe (ok_injective h) a
  put_ints-SafeResult ((name, prop) ∷ rest) d props a out h =
      elim (Result-cases (coerce_int decimal (get_null d name))) [
        | inr (e, x) ↦ absurd (cc (rw (put_ints, x) at h))
        | inl (n, x) ↦
            put_ints-SafeResult rest d (put props prop (int_or_null (bounds_int n)))
              (put-AllSafe props prop _ a (bounds_int-IsSafe n)) out (rw (put_ints, x) at h)
      ]

  put_text-AllSafe :
      (name prop : String) (d props : Dict)
      → AllSafe props
      → AllSafe (put_text text_of decimal name prop d props)
  unfolding put_text safe_str
  put_text-AllSafe name prop d props a =
      put-AllSafe props prop _ a (bounds_str-IsSafe (coerce_str text_of (get_null d name)))

  software_props-AllSafe :
      (v : Value) (props : Dict) → AllSafe props → AllSafe (software_props text_of decimal v props)
  unfolding software_props
  software_props-AllSafe (dict d) props a =
      put_text-AllSafe "version" "software_version" d _
        (put_text-AllSafe "name" "software_name" d props a)
  software_props-AllSafe null props a = a
  software_props-AllSafe (bool b) props a = a
  software_props-AllSafe (int n) props a = a
  software_props-AllSafe (float m k) props a = a
  software_props-AllSafe (str s) props a = a
  software_props-AllSafe (list vs) props a = a

  users_props-SafeResult :
      (v : Value) (props : Dict) → AllSafe props → SafeResult (users_props text_of decimal v props)
  unfolding users_props
  users_props-SafeResult (dict d) props a out h = put_ints-SafeResult _ d props a out h
  users_props-SafeResult null props a out h = subst AllSafe (ok_injective h) a
  users_props-SafeResult (bool b) props a out h = subst AllSafe (ok_injective h) a
  users_props-SafeResult (int n) props a out h = subst AllSafe (ok_injective h) a
  users_props-SafeResult (float m k) props a out h = subst AllSafe (ok_injective h) a
  users_props-SafeResult (str s) props a out h = subst AllSafe (ok_injective h) a
  users_props-SafeResult (list vs) props a out h = subst AllSafe (ok_injective h) a

  usage_props-SafeResult :
      (v : Value) (props : Dict) → AllSafe props → SafeResult (usage_props text_of decimal v props)
  unfolding usage_props
  usage_props-SafeResult (dict d) props a out h =
      elim (Result-cases (users_props text_of decimal (get_null d "users") props)) [
        | inr (e, x) ↦ absurd (cc (rw (usage_props, x) at h))
        | inl (p, x) ↦
            put_ints-SafeResult _ d p (users_props-SafeResult (get_null d "users") props a p x) out
              (rw (usage_props, x) at h)
      ]
  usage_props-SafeResult null props a out h = subst AllSafe (ok_injective h) a
  usage_props-SafeResult (bool b) props a out h = subst AllSafe (ok_injective h) a
  usage_props-SafeResult (int n) props a out h = subst AllSafe (ok_injective h) a
  usage_props-SafeResult (float m k) props a out h = subst AllSafe (ok_injective h) a
  usage_props-SafeResult (str s) props a out h = subst AllSafe (ok_injective h) a
  usage_props-SafeResult (list vs) props a out h = subst AllSafe (ok_injective h) a

  -- Whatever document is parsed: if `parse_nodeinfo` returns, each property that it gives is null, a
  -- number from 0 to 2 ** 62, or a text of 128 characters at most.
  pub parse_nodeinfo-AllSafe :
      (doc : Value) (props : Dict) → parse_nodeinfo text_of decimal doc ≡ ok props → AllSafe props
  unfolding parse_nodeinfo
  parse_nodeinfo-AllSafe (dict d) props h =
      usage_props-SafeResult (get_null d "usage") _
        (software_props-AllSafe (get_null d "software") _ (
          put_text-AllSafe "version" "nodeinfo_version" d _
            (all_null-AllSafe names empty empty-AllSafe)))
        props h
  parse_nodeinfo-AllSafe null props h =
      subst AllSafe (ok_injective h) (all_null-AllSafe names empty empty-AllSafe)
  parse_nodeinfo-AllSafe (bool b) props h =
      subst AllSafe (ok_injective h) (all_null-AllSafe names empty empty-AllSafe)
  parse_nodeinfo-AllSafe (int n) props h =
      subst AllSafe (ok_injective h) (all_null-AllSafe names empty empty-AllSafe)
  parse_nodeinfo-AllSafe (float m k) props h =
      subst AllSafe (ok_injective h) (all_null-AllSafe names empty empty-AllSafe)
  parse_nodeinfo-AllSafe (str s) props h =
      subst AllSafe (ok_injective h) (all_null-AllSafe names empty empty-AllSafe)
  parse_nodeinfo-AllSafe (list vs) props h =
      subst AllSafe (ok_injective h) (all_null-AllSafe names empty empty-AllSafe)

length-extend : (buf bs : List ℕ) → length (extend buf bs) ≡ length buf + length bs
unfolding extend
length-extend [] bs = omega arith
length-extend (b ∷ buf) bs = omega (arith, length-extend buf bs)

joined-le :
    (chunks : List (List ℕ)) (buf body : List ℕ)
    → length buf ≤ max_response_bytes
    → join_chunks buf chunks ≡ some body
    → length body ≤ max_response_bytes
unfolding join_chunks
joined-le [] buf body h e = subst (λ b. length b ≤ max_response_bytes) (bytes_injective e) h
joined-le (chunk ∷ chunks) buf body h e =
    elim (Bool-cases (ltb max_response_bytes (length buf + length chunk))) [
      | inl beyond ↦ absurd (cc (rw (join_chunks, beyond) at e))
      | inr within ↦
          joined-le chunks (extend buf chunk) body (ground (arith, length-extend buf chunk))
            (rw (join_chunks, within) at e)
    ]

-- However a response is cut into chunks: a body that is kept has no more bytes than
-- MAX_RESPONSE_BYTES.
pub join_chunks-le :
    (chunks : List (List ℕ)) (body : List ℕ)
    → join_chunks [] chunks ≡ some body
    → length body ≤ max_response_bytes
join_chunks-le chunks body e = joined-le chunks [] body (omega arith) e
