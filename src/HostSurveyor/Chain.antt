-- ===== src/HostSurveyor/Chain.antt =====
-- Which exceptions count as errors of the name or of the encryption: those with such an exception
-- among their causes and contexts, however deep.
use pub_crawler.Base.{
  String, ◌≡◌, refl, sym, ◌∙◌, Bool, true, false, ◌||◌, arith, Bool-cases, str_eq, eq_iff, ◌==◌,
  inl, inr, ◌⊎◌,
}
use pub_crawler.HostSurveyor.{
  gai_error, ssl_error, cert_error, connect_error, connect_timeout, other_timeout, value_error,
  other, http_status_error, Class, Exc, Maybe, exc, absent, present, type_in_cause_chain, in_maybe,
  classify_exception, classify_class, class_of, is_gai, is_ssl,
}

-- a class of the type stands somewhere in the exception's causes and contexts
pub data InChain (is_type : Class → Bool) : Exc → Type 0 where
  itself :
      {c : Class} {cause context : Maybe} → is_type c ≡ true → InChain is_type (exc c cause context)
  by_cause :
      {c : Class} {e : Exc} {context : Maybe}
      → InChain is_type e
      → InChain is_type (exc c (present e) context)
  by_context :
      {c : Class} {cause : Maybe} {e : Exc}
      → InChain is_type e
      → InChain is_type (exc c cause (present e))

or_cases : (a b : Bool) → (a || b) ≡ true → (a ≡ true) ⊎ (b ≡ true)
or_cases true b h = inl refl
or_cases false b h = inr h

module _ (is_type : Class → Bool) where
  type_in_cause_chain-InChain : (e : Exc) → type_in_cause_chain is_type e ≡ true → InChain is_type e
  unfolding type_in_cause_chain in_maybe
  type_in_cause_chain-InChain (exc c absent absent) h = itself (ground arith)
  type_in_cause_chain-InChain (exc c (present d) absent) h = elim (or_cases (is_type c) _ h) [
    | inl here ↦ itself here
    | inr h ↦ by_cause (type_in_cause_chain-InChain d (ground arith))
  ]
  type_in_cause_chain-InChain (exc c absent (present f)) h = elim (or_cases (is_type c) _ h) [
    | inl here ↦ itself here
    | inr h ↦ by_context (type_in_cause_chain-InChain f h)
  ]
  type_in_cause_chain-InChain (exc c (present d) (present f)) h = elim (or_cases (is_type c) _ h) [
    | inl here ↦ itself here
    | inr h ↦ elim (or_cases (type_in_cause_chain is_type d) _ h) [
      | inl h ↦ by_cause (type_in_cause_chain-InChain d h)
      | inr h ↦ by_context (type_in_cause_chain-InChain f h)
    ]
  ]

  InChain-type_in_cause_chain : (e : Exc) → InChain is_type e → type_in_cause_chain is_type e ≡ true
  unfolding type_in_cause_chain in_maybe
  InChain-type_in_cause_chain e (itself h) = ground arith
  InChain-type_in_cause_chain e (by_cause {e = d} i) =
      ground (arith, InChain-type_in_cause_chain d i)
  InChain-type_in_cause_chain e (by_context {e = d} i) =
      ground (arith, InChain-type_in_cause_chain d i)

dns_first : (e : Exc) → type_in_cause_chain is_gai e ≡ true → classify_exception e ≡ "dns_error"
unfolding classify_exception
dns_first e h = rw h refl

differ : (a b : String) → str_eq a b ≡ false → ¬ (a ≡ b)
differ a b e h = cc (sym e ∙ (eq_iff a b).1 h)

not_dns : (c : Class) → ¬ (classify_class c ≡ "dns_error")
unfolding classify_class
not_dns gai_error h = differ "error" "dns_error" refl h
not_dns ssl_error h = differ "error" "dns_error" refl h
not_dns cert_error h = differ "nodeinfo_invalid" "dns_error" refl h
not_dns connect_error h = differ "connect_error" "dns_error" refl h
not_dns connect_timeout h = differ "connect_error" "dns_error" refl h
not_dns other_timeout h = differ "timeout" "dns_error" refl h
not_dns value_error h = differ "nodeinfo_invalid" "dns_error" refl h
not_dns other h = differ "error" "dns_error" refl h
not_dns (http_status_error n) h = elim (Bool-cases ((n == 404) || (n == 410))) [
  | inl gone ↦ differ "nodeinfo_missing" "dns_error" refl (rw gone at h)
  | inr bad ↦ differ "http_error" "dns_error" refl (rw bad at h)
]

dns_only : (e : Exc) → classify_exception e ≡ "dns_error" → type_in_cause_chain is_gai e ≡ true
unfolding classify_exception
dns_only e h = elim (Bool-cases (type_in_cause_chain is_gai e)) [
  | inl found ↦ found
  | inr lacking ↦ elim (Bool-cases (type_in_cause_chain is_ssl e)) [
    | inl tls ↦ absurd (differ "tls_error" "dns_error" refl (rw (lacking, tls) at h))
    | inr plain ↦ absurd (not_dns (class_of e) (rw (lacking, plain) at h))
  ]
]

-- An exception is classified as an error of the name service exactly if an error of that type stands
-- in its chain of causes and contexts.
pub classify_exception-InChain :
    (e : Exc)
    → (classify_exception e ≡ "dns_error" → InChain is_gai e)
      × (InChain is_gai e → classify_exception e ≡ "dns_error")
classify_exception-InChain e = (
  λ h. type_in_cause_chain-InChain is_gai e (dns_only e h),
  λ i. dns_first e (InChain-type_in_cause_chain is_gai e i),
)
