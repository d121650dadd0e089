-- ===== src/SurveyHosts/Given.antt =====
-- What a survey gives: each property once, the ones that are none and the others.
use pub_crawler.Base.{
  String, ◌≡◌, refl, ap, ◌∙◌, subst, Bool, false, Option, none, some, List, [], ◌∷◌, str_eq, eq_iff,
  arith, Bool-cases, inl, inr, if◌then◌else◌,
}
use pub_crawler.Json.{Value, Dict, null, str, empty, entry, get, put, get-put}
use pub_crawler.Graph.Schema.{any_of}
use pub_crawler.SurveyHosts.{is_null, null_names, not_null}
use pub_crawler.HostSurveyor.{Exc, Fetched, nothing, properties, failed, merge, survey, initial}
use pub_crawler.Nodeinfo.Client.{all_null, names}

-- no key twice
abbrev pub NoTwice : Dict → Type 0
NoTwice empty = Unit
NoTwice (entry k v d) = (get d k ≡ none) × NoTwice d

pub put-NoTwice : (d : Dict) (k : String) (v : Value) → NoTwice d → NoTwice (put d k v)
unfolding get put
put-NoTwice empty k v n = (refl, tt)
put-NoTwice (entry j w d) k v n = elim (Bool-cases (str_eq j k)) [
  | inl same ↦ rw same (subst (λ x. get d x ≡ none) ((eq_iff j k).0 same) n.0, n.1)
  | inr other ↦
      rw other
        (get-put d k j v ∙ ground (arith, eq_iff k j, eq_iff j k, n.0), put-NoTwice d k v n.1)
]

abbrev pub drop_null : Option Value → Option Value
drop_null none = none
drop_null (some v) = if is_null v then none else some v

abbrev pub null_at : Option Value → Bool
null_at none = false
null_at (some v) = is_null v

pub not_null-get : (d : Dict) (k : String) → NoTwice d → get (not_null d) k ≡ drop_null (get d k)
unfolding get not_null
not_null-get empty k n = refl
not_null-get (entry j v d) k n = elim (Bool-cases (str_eq j k)) [
  | inl same ↦
      let rest : get (not_null d) k ≡ none =
        not_null-get d k n.1
        ∙ ap drop_null (subst (λ x. get d x ≡ none) ((eq_iff j k).0 same) n.0) in
      ground (arith, rest)
  | inr other ↦ ground (arith, not_null-get d k n.1)
]

pub null_names_lem :
    (d : Dict) (k : String) → NoTwice d → any_of (null_names d) k ≡ null_at (get d k)
unfolding get null_names any_of
null_names_lem empty k n = refl
null_names_lem (entry j v d) k n = elim (Bool-cases (str_eq j k)) [
  | inl same ↦
      let rest : any_of (null_names d) k ≡ false =
        null_names_lem d k n.1
        ∙ ap null_at (subst (λ x. get d x ≡ none) ((eq_iff j k).0 same) n.0) in
      ground (arith, rest)
  | inr other ↦ ground (arith, null_names_lem d k n.1)
]

all_null-NoTwice : (ks : List String) (d : Dict) → NoTwice d → NoTwice (all_null ks d)
unfolding all_null
all_null-NoTwice [] d n = n
all_null-NoTwice (k ∷ ks) d n = all_null-NoTwice ks (put d k null) (put-NoTwice d k null n)

merge-NoTwice : (d e : Dict) → NoTwice d → NoTwice (merge d e)
unfolding merge
merge-NoTwice d empty n = n
merge-NoTwice d (entry k v e) n = merge-NoTwice (put d k v) e (put-NoTwice d k v n)

initial-NoTwice : (now : String) → NoTwice (initial now)
unfolding initial
initial-NoTwice now =
    all_null-NoTwice names _
      (put-NoTwice _ _ _ (put-NoTwice _ _ _ (put-NoTwice empty "last_fetch_date" (str now) tt)))

-- A survey gives each property once.
pub survey-NoTwice :
    (now : String) (repr : Exc → String) (f : Fetched) → NoTwice (survey now repr f)
unfolding survey
survey-NoTwice now repr nothing = put-NoTwice _ _ _ (initial-NoTwice now)
survey-NoTwice now repr (properties fetched) = merge-NoTwice _ fetched (initial-NoTwice now)
survey-NoTwice now repr (failed e) = put-NoTwice _ _ _ (put-NoTwice _ _ _ (initial-NoTwice now))
