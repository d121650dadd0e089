-- ===== src/Nodeinfo/Client.antt =====
-- pub_crawler/nodeinfo_client.py: the document's fields, the choice of a link, and the two requests.
use text.Mathlib.Text.{is_lt}
use Prim.Native.String.{compare}
use pub_crawler.Base.{
  String, ℕ, ◌+◌, ◌++◌, Bool, false, ◌||◌, Option, none, some, List, [], ◌∷◌, ltb, str_eq, length,
  if◌then◌else◌,
}
use pub_crawler.Base.Int.{ℤ}
use pub_crawler.Exec.{Result, ok, raised, type_error, Exec, pure, lift, ◌>>=◌, ◌>>◌}
use pub_crawler.Json.{Value, Dict, null, int, str, list, dict, empty, get, put, items}
use pub_crawler.Job.{get_or}
use pub_crawler.Nodeinfo.{max_response_bytes, safe_str, safe_int}

prefix : String
prefix = "http://nodeinfo.diaspora.software/ns/schema/"

unfoldable pub rels : List String
unfolding prefix
rels =
    (prefix ++ "2.2")
    ∷ (prefix ++ "2.1")
    ∷ (prefix ++ "2.0")
    ∷ (prefix ++ "1.1")
    ∷ (prefix ++ "1.0")
    ∷ []

is_rel : List String → String → Bool
is_rel [] s = false
is_rel (r ∷ rs) s = str_eq r s || is_rel rs s

-- a link's rel and href, where it is an object that has both and the rel is known
unfoldable pub candidate : Value → Option (String × Value)
unfolding is_rel
candidate (dict d) = elim (get d "rel") [
  | some (str rel) ↦ elim (get d "href") [
    | none ↦ none
    | some null ↦ none
    | some href ↦ if is_rel rels rel then some (rel, href) else none
  ]
  | _ ↦ none
]
candidate _ = none

-- the loop over the links, from the best one so far
unfoldable pub best_link : List Value → Option (String × Value) → Option (String × Value)
best_link [] best = best
best_link (v ∷ vs) best = best_link vs (better (candidate v) best)
  where
    better : Option (String × Value) → Option (String × Value) → Option (String × Value)
    better none best = best
    better (some c) none = some c
    better (some c) (some b) = if is_lt (compare b.0 c.0) then some c else some b

unfoldable pub or_null : Option String → Value
or_null none = null
or_null (some s) = str s

unfoldable pub int_or_null : Option ℤ → Value
int_or_null none = null
int_or_null (some n) = int n

-- `d.get(k)`
abbrev pub get_null : Dict → String → Value
get_null d k = elim (get d k) [ none ↦ null | some v ↦ v ]

unfoldable pub all_null : List String → Dict → Dict
all_null [] props = props
all_null (name ∷ names) props = all_null names (put props name null)

abbrev pub names : List String
names =
    "nodeinfo_version" ∷ "software_name" ∷ "software_version" ∷ "users_total" ∷ "users_active_month"
    ∷ "users_active_halfyear" ∷ "local_posts" ∷ "local_comments" ∷ []

unfoldable pub extend : List ℕ → List ℕ → List ℕ
extend [] bs = bs
extend (b ∷ buf) bs = b ∷ extend buf bs

-- the chunks of a body joined, none where there are too many bytes
unfoldable pub join_chunks : List ℕ → List (List ℕ) → Option (List ℕ)
join_chunks buf [] = some buf
join_chunks buf (chunk ∷ chunks) =
    let rest = join_chunks (extend buf chunk) chunks in
    if ltb max_response_bytes (length buf + length chunk) then none else rest

module _ (text_of : Value → String) (decimal : ℕ → Option ℕ) where
  -- `props[prop] = safe_int(d.get(name))` for each pair
  unfoldable pub put_ints : List (String × String) → Dict → Dict → Result Dict
  unfolding int_or_null
  put_ints [] d props = ok props
  put_ints ((name, prop) ∷ rest) d props = elim (safe_int decimal (get_null d name)) [
    | raised e ↦ raised e
    | ok n ↦ put_ints rest d (put props prop (int_or_null n))
  ]

  unfoldable pub put_text : String → String → Dict → Dict → Dict
  unfolding or_null
  put_text name prop d props = put props prop (or_null (safe_str text_of (get_null d name)))

  unfoldable pub software_props : Value → Dict → Dict
  software_props (dict d) props =
      put_text "version" "software_version" d (put_text "name" "software_name" d props)
  software_props _ props = props

  unfoldable pub users_props : Value → Dict → Result Dict
  users_props (dict d) props =
      put_ints
        (("total", "users_total")
          ∷ ("activeMonth", "users_active_month")
          ∷ ("activeHalfyear", "users_active_halfyear")
          ∷ [])
        d props
  users_props _ props = ok props

  unfoldable pub usage_props : Value → Dict → Result Dict
  unfolding users_props
  usage_props (dict d) props = elim (users_props (get_null d "users") props) [
    | raised e ↦ raised e
    | ok props ↦
        put_ints (("localPosts", "local_posts") ∷ ("localComments", "local_comments") ∷ []) d props
  ]
  usage_props _ props = ok props

  unfoldable pub parse_nodeinfo : Value → Result Dict
  unfolding software_props usage_props
  parse_nodeinfo (dict d) = usage_props (get_null d "usage") (
      software_props (get_null d "software")
        (put_text "version" "nodeinfo_version" d (all_null names empty)))
  parse_nodeinfo _ = ok (all_null names empty)

  module _ {S : Type 0} (general burst : String → Exec S Unit)
      (stream : String → Exec S (List (List ℕ) × String)) (loads : List ℕ → Option Value)
      (urljoin : String → String → Result String) (netloc : String → Result String) where
    safe_get : String → Exec S (Option (List ℕ × String))
    safe_get url = do
      (chunks, final_url) ← stream url
      elim (join_chunks [] chunks) [ none ↦ pure none | some body ↦ pure (some (body, final_url)) ]

    acquire_both : String → Exec S Unit
    acquire_both origin = do general origin; burst origin

    parse_body : Option (List ℕ × String) → Exec S (Option Dict)
    parse_body none = pure none
    parse_body (some (content, url)) = elim (loads content) [
      | none ↦ pure none
      | some doc ↦ do props ← lift (parse_nodeinfo doc); pure (some props)
    ]

    href_text : Value → Result String
    href_text (str s) = ok s
    href_text _ = raised type_error

    follow_link : String → Option (String × Value) → Exec S (Option Dict)
    unfolding safe_get acquire_both parse_body href_text
    follow_link url none = pure none
    follow_link url (some (rel, href)) = do
      href ← lift (href_text href)
      nodeinfo_url ← lift (urljoin url href)
      host ← lift (netloc nodeinfo_url)
      acquire_both ("https://" ++ host)
      res ← safe_get nodeinfo_url
      parse_body res

    on_links : String → Value → Exec S (Option Dict)
    unfolding follow_link
    on_links url (list links) = follow_link url (best_link (items links) none)
    on_links url _ = pure none

    on_well_known : Option (List ℕ × String) → Exec S (Option Dict)
    unfolding on_links
    on_well_known none = pure none
    on_well_known (some (content, url)) = elim (loads content) [
      | none ↦ pure none
      | some doc ↦ do links ← lift (get_or doc "links" null); on_links url links
    ]

    unfoldable pub get_nodeinfo : String → Exec S (Option Dict)
    unfolding on_well_known safe_get acquire_both
    get_nodeinfo hostname = do
      let origin = "https://" ++ hostname
      acquire_both origin
      res ← safe_get (origin ++ "/.well-known/nodeinfo")
      on_well_known res
