-- ===== src/Tests/Documents.antt =====
-- pub_crawler/nodeinfo_client.py on a document and a response.
use pub_crawler.Base.{ℕ, ◌≤◌, ◌≡◌, refl, none, some, List, [], ◌∷◌, length}
use pub_crawler.Base.Int.{pos}
use pub_crawler.Exec.{ok}
use pub_crawler.Json.{Value, Dict, null, int, str, dict, empty, entry, get, put}
use pub_crawler.Nodeinfo.{
  max_response_bytes, safe_str, safe_int, coerce_str, coerce_int, bounds_str, bounds_int, take_text,
}
use pub_crawler.Nodeinfo.Client.{
  parse_nodeinfo, join_chunks, extend, all_null, put_text, put_ints, or_null, int_or_null,
  software_props, users_props, usage_props,
}
use pub_crawler.Nodeinfo.Bounds.{AllSafe, parse_nodeinfo-AllSafe, join_chunks-le}

abbrev document : Value
document = dict (
    entry "version" (str "2.0")
      (entry "usage" (dict (entry "localPosts" (int (pos 12)) empty)) empty))

abbrev properties : Dict
properties = entry "nodeinfo_version" (str "2.0") (
    entry "software_name" null (
      entry "software_version" null (
        entry "users_total" null (
          entry "users_active_month" null (
            entry "users_active_halfyear" null
              (entry "local_posts" (int (pos 12)) (entry "local_comments" null empty)))))))

parsed : parse_nodeinfo (λ v. "?") (λ c. none) document ≡ ok properties
unfolding parse_nodeinfo software_props users_props usage_props put_ints put_text or_null
    int_or_null all_null safe_str safe_int coerce_str coerce_int bounds_str bounds_int take_text get
    put
parsed = refl

parse_nodeinfo-AllSafe_example : AllSafe properties
parse_nodeinfo-AllSafe_example =
    parse_nodeinfo-AllSafe (λ v. "?") (λ c. none) document properties parsed

abbrev chunks : List (List ℕ)
chunks = (1 ∷ 2 ∷ []) ∷ (3 ∷ []) ∷ []

abbrev body : List ℕ
body = 1 ∷ 2 ∷ 3 ∷ []

joined : join_chunks [] chunks ≡ some body
unfolding join_chunks extend
joined = refl

join_chunks-le_example : length body ≤ max_response_bytes
join_chunks-le_example = join_chunks-le chunks body joined
