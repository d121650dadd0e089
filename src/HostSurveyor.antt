-- ===== src/HostSurveyor.antt =====
-- pub_crawler/host_surveyor.py. The client of node information, the time and `repr` are arguments.
pub mod Chain
use pub_crawler.Base.{
  String, ℕ, zero, suc, Bool, true, false, ◌||◌, Option, none, some, List, [], ◌∷◌, ◌==◌,
  if◌then◌else◌,
}
use pub_crawler.Json.{Value, Dict, null, str, empty, entry, put}
use pub_crawler.Nodeinfo.Client.{all_null, names}
use pub_crawler.Nodeinfo.{take_text}

-- The classes that are told apart. Failed checks of a certificate are both SSLErrors and ValueErrors.
pub data Class : Type 0 where
  gai_error ssl_error cert_error connect_error connect_timeout other_timeout value_error other :
      Class
  http_status_error : ℕ → Class

-- an exception with its `__cause__` and its `__context__`
mutual
  pub data Exc : Type 0 where
    exc : Class → Maybe → Maybe → Exc

  pub data Maybe : Type 0 where
    absent : Maybe
    present : Exc → Maybe

abbrev pub is_gai : Class → Bool
is_gai gai_error = true
is_gai _ = false

abbrev pub is_ssl : Class → Bool
is_ssl ssl_error = true
is_ssl cert_error = true
is_ssl _ = false

unfoldable mutual
  pub type_in_cause_chain : (Class → Bool) → Exc → Bool
  type_in_cause_chain is_type (exc c cause context) =
      is_type c || (in_maybe is_type cause || in_maybe is_type context)

  pub in_maybe : (Class → Bool) → Maybe → Bool
  in_maybe is_type absent = false
  in_maybe is_type (present e) = type_in_cause_chain is_type e

unfoldable pub classify_class : Class → String
classify_class connect_error = "connect_error"
classify_class connect_timeout = "connect_error"
classify_class other_timeout = "timeout"
classify_class (http_status_error n) =
    if (n == 404) || (n == 410) then "nodeinfo_missing" else "http_error"
classify_class value_error = "nodeinfo_invalid"
classify_class cert_error = "nodeinfo_invalid"
classify_class _ = "error"

abbrev pub class_of : Exc → Class
class_of (exc c cause context) = c

unfoldable pub classify_exception : Exc → String
classify_exception e =
    if type_in_cause_chain is_gai e
    then "dns_error"
    else if type_in_cause_chain is_ssl e
    then "tls_error"
    else classify_class (class_of e)

-- what `get_nodeinfo` comes to
pub data Fetched : Type 0 where
  nothing : Fetched
  properties : Dict → Fetched
  failed : Exc → Fetched

-- `{**props, **fetched}`
unfoldable pub merge : Dict → Dict → Dict
merge props empty = props
merge props (entry k v d) = merge (put props k v) d

unfoldable pub initial : String → Dict
initial now =
    all_null names
      (put (put (put empty "last_fetch_date" (str now)) "failure" null) "error_detail" null)

unfoldable pub survey : String → (Exc → String) → Fetched → Dict
unfolding initial
survey now repr nothing = put (initial now) "failure" (str "nodeinfo_invalid")
survey now repr (properties fetched) = merge (initial now) fetched
survey now repr (failed e) =
    put (put (initial now) "failure" (str (classify_exception e))) "error_detail"
      (str (take_text 500 (repr e)))
