-- ===== src/ActivityPub.antt =====
-- pub_crawler/activity_pub_client.py and pub_crawler/signature.py. The rate limiters, the sending of a
-- request, the key's signature, orjson and urllib are arguments.
pub mod Redirects
use pub_crawler.Base.{
  String, ℕ, zero, suc, ◌++◌, Bool, true, false, not, ◌&&◌, ◌||◌, Option, none, some, List, [], ◌∷◌,
  leb, ltb, str_eq, if◌then◌else◌,
}
use pub_crawler.Base.Text.{split, replace_from}
use pub_crawler.Exec.{
  Result, ok, raised, http_status, value_error, exception, too_many_redirects, Exec, pure, raise,
  lift, ◌>>=◌, ◌>>◌,
}
use pub_crawler.Exec.Fallible
use pub_crawler.Json.{Value}

-- a URL's parts, with whether its query has a field `page`
pub record Parts : Type 0 where
  pub netloc : String
  pub path : String
  pub query : String
  pub paged : Bool

pub record Response : Type 0 where
  pub status : ℕ
  pub header : String → Option String
  pub content : String

abbrev pub max_recursions : ℕ
max_recursions = 20

abbrev pub Headers : Type 0
Headers = List (String × String)

-- `sep.join(...)`
unfoldable pub join : String → List String → String
join sep [] = ""
join sep (s ∷ []) = s
join sep (s ∷ t ∷ ss) = s ++ (sep ++ join sep (t ∷ ss))

-- `value.replace('"', '\\"')`
unfoldable pub escape : String → String
escape value = replace_from 0 "\"" "\\\"" value

format_fields : Headers → List String
format_fields [] = []
format_fields ((name, value) ∷ rest) =
    (name ++ ("=\"" ++ (escape value ++ "\""))) ∷ format_fields rest

unfoldable pub format_header : Headers → String
unfolding format_fields
format_header fields = join "," (format_fields fields)

module _ (lower : String → String) where
  lower_names : Headers → List String
  lower_names [] = []
  lower_names ((name, value) ∷ rest) = lower name ∷ lower_names rest

  unfoldable pub header_string : Headers → String
  unfolding lower_names
  header_string headers = join " " ("(request-target)" ∷ lower_names headers)

  header_lines : Headers → List String
  header_lines [] = []
  header_lines ((name, value) ∷ rest) = (lower name ++ (": " ++ value)) ∷ header_lines rest

  path_part : Parts → String
  path_part parts =
      if str_eq parts.query ""
      then (if str_eq parts.path "" then "/" else parts.path)
      else parts.path ++ ("?" ++ parts.query)

  unfoldable pub signing_string : Parts → String → Headers → String
  unfolding header_lines path_part
  signing_string parts method headers =
      join "\n" (
        ("(request-target): " ++ (lower method ++ (" " ++ path_part parts))) ∷ header_lines headers)

  unfoldable pub signature_header : (String → String) → Parts → String → Headers → String → String
  signature_header sign parts method headers key_id = format_header (
      ("keyId", key_id)
      ∷ ("algorithm", "rsa-sha256")
      ∷ ("headers", header_string headers)
      ∷ ("signature", sign (signing_string parts method headers))
      ∷ [])

ends_with : String → String → Bool
ends_with suffix String.[] = str_eq suffix ""
ends_with suffix (String.◌∷◌ c s) = str_eq (String.◌∷◌ c s) suffix || ends_with suffix s

first_part : List String → String
first_part [] = ""
first_part (s ∷ ss) = s

unfoldable pub check_type : Option String → Result (Unit {0})
unfolding ends_with first_part
check_type none = raised value_error
check_type (some t) =
    let base = first_part (split b';' 1 t) in
    if str_eq t ""
    then raised value_error
    else if ends_with "+json" base || str_eq base "application/json"
    then ok tt
    else raised value_error

-- `response.raise_for_status()`
unfoldable pub raise_for_status : ℕ → Result (Unit {0})
raise_for_status n = if leb 200 n && ltb n 300 then ok tt else raised (http_status n)

abbrev pub Answer : Type 0
Answer = Value × (String → Option String)

-- what a client uses, acting on a state of its own
pub record Network (S : Type 0) : Type 0 where
  pub paged : String → Exec S Unit
  pub general : String → Exec S Unit
  pub burst : String → Exec S Unit
  pub urlsplit : String → Result Parts
  pub urljoin : String → String → Result String
  pub loads : String → Result Value
  pub send : String → Headers → Exec S Response
  pub lower : String → String
  pub sign : String → String
  pub key_id : String
  pub date : Exec S String

module _ {S : Type 0} (net : Network S) where
  open net use {paged, general, burst, urlsplit, urljoin, loads, send, lower, sign, key_id, date}

  to_sign : String → Parts → Headers
  to_sign now parts =
      ("Date", now)
      ∷ ("Host", parts.netloc)
      ∷ ("User-Agent", "crawler.pub/0.16.4 (https://crawler.pub/; evanp@gatech.edu)")
      ∷ []

  with_last : Headers → Headers → Headers
  with_last [] more = more
  with_last (h ∷ hs) more = h ∷ with_last hs more

  request_headers : String → Parts → Headers
  unfolding to_sign with_last
  request_headers now parts = with_last (to_sign now parts) (
      ("Signature", signature_header lower sign parts "GET" (to_sign now parts) key_id)
      ∷ (
        "Accept",
        "application/activity+json;q=1.0,application/ld+json;q=0.8,application/json;q=0.5",
      )
      ∷ [])

  acquire_all : Parts → Exec S Unit
  acquire_all parts =
      (if parts.paged then paged ("https://" ++ parts.netloc) else pure tt)
      >> general ("https://" ++ parts.netloc)
      >> burst ("https://" ++ parts.netloc)

  read_body : Response → Result Answer
  read_body response = elim (raise_for_status response.status) [
    | raised e ↦ raised e
    | ok _ ↦ elim (check_type (response.header "content-type")) [
      | raised e ↦ raised e
      | ok _ ↦ elim (loads response.content) [
        | raised e ↦ raised e
        | ok doc ↦ ok (doc, response.header)
      ]
    ]
  ]

  -- where a redirect leads to, with what is done there, if redirects are left
  redirect : Option (String → Exec S Answer) → String → Option String → Exec S Answer
  redirect none url location = raise too_many_redirects
  redirect (some again) url none = raise (exception "No Location header for redirect")
  redirect (some again) url (some location) = lift (urljoin url location) >>= again

  on_response : Option (String → Exec S Answer) → String → Response → Exec S Answer
  unfolding redirect read_body
  on_response again url response =
      if leb 300 response.status && ltb response.status 400
      then redirect again url (response.header "location")
      else lift (read_body response)

  one_request : Option (String → Exec S Answer) → String → Exec S Answer
  unfolding request_headers acquire_all on_response
  one_request again url = lift (urlsplit url) >>= λ parts. date >>= λ now.
      acquire_all parts >>= λ _.
      send url (request_headers now parts) >>= λ response. on_response again url response

  -- `_get_with_headers`
  unfoldable pub get_from : ℕ → String → Exec S Answer
  unfolding one_request
  get_from zero url = one_request none url
  get_from (suc left) url = one_request (some (get_from left)) url

  unfoldable pub get_with_headers : String → Exec S Answer
  get_with_headers url = get_from max_recursions url
