-- ===== src/Job.antt =====
-- pub_crawler/job_id.py: the identity of a job, and how Python reads a job's fields.
pub mod Identity
use mathlib.Core.Option
use pub_crawler.Base.{String, ◌++◌, Bool, Option, none, some, ◌&&◌, if◌then◌else◌, str_eq}
use pub_crawler.Base.Int.{ℤ}
use pub_crawler.Exec.{Result, ok, raised, key_error, type_error, attribute_error}
use pub_crawler.Json.{
  Value, Dict, null, bool, int, float, str, list, dict, empty, entry, get, has_key, as_str,
}

-- `v == "..."`
abbrev pub is_text : Value → String → Bool
is_text (str s) t = str_eq s t
is_text _ t = Bool.false

-- `f"{v}"`
unfoldable pub format : (Value → String) → Value → String
format text_of (str s) = s
format text_of v = text_of v

-- `job[k]`
unfoldable pub index : Value → String → Result Value
index (dict d) k = elim (get d k) [ none ↦ raised (key_error k) | some v ↦ ok v ]
index _ k = raised type_error

-- `job.get(k, default)`
unfoldable pub get_or : Value → String → Value → Result Value
get_or (dict d) k v = elim (get d k) [ none ↦ ok v | some w ↦ ok w ]
get_or _ k v = raised attribute_error

id_with : (Value → String) → String → String → Dict → Option String
id_with text_of job_type key d = Option.map (λ v. job_type ++ (":" ++ format text_of v)) (get d key)

id_of_type : (Value → String) → Value → Dict → Option String
id_of_type text_of job_type d =
    if is_text job_type "actor" && has_key d "actor_id"
    then id_with text_of "actor" "actor_id" d
    else if is_text job_type "webfinger" && has_key d "webfinger"
    then id_with text_of "webfinger" "webfinger" d
    else if is_text job_type "collection" && has_key d "collection_id"
    then id_with text_of "collection" "collection_id" d
    else if is_text job_type "page" && has_key d "page_id"
    then id_with text_of "page" "page_id" d
    else none

unfoldable pub job_id : (Value → String) → Value → Option String
unfolding id_with id_of_type format
job_id text_of (dict d) = elim (get d "job_type") [
  | none ↦ none
  | some job_type ↦ id_of_type text_of job_type d
]
job_id text_of _ = none

-- The jobs that the handlers make.
unfoldable pub actor_job : String → ℤ → Value
actor_job id depth =
    dict
      (entry "job_type" (str "actor") (entry "actor_id" (str id) (entry "depth" (int depth) empty)))

unfoldable pub collection_job : String → String → String → ℤ → Value
collection_job id owner direction depth = dict (
    entry "job_type" (str "collection") (
      entry "collection_id" (str id) (
        entry "owner_id" (str owner)
          (entry "direction" (str direction) (entry "depth" (int depth) empty)))))

unfoldable pub page_job : String → String → String → ℤ → Value
page_job id owner direction depth = dict (
    entry "job_type" (str "page") (
      entry "page_id" (str id) (
        entry "owner_id" (str owner)
          (entry "direction" (str direction) (entry "depth" (int depth) empty)))))

unfoldable pub webfinger_job : String → Value
webfinger_job wf = dict (entry "job_type" (str "webfinger") (entry "webfinger" (str wf) empty))
