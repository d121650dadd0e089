-- ===== src/Dispatcher/Member.antt =====
-- pub_crawler/dispatcher.py: how a job is written as a member of the queue, and read back.
use pub_crawler.Base.{
  String, ℕ, ◌++◌, ◌*◌, ◌^◌, true, false, Option, none, some, List, [], ◌∷◌, ltb, min, max,
  if◌then◌else◌,
}
use pub_crawler.Base.Int.{pos, negsuc}
use pub_crawler.Base.Text.{split, replace_from, format_02d, format_hex}
use pub_crawler.Exec.{Result, ok, raised, exception, type_error, value_error}
use pub_crawler.Exec.Fallible.{◌>>=◌}
use pub_crawler.Json.{Value, null, bool, int, float}
use pub_crawler.Platform.{Platform}
use pub_crawler.Job.{job_id, is_text, get_or}

-- `max(min(v, 99), 0)`, where the comparisons are defined, and the number that `:02d` then writes:
-- it takes an int or a bool, and a float only where the clamp has put an int in its place.
unfoldable pub clamp : Value → Result ℕ
clamp (int (pos n)) = ok (min n 99)
clamp (int (negsuc n)) = ok 0
clamp (bool true) = ok 1
clamp (bool false) = ok 0
clamp (float (pos m) k) = if ltb (99 * 2 ^ k) m then ok 99 else raised value_error
clamp (float (negsuc m) k) = ok 0
clamp _ = raised type_error

unfoldable pub type_code : Value → Result ℕ
type_code v =
    if is_text v "webfinger"
    then ok 10
    else if is_text v "actor"
    then ok 20
    else if is_text v "collection"
    then ok 30
    else if is_text v "page"
    then ok 40
    else raised (exception "unrecognized job type")

unfoldable pub or_no_jid : Option String → Result String
or_no_jid none = raised (exception "No jid for job")
or_no_jid (some jid) = ok jid

five : List String → Result String
five (_ ∷ _ ∷ _ ∷ _ ∷ job ∷ []) = ok job
five _ = raised value_error

module _ (p : Platform) where
  open p use {text_of, dumps, loads, crc32, blake2b, isoformat}

  unfoldable pub iso_utc : ℕ → String
  iso_utc ms = replace_from 0 "+00:00" "Z" (isoformat ms)

  unfoldable pub member_text : ℕ → ℕ → ℕ → String → String → String
  member_text depth code crc ts job =
      format_02d depth
      ++ ("|" ++ (format_02d code ++ ("|" ++ (format_hex 8 crc ++ ("|" ++ (ts ++ ("|" ++ job)))))))

  unfoldable pub job_to_member : ℕ → Value → Result String
  job_to_member now job = do
    depth ← get_or job "depth" (int (pos 0))
    job_type ← get_or job "job_type" null
    code ← type_code job_type
    let ts = iso_utc now
    jid ← or_no_jid (job_id text_of job)
    let crc = crc32 jid
    depth ← clamp depth
    text ← dumps job
    ok (member_text depth (max (min code 99) 0) crc ts text)

  unfoldable pub member_to_job : String → Result Value
  unfolding five
  member_to_job member = do job ← five (split b'|' 4 member); loads job

  unfoldable pub job_to_hash : Value → Result String
  job_to_hash job = do jid ← or_no_jid (job_id text_of job); ok (blake2b jid)
