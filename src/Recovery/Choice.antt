-- ===== src/Recovery/Choice.antt =====
-- bin/recover_failed.py: which of the failed jobs are recovered.
use pub_crawler.Base.{Bool, true, false, ◌||◌, List, [], ◌∷◌, str_eq, if◌then◌else◌}
use pub_crawler.Exec.{Result, ok, raised, type_error}
use pub_crawler.Exec.Fallible.{◌>>=◌}
use pub_crawler.Json.{Value, null, str, list, dict}
use pub_crawler.Job.{index, is_text}

-- the values of a set: an object or a list cannot be in one
unfoldable pub hashed : List Value → Result (List Value)
hashed [] = ok []
hashed (list vs ∷ values) = raised type_error
hashed (dict d ∷ values) = raised type_error
hashed (v ∷ values) = elim (hashed values) [ raised e ↦ raised e | ok rest ↦ ok (v ∷ rest) ]

same_host : Value → Value → Bool
same_host (str s) (str t) = str_eq s t
same_host null null = true
same_host _ _ = false

-- `hostname in hostnames`
unfoldable pub is_known : List Value → Value → Bool
unfolding same_host
is_known [] host = false
is_known (v ∷ hostnames) host = same_host v host || is_known hostnames host

module _ (hostname_of : Value → Result Value) (hostnames : List Value) where
  actor_known : Value → Result Bool
  actor_known job = do
    actor_id ← index job "actor_id"
    host ← hostname_of actor_id
    ok (is_known hostnames host)

  -- whether the job is recovered
  unfoldable pub is_recoverable : Value → Result Bool
  unfolding actor_known
  is_recoverable job = do
    job_type ← index job "job_type"
    if is_text job_type "page" || is_text job_type "collection"
        then ok true
        else if is_text job_type "actor"
        then actor_known job
        else ok false
