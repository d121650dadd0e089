-- ===== src/SurveyHosts.antt =====
-- bin/survey_hosts.py. `urlparse(...).hostname`, the order in which Python goes through a set of
-- texts, the cutoff and `datetime.fromisoformat` are arguments, and so are what the graph yields and
-- what a survey gives. Hosts are surveyed one after another: the workers' rounds follow in any order.
pub mod Given
pub mod Worker
pub mod Selection
pub mod Seeding
use mathlib.Core.List.{◌++◌}
use pub_crawler.Base.{
  String, ℕ, suc, ◌+◌, Bool, true, false, Option, none, some, List, [], ◌∷◌, leb, ltb, length,
  if◌then◌else◌, str_eq,
}
use pub_crawler.Exec.{
  Result, ok, raised, type_error, value_error, Error, Exec, pure, raise, lift, catch, ◌>>=◌, ◌>>◌,
}
use pub_crawler.Json.{Value, Dict, null, str, dict, empty, entry, get}
use pub_crawler.Json.Python.{contains_key}
use pub_crawler.Platform.{Platform}
use pub_crawler.Graph.Libraries.{Lru, Postgres}
use pub_crawler.Handlers.{unique}
use pub_crawler.HostSurvey.{
  HostSurvey, Act, ensure_hosts, all_hosts, delete_host_properties, set_host_properties,
}

abbrev pub seed_hosts_batch_limit : ℕ
seed_hosts_batch_limit = 1000

abbrev pub is_null : Value → Bool
is_null null = true
is_null _ = false

-- `[k for k, v in props.items() if v is None]`
unfoldable pub null_names : Dict → List String
null_names empty = []
null_names (entry k v d) = let rest = null_names d in if is_null v then k ∷ rest else rest

-- `{k: v for k, v in props.items() if v is not None}`
unfoldable pub not_null : Dict → Dict
not_null empty = empty
not_null (entry k v d) = let rest = not_null d in if is_null v then rest else entry k v rest

-- a time with an offset from UTC, as the milliseconds since 1970, or without one
pub data Moment : Type 0 where
  aware : ℕ → Moment
  naive : Moment

-- `fetched < cutoff`, where the cutoff is in UTC
abbrev before : Moment → ℕ → Result Bool
before (aware ms) cutoff = ok (ltb ms cutoff)
before naive cutoff = raised type_error

-- the hostnames of the actors' labels that have one
unfoldable pub hostnames_of : (String → Option String) → List (ℕ × String × Value) → List String
hostnames_of hostname [] = []
hostnames_of hostname ((id, label, props) ∷ rows) =
    let rest = hostnames_of hostname rows in
    elim (hostname label) [ none ↦ rest | some h ↦ h ∷ rest ]

module _ (parse : String → Result Moment) (cutoff : ℕ) where
  -- `datetime.fromisoformat(props["last_fetch_date"])`, of a text or of any other value
  fetched_at : Value → Result Moment
  fetched_at (str s) = parse s
  fetched_at v = raised type_error

  -- ValueErrors and TypeErrors are caught
  due : Result Moment → Result Bool
  due (ok m) = before m cutoff
  due (raised value_error) = ok true
  due (raised type_error) = ok true
  due (raised e) = raised e

  due_at : Option Value → Result Bool
  unfolding due fetched_at
  due_at none = ok true
  due_at (some v) = due (fetched_at v)

  -- whether a host with these properties is to be surveyed
  unfoldable pub is_due : Value → Result Bool
  unfolding due_at
  is_due (dict props) = due_at (get props "last_fetch_date")
  is_due props = raised type_error

  -- `limit is not None and len(to_survey) >= limit`
  unfoldable pub is_full : Option ℕ → List String → Bool
  is_full none names = false
  is_full (some n) names = leb n (length names)

  -- the loop over the rows of `all_hosts`, with the hosts that it has gathered
  unfoldable pub gather : Option ℕ → List String → List (ℕ × String × Value) → Result (List String)
  gather limit to_survey [] = ok to_survey
  gather limit to_survey ((id, hostname, props) ∷ rows) = elim (is_due props) [
    | raised e ↦ raised e
    | ok b ↦
        let gathered = (if b then to_survey ++ (hostname ∷ []) else to_survey) in
        let rest = gather limit gathered rows in
        if is_full limit gathered then ok gathered else rest
  ]

module _ (hosts : Lru String ℕ) {p : Platform} (pg : Postgres p) where
  -- the loop over the set of hostnames, with the batch that it has gathered
  unfoldable pub ensure_batches : List String → List String → Act hosts Unit
  ensure_batches [] [] = pure tt
  ensure_batches (b ∷ batch) [] = ensure_hosts hosts pg (b ∷ batch)
  ensure_batches batch (name ∷ names) =
      let full = (do ensure_hosts hosts pg (batch ++ (name ∷ [])); ensure_batches [] names) in
      let more = ensure_batches (batch ++ (name ∷ [])) names in
      if leb seed_hosts_batch_limit (length (batch ++ (name ∷ []))) then full else more

  unfoldable pub seed_hosts_from_nodes :
      (String → Option String)
      → (List String → List String)
      → List (ℕ × String × Value)
      → Act hosts Unit
  seed_hosts_from_nodes hostname order rows =
      ensure_batches [] (order (unique (hostnames_of hostname rows)))

  -- a round of the loop of `survey_worker`, with the name that the queue gives it and what the
  -- surveyor gives for it
  unfoldable pub survey_round : String → Dict → Act hosts Unit
  survey_round hostname props =
      catch
        (delete_host_properties hosts hostname (null_names props)
          >> set_host_properties hosts pg hostname (not_null props))
        (λ e. pure tt)

  -- the rounds of all workers
  unfoldable pub survey_rounds : (String → Dict) → List String → Act hosts Unit
  survey_rounds survey [] = pure tt
  survey_rounds survey (hostname ∷ names) = do
    survey_round hostname (survey hostname)
    survey_rounds survey names

  unfoldable pub survey_hosts :
      (String → Result Moment) → ℕ → Option ℕ → (String → Dict) → Act hosts ℕ
  survey_hosts parse cutoff limit survey = do
    rows ← all_hosts hosts pg
    to_survey ← lift (gather parse cutoff limit [] rows)
    survey_rounds survey to_survey
    pure (length to_survey)
