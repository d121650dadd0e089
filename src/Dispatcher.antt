-- ===== src/Dispatcher.antt =====
-- pub_crawler/dispatcher.py: the queue of jobs, the jobs in flight, the failed jobs and the hashes
-- of the jobs seen, all kept in Redis. `now` is what the clock reads when the method asks for it.
mod Member
pub mod Codec
pub mod View
pub mod Methods
pub mod Invariant
pub mod Runs
pub mod Priority
pub mod Lifecycle
pub mod Expiry
pub mod Draining
pub mod Offered
unfoldable pub use Member.{
  clamp, type_code, or_no_jid, iso_utc, member_text, job_to_member, member_to_job, job_to_hash,
}
use pub_crawler.Base.{
  String, ℕ, ◌+◌, ◌*◌, ◌/◌, Bool, true, false, Option, none, some, List, [], ◌∷◌, ltb, ◌==◌, ◌||◌,
  if◌then◌else◌, str_eq,
}
use pub_crawler.Exec.{
  Result, ok, raised, exception, Exec, pure, raise, lift, gets, act, modify, ◌>>=◌, ◌>>◌,
}
use pub_crawler.Json.{Value, str}
use pub_crawler.Redis.{Redis}
use pub_crawler.Platform.{Platform}
use pub_crawler.Job.{index}

abbrev pub queue_key : String
queue_key = "pub_crawler:queue"

abbrev pub inflight_key : String
inflight_key = "pub_crawler:inflight"

abbrev pub failed_key : String
failed_key = "pub_crawler:failed"

abbrev pub seen_key : String
seen_key = "pub_crawler:seen"

abbrev pub seen_hashed_key : String
seen_hashed_key = "pub_crawler:seen_hashed"

abbrev pub max_clients : ℕ
max_clients = 25

abbrev pub time_per_job : ℕ
time_per_job = 100

-- in milliseconds
abbrev pub max_inflight : ℕ
max_inflight = 15 * 60 * 1000

pub record Dispatcher (r : Redis) : Type 0 where
  pub store : r.Store
  pub stopped : Bool

-- what has become of a call of `get`: it has returned a job or None, or it waits for Redis to answer
pub data Got : Type 0 where
  returned : Option Value → Got
  waiting : Got

module _ (r : Redis) (p : Platform) where
  abbrev command : (r.Store → r.Store) → Exec (Dispatcher r) Unit
  command f = modify (λ d. record d { store = f d.store })

  abbrev query : {A : Type 0} → (r.Store → A) → Exec (Dispatcher r) A
  query f = gets (λ d. f d.store)

  abbrev reply : {A : Type 0} → (r.Store → A × r.Store) → Exec (Dispatcher r) A
  reply f = act (λ d. let (a, s) = f d.store in (a, record d { store = s }))

  -- `_job_to_score`
  abbrev job_to_score : Value → ℕ
  job_to_score job = 0

  unfoldable pub add_inflight : ℕ → Value → Exec (Dispatcher r) Unit
  add_inflight now job = do
    let expected = now + max_inflight
    text ← lift (p.dumps job)
    command (r.hset inflight_key text expected)

  unfoldable pub remove_inflight : Value → Exec (Dispatcher r) Unit
  remove_inflight job = do text ← lift (p.dumps job); command (r.hdel inflight_key text)

  unfoldable pub enqueue : ℕ → Value → Exec (Dispatcher r) Unit
  unfolding remove_inflight
  enqueue now job = do
    remove_inflight job
    let score = job_to_score job
    member ← lift (job_to_member p now job)
    command (r.zadd queue_key member score)
    hash ← lift (job_to_hash p job)
    _ ← reply (r.sadd seen_hashed_key hash)
    pure tt

  unfoldable pub enqueue_if_unseen : ℕ → Value → Exec (Dispatcher r) Bool
  enqueue_if_unseen now job = do
    hash ← lift (job_to_hash p job)
    added ← reply (r.sadd seen_hashed_key hash)
    if added == 1
        then (do
          let score = job_to_score job
          member ← lift (job_to_member p now job)
          command (r.zadd queue_key member score)
          pure true)
        else pure false

  unfoldable pub got : ℕ → Option (Option (String × ℕ)) → Exec (Dispatcher r) Got
  unfolding add_inflight
  got now none = pure waiting
  got now (some none) = raise (exception "Empty queue")
  got now (some (some (member, score))) = do
    job ← lift (member_to_job p member)
    add_inflight now job
    pure (returned (some job))

  -- The body of the loop of `get`, where a call that waits goes on once Redis can answer.
  unfoldable pub pop : ℕ → Exec (Dispatcher r) Got
  unfolding got
  pop now = do popped ← reply (r.bzpopmin queue_key); got now popped

  -- The loop ends in its first round.
  unfoldable pub get : ℕ → Exec (Dispatcher r) Got
  get now = do stopped ← gets (λ d. d.stopped); if stopped then pure (returned none) else pop now

  unfoldable pub done : Value → Exec (Dispatcher r) Unit
  unfolding remove_inflight
  done job = remove_inflight job

  -- One round of `join`: the time to sleep for, or none where the loop ends.
  unfoldable pub join_round : Exec (Dispatcher r) (Option ℕ)
  join_round = do
    job_count ← query (r.zcard queue_key)
    inflight_count ← query (r.hlen inflight_key)
    if ltb 0 job_count || ltb 0 inflight_count
        then pure (some (((job_count + inflight_count) * time_per_job) / max_clients))
        else pure none

  -- `map(self._str_to_job, ...)`
  unfoldable pub strs_to_jobs : List String → Result (List Value)
  strs_to_jobs [] = ok []
  strs_to_jobs (s ∷ ss) = elim (p.loads s) [
    | raised e ↦ raised e
    | ok job ↦ elim (strs_to_jobs ss) [ raised e ↦ raised e | ok jobs ↦ ok (job ∷ jobs) ]
  ]

  unfoldable pub inflight : Exec (Dispatcher r) (List Value)
  inflight = do keys ← query (r.hkeys inflight_key); lift (strs_to_jobs keys)

  unfoldable pub expired_keys : ℕ → List (String × ℕ) → List String
  expired_keys now [] = []
  expired_keys now ((jobstr, expiry) ∷ rest) =
      if ltb expiry now then jobstr ∷ expired_keys now rest else expired_keys now rest

  unfoldable pub expired : ℕ → Exec (Dispatcher r) (List Value)
  unfolding expired_keys
  expired now = do
    fields ← query (r.hgetall inflight_key)
    lift (strs_to_jobs (expired_keys now fields))

  unfoldable pub fail : Value → Exec (Dispatcher r) Unit
  unfolding remove_inflight
  fail job = do
    remove_inflight job
    text ← lift (p.dumps job)
    _ ← reply (r.sadd failed_key text)
    pure tt

  unfoldable pub failed : Exec (Dispatcher r) (List Value)
  failed = do members ← query (r.smembers failed_key); lift (strs_to_jobs members)

  unfoldable pub unfail : Value → Exec (Dispatcher r) ℕ
  unfail job = do text ← lift (p.dumps job); reply (r.srem failed_key text)

  unfoldable pub stop : Exec (Dispatcher r) Unit
  stop = modify (λ d. record d { stopped = true })

  unfoldable pub seen : Value → Exec (Dispatcher r) Bool
  seen job = do hash ← lift (job_to_hash p job); query (λ s. r.sets s seen_hashed_key hash)

-- The registry of handlers by job type, a dictionary.
module _ {H : Type 0} where
  unfoldable pub handler_for : String → List (String × H) → Option H
  handler_for t [] = none
  handler_for t ((u, h) ∷ hs) = if str_eq u t then some h else handler_for t hs

  unfoldable pub set_handler : String → H → List (String × H) → List (String × H)
  set_handler t h [] = (t, h) ∷ []
  set_handler t h ((u, g) ∷ hs) = if str_eq u t then (t, h) ∷ hs else (u, g) ∷ set_handler t h hs

  find_handler : Value → List (String × H) → Result H
  find_handler (str t) hs = elim (handler_for t hs) [
    | none ↦ raised (exception "No handler for type")
    | some h ↦ ok h
  ]
  find_handler _ hs = raised (exception "No handler for type")

  unfoldable pub get_handler : List (String × H) → Value → Result H
  unfolding find_handler
  get_handler hs job = elim (index job "job_type") [
    | raised e ↦ raised e
    | ok t ↦ find_handler t hs
  ]

-- `dispatch`, for handlers that act on a state of their own
unfoldable pub dispatch : {S : Type 0} → List (String × (Value → Exec S Unit)) → Value → Exec S Unit
unfolding get_handler
dispatch handlers job = do handler ← lift (get_handler handlers job); handler job
