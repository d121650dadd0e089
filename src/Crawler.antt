-- ===== src/Crawler.antt =====
-- pub_crawler/crawler.py: the loop of a worker, and the reaper. The tasks themselves, their start and
-- their cancellation, are asyncio's. The clock is read in each round; what is logged is left out.
-- While a round waits for Redis, other tasks run.
pub mod Work
use pub_crawler.Base.{
  ℕ, zero, suc, ◌+◌, ◌*◌, ◌/◌, ◌^◌, ◌-◌, Bool, true, false, Option, none, some, List, [], ◌∷◌, ltb,
  if◌then◌else◌,
}
use pub_crawler.Exec.{Result, ok, raised, Exec, pure, catch, gets, modify, ◌>>=◌, ◌>>◌}
use pub_crawler.Json.{Value}
use pub_crawler.Dispatcher
use pub_crawler.World.{Setting, World, on_jobs}

abbrev pub base_sleep : ℕ
base_sleep = 100

abbrev pub max_failures : ℕ
max_failures = 20

-- `dispatcher_failures` beside what the worker acts on
pub record Working (w : Setting) : Type 0 where
  pub world : World w
  pub failures : ℕ

-- What a round of the worker's loop comes to: `continue` or the end of the body, `break`, `return`,
-- a sleep after a number of failures, or a call of `get` that waits.
pub data Round : Type 0 where
  again finished gave_up at_get : Round
  asleep : ℕ → Round

-- The milliseconds to sleep for after failure number `n`, where `rand` is in hundredths.
unfoldable pub sleep_time : ℕ → ℕ → ℕ
sleep_time n rand = (base_sleep * (2 ^ (n - 1)) * (50 + rand)) / 100

module _ (w : Setting) where
  abbrev pub on_world : {A : Type 0} → Exec (World w) A → Exec (Working w) A
  on_world m s = let (a, world) = m s.world in (a, record s { world = world })

  module _ (handle : Value → Exec (World w) Unit) where
    -- the inner `try`, and then `done`
    unfoldable pub work_on : Value → Exec (World w) Unit
    work_on job = do
      handled ←
          catch (handle job >> pure true)
            (λ e. on_jobs w (Dispatcher.fail w.redis w.platform job) >> pure false)
      if handled then on_jobs w (Dispatcher.done w.redis w.platform job) else pure tt

    with_job : Option Value → Exec (Working w) Round
    with_job none = pure finished
    with_job (some job) = do on_world (work_on job); pure again

    -- A call that waits leaves the count of failures as it is.
    unfoldable pub after_get : Dispatcher.Got → Exec (Working w) Round
    unfolding with_job
    after_get Dispatcher.waiting = pure at_get
    after_get (Dispatcher.returned job) = do modify (λ s. record s { failures = 0 }); with_job job

    -- the body of the outer `try`
    unfoldable pub attempt : ℕ → Exec (Working w) Round
    unfolding after_get
    attempt now = do
      got ← on_world (on_jobs w (Dispatcher.get w.redis w.platform now))
      after_get got

    after_failure : Exec (Working w) Round
    after_failure = do
      modify (λ s. record s { failures = suc s.failures })
      n ← gets (λ s. s.failures)
      if ltb max_failures n then pure gave_up else pure (asleep n)

    -- a round of the loop
    unfoldable pub work : ℕ → Exec (Working w) Round
    unfolding after_failure
    work now = catch (attempt now) (λ e. after_failure)

    -- the rest of a round whose call of `get` waited
    unfoldable pub resume : ℕ → Exec (Working w) Round
    unfolding after_failure after_get
    resume now =
        catch (do got ← on_world (on_jobs w (Dispatcher.pop w.redis w.platform now)); after_get got)
          (λ e. after_failure)

    -- `rest` takes whether the worker waits in `get`
    continue_worker :
        (Bool → Working w → Option (Working w)) → Result Round × Working w → Option (Working w)
    continue_worker rest (ok again, s) = rest false s
    continue_worker rest (ok (asleep n), s) = rest false s
    continue_worker rest (ok at_get, s) = rest true s
    continue_worker rest (ok finished, s) = some s
    continue_worker rest (ok gave_up, s) = some s
    continue_worker rest (raised e, s) = some s

    -- The loop, on fuel: none where the worker still runs after so many rounds. `others i` is what
    -- other tasks do to the world before round `i`.
    unfoldable pub worker :
        ℕ → (ℕ → ℕ) → (ℕ → World w → World w) → Bool → Working w → Option (Working w)
    unfolding continue_worker
    worker zero clock others waits s = none
    worker (suc fuel) clock others waits s =
        let s = record s { world = others 0 s.world } in
        continue_worker (λ waits s. worker fuel (λ i. clock (suc i)) (λ i. others (suc i)) waits s)
          (if waits then resume (clock 0) s else work (clock 0) s)

  -- The jobs are enqueued one after the other, each at the clock's next reading.
  unfoldable pub reap_jobs : (ℕ → ℕ) → List Value → Exec (World w) Unit
  reap_jobs clock [] = pure tt
  reap_jobs clock (job ∷ jobs) = do
    on_jobs w (Dispatcher.enqueue w.redis w.platform (clock 0) job)
    reap_jobs (λ i. clock (suc i)) jobs

  unfoldable pub reap : (ℕ → ℕ) → Exec (World w) Unit
  reap clock = do
    jobs ← on_jobs w (Dispatcher.expired w.redis w.platform (clock 0))
    reap_jobs (λ i. clock (suc i)) jobs

  -- A round of the reaper's loop, which never raises; it sleeps for the time a job may be in flight.
  unfoldable pub reap_round : (ℕ → ℕ) → Exec (World w) ℕ
  reap_round clock = do catch (reap clock) (λ e. pure tt); pure Dispatcher.max_inflight
