-- ===== src/Recovery.antt =====
-- bin/recover_failed.py: failed jobs are put into the queue again. What SCAN yields in a run and
-- `urlparse(...).hostname`, a text or None, are arguments. `now` is what the clock reads when so many
-- jobs have been recovered.
pub mod Choice
pub mod Failed
pub mod Status
pub mod Depths
pub mod Growth
pub mod Actors
use pub_crawler.Base.{String, ℕ, ◌+◌, Bool, true, false, ◌||◌, List, [], ◌∷◌, str_eq, if◌then◌else◌}
use pub_crawler.Exec.{Result, ok, raised, type_error, Exec, pure, lift, ◌>>=◌, ◌>>◌}
use pub_crawler.Json.{Value}
use pub_crawler.Redis.{Redis}
use pub_crawler.Platform.{Platform}
use pub_crawler.Dispatcher.{Dispatcher}
use pub_crawler.Dispatcher
use pub_crawler.Graph.Queries
use pub_crawler.Recovery.Choice.{hashed, is_recoverable}
use pub_crawler.World.{Setting, World, on_jobs, on_graph}

module _ (r : Redis) (p : Platform) where
  unfoldable pub requeue : ℕ → Value → Exec (Dispatcher r) ℕ
  requeue now job = do Dispatcher.enqueue r p now job; _ ← Dispatcher.unfail r p job; pure 1

  module _ (hostname_of : Value → Result Value) (hostnames : List Value) (now : ℕ → ℕ) where
    unfoldable pub recover_job : ℕ → Value → Exec (Dispatcher r) ℕ
    recover_job reading job = do
      b ← lift (is_recoverable hostname_of hostnames job)
      if b then requeue reading job else pure 0

    -- the loop over what `failed` yields
    unfoldable pub recover_jobs : ℕ → List String → Exec (Dispatcher r) ℕ
    recover_jobs count [] = pure count
    recover_jobs count (text ∷ scan) = do
      job ← lift (p.loads text)
      n ← recover_job (now count) job
      recover_jobs (count + n) scan

module _ (w : Setting) (hostname_of : Value → Result Value) (now : ℕ → ℕ) where
  unfoldable pub recover_failed : List String → Exec (World w) ℕ
  recover_failed scan = do
    values ← on_graph w (Queries.node_property_values w.ids w.labels w.postgres "hostname")
    hostnames ← lift (hashed values)
    on_jobs w (recover_jobs w.redis w.platform hostname_of hostnames now 0 scan)
