-- ===== src/Handlers/Webfinger.antt =====
-- pub_crawler/webfinger_handler.py, and pub_crawler/handler.py, the handler that does nothing
use pub_crawler.Base.{String, ℕ, List, if◌then◌else◌}
use pub_crawler.Base.Int.{pos}
use pub_crawler.Exec.{Result, Exec, pure, lift, ◌>>=◌, ◌>>◌}
use pub_crawler.Json.{Value, null, int}
use pub_crawler.Json.Python.{truthy, as_label}
use pub_crawler.Job.{index}
use pub_crawler.Graph.Properties
use pub_crawler.World.{Setting, World, on_graph}
use pub_crawler.Handlers.{ensure_node, get_node_property, enqueue_if_unseen, actor_job_at}

module _ (w : Setting) where
  -- `Handler.handle`
  unfoldable pub handle_nothing : Value → Exec (World w) Unit
  handle_nothing job = pure tt

module _ (w : Setting) (order : List String → List String) (now : ℕ)
    (actor_of : Value → Result Value) where
  start_depth : String → Value → Exec (World w) Unit
  start_depth actor_id null =
      on_graph w
        (Properties.set_node_property w.ids w.labels w.postgres actor_id "depth" (int (pos 0)))
  start_depth actor_id depth = pure tt

  unfoldable pub handle : Value → Exec (World w) Unit
  unfolding start_depth
  handle job = do
    wf ← lift (index job "webfinger")
    actor_value ← lift (actor_of wf)
    actor_id ← lift (as_label actor_value)
    ensure_node w order now actor_id
    depth ← get_node_property w order now actor_id "depth"
    start_depth actor_id depth
    last_fetch_date ← get_node_property w order now actor_id "last_fetch_date"
    if truthy last_fetch_date
        then pure tt
        else (do _ ← enqueue_if_unseen w order now (actor_job_at actor_id (int (pos 0))); pure tt)
