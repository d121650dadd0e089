-- ===== src/Handlers/Page.antt =====
-- pub_crawler/page_handler.py
use pub_crawler.Base.{String, ℕ, Bool, true, false, ◌++◌, Option, none, some, List, if◌then◌else◌}
use pub_crawler.Base.Int.{pos}
use pub_crawler.Exec.{Result, Exec, pure, lift, ◌>>=◌, ◌>>◌}
use pub_crawler.Json.{Value, Dict, null, bool, int, str, dict, empty, entry, put}
use pub_crawler.Json.Python.{truthy, contains_key, as_label}
use pub_crawler.Job.{index, get_or, format}
use pub_crawler.World.{Setting, World}
use pub_crawler.Handlers.{
  ensure_node, set_node_properties, enqueue_if_unseen, handle_items, or_status, link_id, if_any,
  items_of,
}

module _ (w : Setting) (order : List String → List String) (now : ℕ)
    (answer : Value → Result Value) where
  -- `f"{direction}_..."`
  abbrev key : Value → String → String
  key direction suffix = format w.platform.text_of direction ++ suffix

  next_job : String → Value → Value → Value → Value
  next_job id owner_id direction depth = dict (
      entry "job_type" (str "page") (
        entry "page_id" (str id)
          (entry "direction" direction (entry "owner_id" owner_id (entry "depth" depth empty)))))

  follow : Option String → Value → Value → Value → Exec (World w) Unit
  unfolding next_job
  follow none owner_id direction depth = pure tt
  follow (some id) owner_id direction depth = do
    _ ← enqueue_if_unseen w order now (next_job id owner_id direction depth)
    pure tt

  -- what is done with a page that has items: whether it is the last one
  on_items : Value → Value → Value → Value → Value → Exec (World w) Bool
  unfolding follow
  on_items json items owner_id direction depth = do
    handle_items w order now items owner_id direction depth
    more ← lift (contains_key json "next")
    if more
        then (do
          next ← lift (get_or json "next" null)
          follow (if_any (link_id next)) owner_id direction depth
          pure false)
        else pure true

  on_page : Value → Value → Value → Value → Exec (World w) Bool
  unfolding on_items
  on_page json owner_id direction depth = do
    items ← lift (items_of json)
    if truthy items then on_items json items owner_id direction depth else pure true

  with_status : Option ℕ → Value → Value → Value → Value → Dict → Exec (World w) Dict
  unfolding on_page
  with_status (some n) json owner_id direction depth props =
      pure (put props (key direction "_last_page_http_status") (int (pos n)))
  with_status none json owner_id direction depth props = do
    let props = put props (key direction "_last_page_http_status") (int (pos 200))
    complete ← on_page json owner_id direction depth
    pure (if complete then put props (key direction "_pages_complete") (bool true) else props)

  unfoldable pub handle : Value → Exec (World w) Unit
  unfolding with_status
  handle job = do
    page_id ← lift (index job "page_id")
    owner_id ← lift (index job "owner_id")
    direction ← lift (index job "direction")
    depth ← lift (index job "depth")
    owner ← lift (as_label owner_id)
    ensure_node w order now owner
    let props =
        put (put empty (key direction "_last_page") page_id) (key direction "_pages_complete")
          (bool false)
    set_node_properties w order now owner props
    (json, status) ← lift (or_status (dict empty) (answer page_id))
    props ← with_status status json owner_id direction depth props
    set_node_properties w order now owner props
