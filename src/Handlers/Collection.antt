-- ===== src/Handlers/Collection.antt =====
-- pub_crawler/collection_handler.py
use pub_crawler.Base.{String, ℕ, Bool, true, false, ◌++◌, Option, none, some, List, if◌then◌else◌}
use pub_crawler.Base.Int.{ℤ, pos}
use pub_crawler.Exec.{Result, Exec, pure, lift, ◌>>=◌, ◌>>◌}
use pub_crawler.Json.{Value, Dict, null, bool, int, str, dict, empty, put, as_int}
use pub_crawler.Json.Python.{truthy, contains_key, less_than, is_zero, as_label}
use pub_crawler.Job.{index, get_or, format}
use pub_crawler.World.{Setting, World}
use pub_crawler.Handlers.{
  ensure_node, set_node_properties, enqueue_if_unseen, handle_items, or_status, link_id, if_any,
  items_of, page_job_at,
}

module _ (w : Setting) (order : List String → List String) (now : ℕ) (max_depth : ℤ)
    (answer : Value → Result Value) where
  abbrev key : Value → String → String
  key direction suffix = format w.platform.text_of direction ++ suffix

  -- the value if it is an `int`
  only_int : Value → Option Value
  only_int v = elim (as_int v) [ none ↦ none | some n ↦ some v ]

  total_items : Value → Exec (World w) (Option Value)
  unfolding only_int
  total_items json = do
    there ← lift (contains_key json "totalItems")
    if there then (do v ← lift (index json "totalItems"); pure (only_int v)) else pure none

  abbrev none_at_all : Option Value → Bool
  none_at_all none = false
  none_at_all (some v) = is_zero v

  first_page : Option String → Value → Value → Value → Dict → Exec (World w) Dict
  first_page none owner_id direction depth props = pure props
  first_page (some id) owner_id direction depth props = do
    _ ← enqueue_if_unseen w order now (page_job_at (str id) owner_id direction depth)
    pure (put props (key direction "_members_shared") (bool true))

  -- the members are in the collection itself
  own_items : Value → Value → Value → Value → Dict → Exec (World w) Dict
  own_items json owner_id direction depth props = do
    items ← lift (items_of json)
    if truthy items
        then (do
          handle_items w order now items owner_id direction depth
          pure (
              put (put props (key direction "_members_shared") (bool true))
                (key direction "_pages_complete") (bool true)))
        else pure (put props (key direction "_members_shared") (bool false))

  members : Value → Value → Value → Value → Dict → Exec (World w) Dict
  unfolding first_page own_items
  members json owner_id direction depth props = do
    paged ← lift (contains_key json "first")
    if paged
        then (do
          link ← lift (get_or json "first" null)
          first_page (if_any (link_id link)) owner_id direction depth props)
        else own_items json owner_id direction depth props

  with_total : Option Value → Value → Dict → Dict
  with_total none direction props = props
  with_total (some v) direction props = put props (key direction "_count") v

  with_status : Option ℕ → Value → Value → Value → Value → Dict → Exec (World w) Dict
  unfolding total_items with_total members
  with_status (some n) json owner_id direction depth props =
      pure (put props (key direction "_http_status") (int (pos n)))
  with_status none json owner_id direction depth props = do
    let props = put props (key direction "_http_status") (int (pos 200))
    total ← total_items json
    let props = with_total total direction props
    shallow ← lift (less_than depth max_depth)
    if shallow
        then (if none_at_all total
            then pure (put props (key direction "_members_shared") (bool true))
            else members json owner_id direction depth props)
        else pure props

  unfoldable pub handle : Value → Exec (World w) Unit
  unfolding with_status
  handle job = do
    collection_id ← lift (index job "collection_id")
    owner_id ← lift (index job "owner_id")
    direction ← lift (index job "direction")
    depth ← lift (index job "depth")
    owner ← lift (as_label owner_id)
    ensure_node w order now owner
    (json, status) ← lift (or_status (dict empty) (answer collection_id))
    props ← with_status status json owner_id direction depth empty
    set_node_properties w order now owner props
