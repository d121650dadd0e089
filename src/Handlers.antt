-- ===== src/Handlers.antt =====
-- The handlers of jobs: what they share. pub_crawler/handle_items.py is here. What a handler gets of
-- the network in a run, its clock and the order in which Python goes through a set of texts are its
-- arguments. Every reading of the clock by the dispatcher and the database in a run is `now`.
pub mod Actor
pub mod Collection
pub mod Page
pub mod Webfinger
pub mod Failures
pub mod Items
pub mod Kept
pub mod Handling
use pub_crawler.Base.{
  String, ℕ, Bool, true, false, not, ◌&&◌, ◌++◌, Option, none, some, List, [], ◌∷◌, is_some, str_eq,
  if◌then◌else◌,
}
use pub_crawler.Exec.{
  Result, ok, raised, Error, http_status, Exec, pure, raise, lift, for_each, catch, ◌>>=◌, ◌>>◌,
}
use pub_crawler.Exec.Fallible
use pub_crawler.Json.{
  Value, Dict, null, bool, int, str, dict, empty, entry, get, put, has_key, as_str,
}
use pub_crawler.Json.Python.{iterate, add_one, as_label}
use pub_crawler.Job.{index, get_or, format, is_text}
use pub_crawler.Dispatcher
use pub_crawler.Graph
use pub_crawler.Graph.Properties
use pub_crawler.World.{Setting, World, on_jobs, on_graph}

-- `isinstance(item, str) and item`, or the id of an object
id_of_item : Value → Option String
id_of_item (str s) = if str_eq s "" then none else some s
id_of_item (dict d) = elim (get d "id") [
  | none ↦ none
  | some v ↦ elim (as_str v) [ none ↦ none | some s ↦ if str_eq s "" then none else some s ]
]
id_of_item _ = none

unfoldable pub ids_of_items : List Value → List String
unfolding id_of_item
ids_of_items [] = []
ids_of_items (item ∷ rest) =
    let ids = ids_of_items rest in elim (id_of_item item) [ none ↦ ids | some s ↦ s ∷ ids ]

-- `ids - d.keys()`, with no order yet
unfoldable pub without : List String → Dict → List String
without [] d = []
without (s ∷ ss) d = let rest = without ss d in if has_key d s then rest else s ∷ rest

unfoldable pub contains_text : List String → String → Bool
contains_text [] t = false
contains_text (s ∷ ss) t = if str_eq s t then true else contains_text ss t

unfoldable pub unique : List String → List String
unique [] = []
unique (s ∷ ss) = let rest = unique ss in if contains_text ss s then rest else s ∷ rest

-- `{"job_type": "actor", "actor_id": id, "depth": depth}`
abbrev pub actor_job_at : String → Value → Value
actor_job_at id depth =
    dict (entry "job_type" (str "actor") (entry "actor_id" (str id) (entry "depth" depth empty)))

-- `{"job_type": "page", ...}`
abbrev pub page_job_at : Value → Value → Value → Value → Value
page_job_at id owner direction depth = dict (
    entry "job_type" (str "page") (
      entry "page_id" id
        (entry "owner_id" owner (entry "direction" direction (entry "depth" depth empty)))))

module _ (w : Setting) (order : List String → List String) (now : ℕ) where
  abbrev pub ensure_node : String → Exec (World w) Unit
  ensure_node label = on_graph w (Graph.ensure_node w.ids w.labels w.postgres label)

  abbrev pub get_node_property : String → String → Exec (World w) Value
  get_node_property label name =
      on_graph w (Properties.get_node_property w.ids w.labels w.postgres label name)

  abbrev pub set_node_properties : String → Dict → Exec (World w) Unit
  set_node_properties label props =
      on_graph w (Properties.set_node_properties w.ids w.labels w.postgres label props)

  abbrev pub enqueue_if_unseen : Value → Exec (World w) Bool
  enqueue_if_unseen job = on_jobs w (Dispatcher.enqueue_if_unseen w.redis w.platform now job)

  -- the edges between the owner and the items
  unfoldable pub connect : List String → Value → Value → Exec (World w) Unit
  connect ids owner_id direction =
      if is_text direction "followers"
      then (do
        owner ← lift (as_label owner_id)
        on_graph w (Graph.ensure_to_edges w.ids w.labels now ids owner)
        on_graph w (
            Properties.set_to_edges_property w.ids w.labels w.postgres ids owner
              ("from_" ++ format w.platform.text_of direction) (bool true)))
      else if is_text direction "following"
      then (do
        owner ← lift (as_label owner_id)
        on_graph w (Graph.ensure_from_edges w.ids w.labels now owner ids)
        on_graph w (
            Properties.set_from_edges_property w.ids w.labels w.postgres owner ids
              ("from_" ++ format w.platform.text_of direction) (bool true)))
      else pure tt

  unfoldable pub enqueue_actors : List String → Value → Exec (World w) Unit
  enqueue_actors [] depth = pure tt
  enqueue_actors (id ∷ ids) depth = do
    depth' ← lift (add_one depth)
    _ ← enqueue_if_unseen (actor_job_at id depth')
    enqueue_actors ids depth

  -- a depth for the items that have none
  unfoldable pub set_depths : List String → Value → Exec (World w) Unit
  set_depths ids depth = do
    depths ← on_graph w (Properties.get_nodes_property w.ids w.labels w.postgres ids "depth")
    let no_depths = order (unique (without ids depths))
    next_depth ← lift (add_one depth)
    on_graph w
        (Properties.set_nodes_property w.ids w.labels w.postgres no_depths "depth" next_depth)

  -- the nodes and edges of the items, and their depths
  unfoldable pub put_items : List String → Value → Value → Value → Exec (World w) Unit
  put_items ids owner_id direction depth = do
    on_graph w (Graph.ensure_nodes w.ids w.labels w.postgres ids)
    connect ids owner_id direction
    set_depths ids depth

  -- jobs for the items that were not fetched
  unfoldable pub enqueue_items : List String → Value → Exec (World w) Unit
  enqueue_items ids depth = do
    dates ←
        on_graph w (Properties.get_nodes_property w.ids w.labels w.postgres ids "last_fetch_date")
    enqueue_actors (order (unique (without ids dates))) depth

  unfoldable pub handle_items : Value → Value → Value → Value → Exec (World w) Unit
  handle_items items owner_id direction depth = do
    list ← lift (iterate items)
    let ids = ids_of_items list
    put_items ids owner_id direction depth
    enqueue_items ids depth

-- `try: a = ... except httpx.HTTPStatusError as err`: the answer, or what stands for it and the status
unfoldable pub or_status : {A : Type 0} → A → Result A → Result (A × Option ℕ)
or_status default (ok a) = ok (a, none)
or_status default (raised (http_status n)) = ok (default, some n)
or_status default (raised e) = raised e

-- the id of a link: that of an object, or a text
unfoldable pub link_id : Value → Option String
link_id (dict d) = elim (get d "id") [ none ↦ none | some v ↦ as_str v ]
link_id (str s) = some s
link_id _ = none

-- `if link:`
unfoldable pub if_any : Option String → Option String
if_any none = none
if_any (some s) = if str_eq s "" then none else some s

-- `json.get("items", json.get("orderedItems", None))`
unfoldable pub items_of : Value → Result Value
items_of json = elim (get_or json "orderedItems" null) [
  | raised e ↦ raised e
  | ok ordered ↦ get_or json "items" ordered
]
