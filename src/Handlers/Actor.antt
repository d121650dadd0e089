-- ===== src/Handlers/Actor.antt =====
-- pub_crawler/actor_handler.py. The host's name in a URL, the time, and the answer of the actor's
-- server are arguments.
use pub_crawler.Base.{
  String, ℕ, Bool, true, false, Option, none, some, List, [], ◌∷◌, if◌then◌else◌,
}
use pub_crawler.Base.Int.{pos}
use pub_crawler.Exec.{Result, ok, raised, Exec, pure, lift, ◌>>=◌, ◌>>◌}
use pub_crawler.Json.{
  Value, Dict, null, bool, int, str, list, dict, nil, cons, empty, entry, get, put, items, of_list,
  as_str,
}
use pub_crawler.Json.Python.{truthy, contains_key, as_label}
use pub_crawler.Job.{index, get_or, is_text}
use pub_crawler.World.{Setting, World}
use pub_crawler.Handlers.{
  ensure_node, get_node_property, set_node_properties, enqueue_if_unseen, or_status,
}

-- `if field in doc and isinstance(doc[field], T)`, where `as` tells the type
unfoldable pub field : {A : Type 0} → (Value → Option A) → Value → String → Result (Option A)
field test doc name = elim (contains_key doc name) [
  | raised e ↦ raised e
  | ok false ↦ ok none
  | ok true ↦ elim (index doc name) [ raised e ↦ raised e | ok v ↦ ok (test v) ]
]

put_some : Dict → String → Option Value → Dict
put_some props prop none = props
put_some props prop (some v) = put props prop v

as_text : Value → Option Value
as_text (str s) = some (str s)
as_text _ = none

as_flag : Value → Option Value
as_flag (bool b) = some (bool b)
as_flag _ = none

-- `props[prop] = doc[name]` for each pair, where the field is there and of the type
unfoldable pub copy : (Value → Option Value) → List (String × String) → Value → Dict → Result Dict
unfolding put_some
copy test [] doc props = ok props
copy test ((name, prop) ∷ rest) doc props = elim (field test doc name) [
  | raised e ↦ raised e
  | ok v ↦ copy test rest doc (put_some props prop v)
]

-- `doc.get(field) is True`
abbrev is_true : Value → Bool
is_true (bool b) = b
is_true _ = false

text_uris : List Value → List Value
text_uris [] = []
text_uris (v ∷ vs) =
    let rest = text_uris vs in elim (as_str v) [ none ↦ rest | some s ↦ str s ∷ rest ]

also_known : Value → List Value
unfolding text_uris
also_known (str s) = str s ∷ []
also_known (list vs) = text_uris (items vs)
also_known _ = []

-- `_get_other_prop`
unfoldable pub other_prop : Value → Option Value
other_prop (dict d) = elim (get d "type") [
  | none ↦ none
  | some t ↦
      if is_text t "PropertyValue"
      then elim (get d "name") [
        | none ↦ none
        | some n ↦ elim (get d "value") [ none ↦ none | some v ↦ some (list (cons n (cons v nil))) ]
      ]
      else none
]
other_prop _ = none

other_props : List Value → List Value
unfolding other_prop
other_props [] = []
other_props (v ∷ vs) =
    let rest = other_props vs in elim (other_prop v) [ none ↦ rest | some p ↦ p ∷ rest ]

attached : Value → List Value
unfolding other_props
attached (dict d) = other_props (dict d ∷ [])
attached (list vs) = other_props (items vs)
attached _ = []

image_url : Value → Option Value
image_url (dict d) = elim (get d "type") [
  | none ↦ none
  | some t ↦
      if is_text t "Image" then elim (get d "url") [ none ↦ none | some v ↦ as_text v ] else none
]
image_url _ = none

module _ (w : Setting) (order : List String → List String) (now : ℕ)
    (hostname : Value → Result Value) (time : String)
    (answer : Value → Result (Value × (String → Option Value))) where
  -- a list as the text that orjson writes, where there is anything in it
  put_list : Dict → String → List Value → Result Dict
  put_list props prop [] = ok props
  put_list props prop (v ∷ vs) = elim (w.platform.dumps_unsorted (list (of_list (v ∷ vs)))) [
    | raised e ↦ raised e
    | ok text ↦ ok (put props prop (str text))
  ]

  set_image : String → Value → Dict → Result Dict
  unfolding put_some image_url
  set_image prop doc props = elim (get_or doc prop null) [
    | raised e ↦ raised e
    | ok v ↦ ok (put_some props prop (image_url v))
  ]

  set_list : (Value → List Value) → String → String → Value → Dict → Result Dict
  unfolding put_list
  set_list values name prop doc props = elim (get_or doc name null) [
    | raised e ↦ raised e
    | ok v ↦ put_list props prop (values v)
  ]

  -- a job for one of the actor's collections, where the actor has it
  collect : Value → Value → String → Value → Dict → Exec (World w) Dict
  collect actor_id depth direction doc props = do
    found ← lift (field as_str doc direction)
    elim found [
      | none ↦ pure props
      | some id ↦
          enqueue_if_unseen w order now (
            dict (
              entry "job_type" (str "collection") (
                entry "collection_id" (str id) (
                  entry "owner_id" actor_id
                    (entry "direction" (str direction) (entry "depth" depth empty))))))
          >> pure (put props direction (str id))
    ]

  discoverable_props : Value → Dict → Exec (World w) Dict
  unfolding set_image set_list attached
  discoverable_props doc props = do
    flag ← lift (get_or doc "discoverable" null)
    if is_true flag
        then (do
          props ← lift (copy as_text (("name", "name") ∷ ("summary", "summary") ∷ []) doc props)
          props ← lift (set_image "image" doc props)
          props ← lift (set_image "icon" doc props)
          lift (set_list attached "attachment" "properties" doc props))
        else pure props

  indexable_props : Value → Dict → Exec (World w) Dict
  indexable_props doc props = do
    flag ← lift (get_or doc "indexable" null)
    if is_true flag then lift (copy as_text (("outbox", "outbox") ∷ []) doc props) else pure props

  found_props : Value → (String → Option Value) → Value → Value → Dict → Exec (World w) Dict
  unfolding as_text as_flag put_some set_list also_known discoverable_props indexable_props collect
  found_props doc headers actor_id depth props = do
    let props = put (put props "http_status" (int (pos 200))) "last_fetch_date" (str time)
    let props = put_some props "server" (headers "server")
    props ← lift (
        copy as_text
          (("preferredUsername", "preferred_username")
            ∷ ("published", "published")
            ∷ ("type", "type")
            ∷ [])
          doc props)
    props ← lift (
        copy as_flag
          (("indexable", "indexable")
            ∷ ("discoverable", "discoverable")
            ∷ ("suspended", "suspended")
            ∷ ("memorial", "memorial")
            ∷ [])
          doc props)
    props ← lift (copy as_text (("movedTo", "moved_to") ∷ ("url", "url") ∷ []) doc props)
    props ← lift (set_list also_known "alsoKnownAs" "also_known_as" doc props)
    props ← discoverable_props doc props
    props ← indexable_props doc props
    props ← collect actor_id depth "followers" doc props
    collect actor_id depth "following" doc props

  with_status :
      Option ℕ → Value → (String → Option Value) → Value → Value → Dict → Exec (World w) Dict
  unfolding found_props
  with_status (some n) doc headers actor_id depth props =
      pure (put props "http_status" (int (pos n)))
  with_status none doc headers actor_id depth props = found_props doc headers actor_id depth props

  unfoldable pub handle : Value → Exec (World w) Unit
  unfolding with_status
  handle job = do
    actor_id ← lift (index job "actor_id")
    depth ← lift (index job "depth")
    actor ← lift (as_label actor_id)
    ensure_node w order now actor
    last_fetch_date ← get_node_property w order now actor "last_fetch_date"
    host ← lift (hostname actor_id)
    if truthy last_fetch_date then pure tt else (do
      ((doc, headers), status) ← lift (or_status (dict empty, λ k. none) (answer actor_id))
      props ←
          with_status status doc headers actor_id depth
            (put (put empty "depth" depth) "hostname" host)
      set_node_properties w order now actor props)
