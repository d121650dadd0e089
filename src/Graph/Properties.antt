-- ===== src/Graph/Properties.antt =====
-- pub_crawler/database_graph.py: the methods that set and get the properties of nodes and edges.
use pub_crawler.Base.{String, ℕ, Bool, ◌&&◌, Option, none, some, List, [], ◌∷◌, ◌==◌, str_eq, map}
use pub_crawler.Exec.{Result, ok, raised, lift, ◌>>=◌}
use pub_crawler.Json.{Value, Dict, null, dict, empty}
use pub_crawler.Platform.{Platform}
use pub_crawler.Graph.{Action, execute, fetch, node_id, is_node}
use pub_crawler.Graph.Libraries.{Lru, Postgres}
use pub_crawler.Graph.Statements.{
  pairs, insert_node_property, insert_edge_property, insert_node_properties, insert_each_node,
  insert_edge_properties, insert_each_edge, read_rows,
}
use pub_crawler.Graph.Schema.{
  select, find_row, any_of, Node, NodeProperty, EdgeProperty, Tables, has_label,
}

-- `value` of a row that may be missing
abbrev pub value_of : Option NodeProperty → Option String
value_of none = none
value_of (some r) = some r.value

abbrev pub edge_value_of : Option EdgeProperty → Option String
edge_value_of none = none
edge_value_of (some r) = some r.value

-- SELECT value FROM node_property WHERE id = $1 AND name = $2
unfoldable pub select_value : Option ℕ → String → Tables → Option String
select_value id name t =
    value_of (find_row (λ r. is_node id r.id && str_eq r.name name) t.node_property)

unfoldable pub select_edge_value : Option ℕ → Option ℕ → String → Tables → Option String
select_edge_value f g name t = edge_value_of (
    find_row (λ r. is_node f r.from_node && (is_node g r.to_node && str_eq r.name name))
      t.edge_property)

-- SELECT n.label, np.value FROM node n JOIN node_property np ON n.id = np.id WHERE ...
unfoldable pub labelled_values : List Node → String → List NodeProperty → List (String × String)
labelled_values [] name rs = []
labelled_values (n ∷ ns) name rs =
    let rest = labelled_values ns name rs in
    elim (find_row (λ r. (r.id == n.id) && str_eq r.name name) rs) [
      | none ↦ rest
      | some r ↦ (n.label, r.value) ∷ rest
    ]

-- the same for edges to or from the nodes, where `key` reads the ids of the edge of node `i`
unfoldable pub labelled_edge_values :
    (ℕ → EdgeProperty → Bool) → List Node → List EdgeProperty → List (String × String)
labelled_edge_values joined [] rs = []
labelled_edge_values joined (n ∷ ns) rs =
    let rest = labelled_edge_values joined ns rs in
    elim (find_row (joined n.id) rs) [ none ↦ rest | some r ↦ (n.label, r.value) ∷ rest ]

module _ (ids : Lru String ℕ) (labels : Lru ℕ String) {p : Platform} (pg : Postgres p) where
  abbrev Act : Type 0 → Type 0
  Act A = Action ids labels A

  -- a statement with a JSONB argument, which PostgreSQL reads first
  with_jsonb : Value → (String → Tables → Result Tables) → Act Unit
  with_jsonb value f = do
    text ← lift (p.dumps_unsorted value)
    text ← lift (pg.jsonb text)
    execute ids labels (f text)

  named : String → (String → Tables → Result Tables) → Tables → Result Tables
  named name f t = elim (pg.varchar 32 name) [ raised e ↦ raised e | ok name ↦ f name t ]

  unfoldable pub set_node_property : String → String → Value → Act Unit
  unfolding with_jsonb named
  set_node_property label name value = do
    id ← node_id ids labels label
    with_jsonb value (λ text. named name (λ name. insert_node_property id name text))

  unfoldable pub set_nodes_property : List String → String → Value → Act Unit
  unfolding with_jsonb
  set_nodes_property ls name value =
      with_jsonb value
        (λ text t. insert_node_properties pg (select (λ n. any_of ls n.label) t.node) name text t)

  with_each : Dict → (List (String × String) → Tables → Result Tables) → Act Unit
  with_each properties f = do
    text ← lift (p.dumps_unsorted (dict properties))
    kvs ← lift (pg.each text)
    execute ids labels (f kvs)

  unfoldable pub set_node_properties : String → Dict → Act Unit
  unfolding with_each
  set_node_properties label properties =
      with_each properties (λ kvs t. insert_each_node pg (select (has_label label) t.node) kvs t)

  unfoldable pub set_edge_property : String → String → String → Value → Act Unit
  unfolding with_jsonb named
  set_edge_property from_label to_label name value = do
    from_node ← node_id ids labels from_label
    to_node ← node_id ids labels to_label
    with_jsonb value (λ text. named name (λ name. insert_edge_property from_node to_node name text))

  unfoldable pub set_edge_properties : String → String → Dict → Act Unit
  unfolding with_each
  set_edge_properties from_label to_label properties =
      with_each properties
        (λ kvs t. insert_each_edge pg (pairs (has_label from_label) (has_label to_label) t) kvs t)

  unfoldable pub set_from_edges_property : String → List String → String → Value → Act Unit
  unfolding with_jsonb
  set_from_edges_property from_label to_labels name value = with_jsonb value (λ text t.
      insert_edge_properties pg (pairs (has_label from_label) (λ n. any_of to_labels n.label) t)
        name text t)

  unfoldable pub set_to_edges_property : List String → String → String → Value → Act Unit
  unfolding with_jsonb
  set_to_edges_property from_labels to_label name value = with_jsonb value (λ text t.
      insert_edge_properties pg (pairs (λ n. any_of from_labels n.label) (has_label to_label) t)
        name text t)

  unfoldable pub read_value : Option String → Result Value
  read_value none = ok null
  read_value (some text) = p.loads text

  unfoldable pub get_node_property : String → String → Act Value
  unfolding read_value
  get_node_property label name = do
    id ← node_id ids labels label
    value ← fetch ids labels (select_value id name)
    lift (read_value value)

  unfoldable pub get_nodes_property : List String → String → Act Dict
  get_nodes_property ls name = do
    rows ←
        fetch ids labels
          (λ t. labelled_values (select (λ n. any_of ls n.label) t.node) name t.node_property)
    lift (read_rows pg rows empty)

  unfoldable pub get_edge_property : String → String → String → Act Value
  unfolding read_value
  get_edge_property from_label to_label name = do
    from_node ← node_id ids labels from_label
    to_node ← node_id ids labels to_label
    value ← fetch ids labels (select_edge_value from_node to_node name)
    lift (read_value value)

  unfoldable pub get_node_properties : String → Act Dict
  get_node_properties label = do
    id ← node_id ids labels label
    rows ←
        fetch ids labels
          (λ t. map (λ r. (r.name, r.value)) (select (λ r. is_node id r.id) t.node_property))
    lift (read_rows pg rows empty)

  unfoldable pub get_edge_properties : String → String → Act Dict
  get_edge_properties from_label to_label = do
    from_node ← node_id ids labels from_label
    to_node ← node_id ids labels to_label
    rows ← fetch ids labels (λ t.
        map (λ r. (r.name, r.value))
          (select (λ r. is_node from_node r.from_node && is_node to_node r.to_node)
            t.edge_property))
    lift (read_rows pg rows empty)

  -- The label is that of one node at most.
  unfoldable pub get_from_edges_property : String → List String → String → Act Dict
  get_from_edges_property from_label to_labels name = do
    rows ← fetch ids labels (λ t. elim (find_row (has_label from_label) t.node) [
      | none ↦ []
      | some f ↦
          labelled_edge_values
            (λ i r. (r.from_node == f.id) && ((r.to_node == i) && str_eq r.name name))
            (select (λ n. any_of to_labels n.label) t.node) t.edge_property
    ])
    lift (read_rows pg rows empty)

  unfoldable pub get_to_edges_property : List String → String → String → Act Dict
  get_to_edges_property from_labels to_label name = do
    rows ← fetch ids labels (λ t. elim (find_row (has_label to_label) t.node) [
      | none ↦ []
      | some g ↦
          labelled_edge_values
            (λ i r. (r.from_node == i) && ((r.to_node == g.id) && str_eq r.name name))
            (select (λ n. any_of from_labels n.label) t.node) t.edge_property
    ])
    lift (read_rows pg rows empty)
