-- ===== src/Graph/Queries.antt =====
-- pub_crawler/database_graph.py: the methods that read the whole graph, each with all that it
-- yields, and `first_neighbor`.
use pub_crawler.Base.{
  String, ℕ, ◌&&◌, ◌||◌, Option, none, some, List, [], ◌∷◌, ◌==◌, str_eq, map, if◌then◌else◌,
}
use pub_crawler.Exec.{Result, ok, raised, exception, pure, raise, lift, ◌>>=◌}
use pub_crawler.Json.{Value}
use pub_crawler.Platform.{Platform}
use pub_crawler.Graph.{Action, fetch, node_id, node_label, is_node}
use pub_crawler.Graph.Libraries.{Lru, Postgres}
use pub_crawler.Graph.Statements.{distinct, object_of, first_edge}
use pub_crawler.Graph.Schema.{select, Node, Edge, Tables}

module _ (ids : Lru String ℕ) (labels : Lru ℕ String) {p : Platform} (pg : Postgres p) where
  -- what is read of each row, to the first text that cannot be read
  unfoldable pub read_each : {A B : Type 0} → (A → Result B) → List A → Result (List B)
  read_each f [] = ok []
  read_each f (x ∷ xs) = elim (f x) [
    | raised e ↦ raised e
    | ok y ↦ elim (read_each f xs) [ raised e ↦ raised e | ok ys ↦ ok (y ∷ ys) ]
  ]

  read_node : Tables → Node → Result (ℕ × String × Value)
  read_node t n =
      elim (p.loads (
        object_of pg (map (λ r. (r.name, r.value)) (select (λ r. r.id == n.id) t.node_property)))) [
          | raised e ↦ raised e
          | ok props ↦ ok (n.id, n.label, props)
        ]

  unfoldable pub all_nodes : Action ids labels (List (ℕ × String × Value))
  unfolding read_node
  all_nodes = do t ← fetch ids labels (λ t. t); lift (read_each (read_node t) t.node)

  read_edge : Tables → Edge → Result (ℕ × ℕ × Value)
  read_edge t e =
      elim (p.loads (
        object_of pg (
          map (λ r. (r.name, r.value))
            (select (λ r. (r.from_node == e.from_node) && (r.to_node == e.to_node))
              t.edge_property)))) [
                | raised x ↦ raised x
                | ok props ↦ ok (e.from_node, e.to_node, props)
              ]

  unfoldable pub all_edges : Action ids labels (List (ℕ × ℕ × Value))
  unfolding read_edge
  all_edges = do t ← fetch ids labels (λ t. t); lift (read_each (read_edge t) t.edge)

  unfoldable pub node_property_values : String → Action ids labels (List Value)
  node_property_values name = do
    values ←
        fetch ids labels
          (λ t. distinct pg (map (λ r. r.value) (select (λ r. str_eq r.name name) t.node_property)))
    lift (read_each p.loads values)

  neighbor : Option ℕ → Option Edge → Action ids labels (Option String)
  neighbor id none = pure none
  neighbor id (some e) =
      if is_node id e.from_node
      then node_label ids labels e.to_node
      else if is_node id e.to_node
      then node_label ids labels e.from_node
      else raise (exception "Mismatched edge")

  unfoldable pub first_neighbor : String → Action ids labels (Option String)
  unfolding neighbor
  first_neighbor label = do
    id ← node_id ids labels label
    row ←
        fetch ids labels
          (λ t. first_edge (select (λ e. is_node id e.from_node || is_node id e.to_node) t.edge))
    neighbor id row
