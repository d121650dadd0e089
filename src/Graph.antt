-- ===== src/Graph.antt =====
-- pub_crawler/database_graph.py: the class DatabaseGraph, nodes and edges with properties in
-- PostgreSQL, with two caches in the process. A method that cannot insert a row raises, and leaves
-- the tables as they were. `now` is CURRENT_TIMESTAMP. The order of the rows that a query without
-- ORDER BY gives is the order of the table.
pub mod Schema
pub mod Libraries
pub mod Statements
pub mod Properties
pub mod Queries
pub mod Lookup
pub mod Rows
pub mod RoundTrip
pub mod Nodes
pub mod Edges
pub mod Plain
use pub_crawler.Base.{
  String, ℕ, ◌+◌, Bool, true, false, not, ◌&&◌, ◌||◌, Option, none, some, List, [], ◌∷◌, ◌==◌, ltb,
  str_eq, if◌then◌else◌, map, is_some,
}
use pub_crawler.Exec.{Result, ok, raised, other, Exec, pure, raise, lift, gets, modify, ◌>>=◌, ◌>>◌}
use pub_crawler.Exec.Fallible
use pub_crawler.Json.{Value, Dict, null, dict, empty, put}
use pub_crawler.Platform.{Platform}
use pub_crawler.Graph.Libraries.{Lru, Postgres}
use pub_crawler.Graph.Statements.{
  pairs, insert_edge, insert_edges, insert_node_property, insert_edge_property, insert_nodes,
  insert_node_properties, insert_each_node, insert_edge_properties, insert_each_edge, read_rows,
  distinct, object_of, first_edge,
}
use pub_crawler.Graph.Schema.{
  select, find_row, exists, any_of, Node, Edge, NodeProperty, EdgeProperty, Tables, has_label,
  has_id, select_id, select_label, insert_node, delete_node_row, delete_edge_row,
}

-- a NULL is no node's id
abbrev pub is_node : Option ℕ → ℕ → Bool
is_node none i = false
is_node (some j) i = i == j

module _ (ids : Lru String ℕ) (labels : Lru ℕ String) where
  pub record Graph : Type 0 where
    pub db : Tables
    pub cache : ids.Cache
    pub label_cache : labels.Cache

module _ (ids : Lru String ℕ) (labels : Lru ℕ String) where
  abbrev pub Action : Type 0 → Type 0
  Action A = Exec (Graph ids labels) A

  -- one statement: when it raises, it changes nothing
  unfoldable pub execute : (Tables → Result Tables) → Action Unit
  execute f g = elim (f g.db) [ raised e ↦ (raised e, g) | ok t ↦ (ok tt, record g { db = t }) ]

  abbrev pub fetch : {A : Type 0} → (Tables → A) → Action A
  fetch f = gets (λ g. f g.db)

  unfoldable pub in_cache : String → Graph ids labels → Bool
  in_cache label g = is_some (ids.cached label g.cache)

  found_id : String → Option ℕ → Action (Option ℕ)
  found_id label none = pure none
  found_id label (some id) = do
    modify (λ g. record g { cache = ids.put label id g.cache })
    pure (some id)

  looked_up : String → Option ℕ → Action (Option ℕ)
  unfolding found_id
  looked_up label (some id) = do
    modify (λ g. record g { cache = ids.read label g.cache })
    pure (some id)
  looked_up label none = do id ← fetch (select_id label); found_id label id

  -- `_node_id`
  unfoldable pub node_id : String → Action (Option ℕ)
  unfolding looked_up
  node_id label = do cached ← gets (λ g. ids.cached label g.cache); looked_up label cached

  found_label : ℕ → Option String → Action (Option String)
  found_label id none = pure none
  found_label id (some label) = do
    modify (λ g. record g { label_cache = labels.put id label g.label_cache })
    pure (some label)

  looked_up_label : ℕ → Option String → Action (Option String)
  unfolding found_label
  looked_up_label id (some label) = do
    modify (λ g. record g { label_cache = labels.read id g.label_cache })
    pure (some label)
  looked_up_label id none = do label ← fetch (select_label id); found_label id label

  -- `_node_label`
  unfoldable pub node_label : ℕ → Action (Option String)
  unfolding looked_up_label
  node_label id = do cached ← gets (λ g. labels.cached id g.label_cache); looked_up_label id cached

  unfoldable pub ensure_edge : ℕ → String → String → Action Unit
  ensure_edge now from_label to_label = do
    from_node ← node_id from_label
    to_node ← node_id to_label
    execute (insert_edge now from_node to_node)

  unfoldable pub ensure_from_edges : ℕ → String → List String → Action Unit
  ensure_from_edges now from_label to_labels = execute (λ t.
      ok (insert_edges now (pairs (has_label from_label) (λ n. any_of to_labels n.label) t) t))

  unfoldable pub ensure_to_edges : ℕ → List String → String → Action Unit
  ensure_to_edges now from_labels to_label = execute (λ t.
      ok (insert_edges now (pairs (λ n. any_of from_labels n.label) (has_label to_label) t) t))

  unfoldable pub has_node : String → Action Bool
  has_node label = do id ← node_id label; pure (is_some id)

  unfoldable pub has_edge : String → String → Action Bool
  has_edge from_label to_label = do
    from_node ← node_id from_label
    to_node ← node_id to_label
    fetch (λ t. exists (λ e. is_node from_node e.from_node && is_node to_node e.to_node) t.edge)

  forget : String → Option ℕ → Graph ids labels → Graph ids labels
  forget label none g = record g { cache = ids.drop label g.cache }
  forget label (some id) g = record g {
    cache = ids.drop label g.cache;
    label_cache = labels.drop id g.label_cache;
  }

  delete_row : Option ℕ → Tables → Tables
  delete_row none t = t
  delete_row (some id) t = delete_node_row id t

  -- Dropping an entry that is not there is no change.
  unfoldable pub delete_node : String → Action Unit
  unfolding forget delete_row
  delete_node label = do
    id ← node_id label
    execute (λ t. ok (delete_row id t))
    modify (forget label id)

  delete_edge_rows : Option ℕ → Option ℕ → Tables → Tables
  delete_edge_rows (some f) (some g) t = delete_edge_row f g t
  delete_edge_rows f g t = t

  unfoldable pub delete_edge : String → String → Action Unit
  unfolding delete_edge_rows
  delete_edge from_label to_label = do
    from_node ← node_id from_label
    to_node ← node_id to_label
    execute (λ t. ok (delete_edge_rows from_node to_node t))

  module _ {p : Platform} (pg : Postgres p) where
    abbrev pub missing : Tables → String → Bool
    missing t label = not (exists (has_label label) t.node)

    unfoldable pub ensure_node : String → Action Unit
    unfolding in_cache
    ensure_node label = do
      known ← gets (in_cache label)
      if known then pure tt else execute (λ t. insert_nodes pg (select (missing t) (label ∷ [])) t)

    unfoldable pub upsert_nodes : List String → Action Unit
    upsert_nodes [] = pure tt
    upsert_nodes (l ∷ ls) = execute (λ t. insert_nodes pg (select (missing t) (l ∷ ls)) t)

    unfoldable pub ensure_nodes : List String → Action Unit
    unfolding in_cache upsert_nodes
    ensure_nodes labels = do
      to_upsert ← gets (λ g. select (λ l. not (in_cache l g)) labels)
      upsert_nodes to_upsert
