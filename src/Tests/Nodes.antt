-- ===== src/Tests/Nodes.antt =====
-- pub_crawler/database_graph.py on a graph of two nodes.
use pub_crawler.Base.{
  String, ℕ, ◌≡◌, refl, true, false, none, some, List, [], ◌∷◌, ◌==◌, ◌&&◌, str_eq, is_some,
}
use pub_crawler.Base.Int.{pos}
use pub_crawler.Exec.{ok}
use pub_crawler.Json.{int}
use pub_crawler.Platform.Plain.{plain, plain_dumps_unsorted}
use pub_crawler.Graph.{Graph, ensure_nodes, ensure_edge, delete_edge, has_edge, execute, node_id}
use pub_crawler.Graph.Plain.{by_label, by_id, plain_postgres}
use pub_crawler.Graph.Schema.{find_row, any_of, select_id}
use pub_crawler.Graph.Statements.{insert_edge, insert_node_property}
use pub_crawler.Graph.Properties.{set_node_property, get_node_property}
use pub_crawler.Graph.Lookup.{Agrees}
use pub_crawler.Graph.RoundTrip.{get-set_node_property}
use pub_crawler.Graph.Nodes.{Extends, ensure_nodes_lem}
use pub_crawler.Graph.Edges.{has_edge-ensure_edge, has_edge-delete_edge}

abbrev pub start : Graph by_label by_id
start = record {
  db = record {
    node = record { id = 1; label = "a" } ∷ record { id = 2; label = "b" } ∷ [];
    edge = [];
    node_property = [];
    edge_property = [];
    next = 3;
  };
  cache = λ l. none;
  label_cache = λ i. none;
}

start-Agrees : Agrees by_label by_id start
start-Agrees = record { by_label = λ l i h. absurd (cc); by_id = λ i l h. absurd (cc) }

set_depth :
    (set_node_property by_label by_id (plain_postgres plain) "a" "depth" (int (pos 2)) start).0
    ≡ ok tt
unfolding set_node_property execute node_id select_id find_row insert_node_property
set_depth = rw (plain_dumps_unsorted (int (pos 2))).1 refl

get-set_node_property_example :
    ((get_node_property by_label by_id
        (plain_postgres plain)
        "a"
        "depth"
        (set_node_property by_label by_id
          (plain_postgres plain)
          "a"
          "depth"
          (int (pos 2))
          start).1).0
      ≡ ok (int (pos 2)))
    × ((other_label other_name : String) (i j : ℕ)
        → select_id "a" start.db ≡ some i
        → select_id other_label start.db ≡ some j
        → (i == j) && str_eq "depth" other_name ≡ false
        → (get_node_property by_label by_id
            (plain_postgres plain)
            other_label
            other_name
            (set_node_property by_label by_id
              (plain_postgres plain)
              "a"
              "depth"
              (int (pos 2))
              start).1).0
          ≡ (get_node_property by_label by_id
              (plain_postgres plain)
              other_label
              other_name
              start).0)
get-set_node_property_example =
    get-set_node_property by_label by_id (plain_postgres plain) start start-Agrees "a" "depth"
      (int (pos 2)) refl set_depth

abbrev some_labels : List String
some_labels = "c" ∷ "a" ∷ "c" ∷ []

abbrev grown : Graph by_label by_id
grown = (ensure_nodes by_label by_id (plain_postgres plain) some_labels start).1

ensure_nodes_lem_example :
    ((ensure_nodes by_label by_id (plain_postgres plain) some_labels start).0 ≡ ok tt)
    × Agrees by_label by_id grown
    × Extends start.db grown.db
    × ((l : String) → any_of some_labels l ≡ true → is_some (select_id l grown.db) ≡ true)
    × (ensure_nodes by_label by_id (plain_postgres plain) some_labels grown ≡ (ok tt, grown))
ensure_nodes_lem_example =
    ensure_nodes_lem (plain_postgres plain) by_label by_id some_labels start start-Agrees
      (refl, (refl, (refl, tt)))

edge_ensured : (ensure_edge by_label by_id 7 "a" "b" start).0 ≡ ok tt
unfolding ensure_edge execute node_id select_id find_row insert_edge
edge_ensured = refl

has_edge-ensure_edge_example :
    (has_edge by_label by_id "a" "b" (ensure_edge by_label by_id 7 "a" "b" start).1).0 ≡ ok true
has_edge-ensure_edge_example =
    has_edge-ensure_edge by_label by_id "a" "b" 7 start start-Agrees edge_ensured

has_edge-delete_edge_example :
    ((delete_edge by_label by_id "a" "b" start).0 ≡ ok tt)
    × ((has_edge by_label by_id "a" "b" (delete_edge by_label by_id "a" "b" start).1).0 ≡ ok false)
has_edge-delete_edge_example = has_edge-delete_edge by_label by_id "a" "b" start start-Agrees
