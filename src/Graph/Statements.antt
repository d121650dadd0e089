-- ===== src/Graph/Statements.antt =====
-- The statements of pub_crawler/database_graph.py on several rows, as functions of the tables.
use pub_crawler.Base.{
  String, ℕ, Bool, true, false, ◌&&◌, ◌||◌, Option, none, some, List, [], ◌∷◌, ◌==◌, ltb,
  if◌then◌else◌, map,
}
use pub_crawler.Exec.{Result, ok, raised, other, Error}
use pub_crawler.Exec.Fallible.{◌>>=◌}
use pub_crawler.Json.{Dict, put}
use pub_crawler.Platform.{Platform}
use pub_crawler.Graph.Libraries.{Postgres}
use pub_crawler.Graph.Schema.{
  select, exists, insert_new, upsert, fold, Node, Edge, Tables, same_edge, same_node_property,
  same_edge_property, has_id, insert_node,
}

abbrev pub violation : Error
violation = other "IntegrityConstraintViolationError"

append_row : {A : Type 0} → List A → List A → List A
append_row [] ys = ys
append_row (x ∷ xs) ys = x ∷ append_row xs ys

-- FROM a, b
product : {A B : Type 0} → List A → List B → List (A × B)
unfolding append_row
product [] ys = []
product (x ∷ xs) ys = append_row (map (λ y. (x, y)) ys) (product xs ys)

-- SELECT f.id, t.id FROM node f, node t WHERE ...
unfoldable pub pairs : (Node → Bool) → (Node → Bool) → Tables → List (ℕ × ℕ)
unfolding product
pairs from to t = map (λ e. (e.0.id, e.1.id)) (product (select from t.node) (select to t.node))

-- INSERT INTO edge ... VALUES ... ON CONFLICT DO NOTHING, of ids that may be NULL
unfoldable pub insert_edge : ℕ → Option ℕ → Option ℕ → Tables → Result Tables
insert_edge now (some f) (some g) t =
    if exists (has_id f) t.node && exists (has_id g) t.node
    then ok (record t {
      edge = insert_new same_edge (record { from_node = f; to_node = g; at = now }) t.edge;
    })
    else raised violation
insert_edge now f g t = raised violation

-- INSERT INTO edge SELECT ...: the ids are those of nodes.
unfoldable pub insert_edges : ℕ → List (ℕ × ℕ) → Tables → Tables
insert_edges now es t = record t {
  edge =
      fold (λ e. insert_new same_edge (record { from_node = e.0; to_node = e.1; at = now })) es
        t.edge;
}

-- INSERT INTO node_property ... ON CONFLICT DO UPDATE
unfoldable pub put_node_property : ℕ → String → String → Tables → Tables
put_node_property i name value t = record t {
  node_property =
      upsert same_node_property (record { id = i; name = name; value = value }) t.node_property;
}

unfoldable pub insert_node_property : Option ℕ → String → String → Tables → Result Tables
insert_node_property none name value t = raised violation
insert_node_property (some i) name value t =
    if exists (has_id i) t.node then ok (put_node_property i name value t) else raised violation

abbrev joins : ℕ → ℕ → Edge → Bool
joins f g e = (e.from_node == f) && (e.to_node == g)

unfoldable pub insert_edge_property : Option ℕ → Option ℕ → String → String → Tables → Result Tables
insert_edge_property (some f) (some g) name value t =
    if exists (joins f g) t.edge
    then ok (record t {
      edge_property =
          upsert same_edge_property
            (record { from_node = f; to_node = g; name = name; value = value }) t.edge_property;
    })
    else raised violation
insert_edge_property f g name value t = raised violation

module _ {p : Platform} (pg : Postgres p) where
  -- one INSERT into node of each row
  unfoldable pub insert_nodes : List String → Tables → Result Tables
  insert_nodes [] t = ok t
  insert_nodes (l ∷ ls) t = do l ← pg.varchar 256 l; insert_nodes ls (insert_node l t)

  unfoldable pub insert_node_properties : List Node → String → String → Tables → Result Tables
  insert_node_properties [] name value t = ok t
  insert_node_properties (n ∷ ns) name value t = do
    name' ← pg.varchar 32 name
    insert_node_properties ns name value (put_node_property n.id name' value t)

  unfoldable pub insert_each : Node → List (String × String) → Tables → Result Tables
  insert_each n [] t = ok t
  insert_each n ((name, value) ∷ kvs) t = do
    name ← pg.varchar 32 name
    insert_each n kvs (put_node_property n.id name value t)

  unfoldable pub insert_each_node : List Node → List (String × String) → Tables → Result Tables
  insert_each_node [] kvs t = ok t
  insert_each_node (n ∷ ns) kvs t = do t ← insert_each n kvs t; insert_each_node ns kvs t

  unfoldable pub insert_edge_properties : List (ℕ × ℕ) → String → String → Tables → Result Tables
  insert_edge_properties [] name value t = ok t
  insert_edge_properties ((f, g) ∷ es) name value t = do
    name' ← pg.varchar 32 name
    t ← insert_edge_property (some f) (some g) name' value t
    insert_edge_properties es name value t

  unfoldable pub insert_each_edge : List (ℕ × ℕ) → List (String × String) → Tables → Result Tables
  insert_each_edge es [] t = ok t
  insert_each_edge es ((name, value) ∷ kvs) t = do
    t ← insert_edge_properties es name value t
    insert_each_edge es kvs t

  -- `props[key] = orjson.loads(value)` for each row
  unfoldable pub read_rows : List (String × String) → Dict → Result Dict
  read_rows [] d = ok d
  read_rows ((k, text) ∷ rows) d = do v ← p.loads text; read_rows rows (put d k v)

  unfoldable pub distinct : List String → List String
  distinct [] = []
  distinct (x ∷ xs) = x ∷ select (λ y. if pg.same x y then false else true) (distinct xs)

  -- COALESCE(jsonb_object_agg(name, value) ..., '{}')
  unfoldable pub object_of : List (String × String) → String
  object_of [] = "{}"
  object_of kvs = pg.object_agg kvs

-- ORDER BY created_at, from_node, to_node
abbrev pub earlier : Edge → Edge → Bool
earlier e f =
    ltb e.at f.at
    || ((e.at == f.at)
        && (ltb e.from_node f.from_node
            || ((e.from_node == f.from_node) && ltb e.to_node f.to_node)))

-- LIMIT 1
unfoldable pub first_edge : List Edge → Option Edge
first_edge [] = none
first_edge (e ∷ es) = elim (first_edge es) [
  | none ↦ some e
  | some f ↦ if earlier f e then some f else some e
]
