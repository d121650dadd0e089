-- ===== src/Graph/Schema.antt =====
-- pub_crawler/database.py: the tables of the graph, as lists of rows, and what the statements of
-- pub_crawler/database_graph.py do to them. No statement reads the times of a node or a property.
use pub_crawler.Base.{
  String, ℕ, suc, Bool, false, not, ◌&&◌, ◌||◌, Option, none, some, List, [], ◌∷◌, ◌==◌, str_eq,
  if◌then◌else◌, is_some,
}

-- the rows for which the test holds
unfoldable pub select : {A : Type 0} → (A → Bool) → List A → List A
select f [] = []
select f (x ∷ xs) = if f x then x ∷ select f xs else select f xs

-- the first such row
unfoldable pub find_row : {A : Type 0} → (A → Bool) → List A → Option A
find_row f [] = none
find_row f (x ∷ xs) = if f x then some x else find_row f xs

abbrev pub exists : {A : Type 0} → (A → Bool) → List A → Bool
exists f xs = is_some (find_row f xs)

-- at the end of the table
unfoldable pub insert_row : {A : Type 0} → A → List A → List A
insert_row x [] = x ∷ []
insert_row x (y ∷ ys) = y ∷ insert_row x ys

-- INSERT ... ON CONFLICT DO NOTHING, where `same` compares the keys
abbrev pub insert_new : {A : Type 0} → (A → A → Bool) → A → List A → List A
insert_new same x xs = if exists (same x) xs then xs else insert_row x xs

-- INSERT ... ON CONFLICT DO UPDATE
unfoldable pub upsert : {A : Type 0} → (A → A → Bool) → A → List A → List A
upsert same x [] = x ∷ []
upsert same x (y ∷ ys) = if same x y then x ∷ ys else y ∷ upsert same x ys

unfoldable pub fold : {A B : Type 0} → (A → B → B) → List A → B → B
fold f [] b = b
fold f (x ∷ xs) b = fold f xs (f x b)

-- `l = ANY(ls)`
unfoldable pub any_of : List String → String → Bool
any_of [] l = false
any_of (k ∷ ks) l = str_eq k l || any_of ks l

pub record Node : Type 0 where
  pub id : ℕ
  pub label : String

-- `at` is created_at
pub record Edge : Type 0 where
  pub from_node : ℕ
  pub to_node : ℕ
  pub at : ℕ

-- `value` is the text that the JSONB column gives
pub record NodeProperty : Type 0 where
  pub id : ℕ
  pub name : String
  pub value : String

pub record EdgeProperty : Type 0 where
  pub from_node : ℕ
  pub to_node : ℕ
  pub name : String
  pub value : String

-- `next` is the identity that the next row of `node` gets.
pub record Tables : Type 0 where
  pub node : List Node
  pub edge : List Edge
  pub node_property : List NodeProperty
  pub edge_property : List EdgeProperty
  pub next : ℕ

-- the primary keys
abbrev pub same_edge : Edge → Edge → Bool
same_edge e f = (e.from_node == f.from_node) && (e.to_node == f.to_node)

abbrev pub same_node_property : NodeProperty → NodeProperty → Bool
same_node_property p q = (p.id == q.id) && str_eq p.name q.name

abbrev pub same_edge_property : EdgeProperty → EdgeProperty → Bool
same_edge_property p q =
    (p.from_node == q.from_node) && ((p.to_node == q.to_node) && str_eq p.name q.name)

abbrev pub has_label : String → Node → Bool
has_label l n = str_eq n.label l

abbrev pub has_id : ℕ → Node → Bool
has_id i n = n.id == i

abbrev pub id_of : Option Node → Option ℕ
id_of none = none
id_of (some n) = some n.id

abbrev pub label_of : Option Node → Option String
label_of none = none
label_of (some n) = some n.label

-- SELECT id FROM node WHERE label=$1
unfoldable pub select_id : String → Tables → Option ℕ
select_id l t = id_of (find_row (has_label l) t.node)

-- SELECT label FROM node WHERE id=$1
unfoldable pub select_label : ℕ → Tables → Option String
select_label i t = label_of (find_row (has_id i) t.node)

-- One row of an INSERT into node. The identity is drawn before a conflict is found.
unfoldable pub insert_node : String → Tables → Tables
insert_node l t = if exists (has_label l) t.node then record t { next = suc t.next } else record t {
  node = insert_row (record { id = t.next; label = l }) t.node;
  next = suc t.next;
}

abbrev touches : ℕ → Edge → Bool
touches i e = (e.from_node == i) || (e.to_node == i)

abbrev edge_property_touches : ℕ → EdgeProperty → Bool
edge_property_touches i p = (p.from_node == i) || (p.to_node == i)

-- DELETE FROM node, with ON DELETE CASCADE
unfoldable pub delete_node_row : ℕ → Tables → Tables
delete_node_row i t = record t {
  node = select (λ n. not (has_id i n)) t.node;
  edge = select (λ e. not (touches i e)) t.edge;
  node_property = select (λ p. not (p.id == i)) t.node_property;
  edge_property = select (λ p. not (edge_property_touches i p)) t.edge_property;
}

-- DELETE FROM edge, with ON DELETE CASCADE
unfoldable pub delete_edge_row : ℕ → ℕ → Tables → Tables
delete_edge_row f g t = record t {
  edge = select (λ e. not ((e.from_node == f) && (e.to_node == g))) t.edge;
  edge_property = select (λ p. not ((p.from_node == f) && (p.to_node == g))) t.edge_property;
}
