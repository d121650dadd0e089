-- ===== src/Snapshot.antt =====
-- bin/snapshot.py and bin/host_snapshot.py: the rows that are written to Parquet files. A file is the
-- list of the batches that its writer was given; what pyarrow makes of them is left out. What the
-- graph or the survey yields, `datetime.fromisoformat` and `int` of a text are arguments.
pub mod Cells
pub mod Files
use mathlib.Core.Option
use pub_crawler.Base.{
  String, ℕ, ◌-◌, ◌^◌, Bool, true, false, ◌||◌, ◌&&◌, Option, none, some, List, [], ◌∷◌, map, leb,
  length, if◌then◌else◌,
}
use pub_crawler.Base.Int.{ℤ, pos, negsuc, ltb_ℤ}
use pub_crawler.Exec.{Result, ok, raised, Exec, pure, ◌>>=◌, ◌>>◌}
use pub_crawler.Json.{Value, Dict, null, bool, int, str, get}
use pub_crawler.Batches.{in_batches}
use pub_crawler.Batches.Kept.{keep_batch}

abbrev pub max_node_batch : ℕ
max_node_batch = 100000

abbrev pub max_edge_batch : ℕ
max_edge_batch = 1000000

abbrev pub max_host_batch : ℕ
max_host_batch = 100000

abbrev pub max_int32 : ℕ
max_int32 = 2 ^ 31 - 1

abbrev pub max_int64 : ℕ
max_int64 = 2 ^ 63 - 1

abbrev pub int_props : List String
int_props = "followers_count" ∷ "following_count" ∷ "depth" ∷ []

abbrev pub boolean_props : List String
boolean_props =
    "followers_pages_complete" ∷ "following_pages_complete" ∷ "followers_members_shared"
    ∷ "following_members_shared" ∷ []

abbrev pub other_props : List String
other_props = "hostname" ∷ "preferred_username" ∷ "name" ∷ "type" ∷ "summary" ∷ "properties" ∷ []

abbrev pub host_int_props : List String
host_int_props =
    "users_total" ∷ "users_active_month" ∷ "users_active_halfyear" ∷ "local_posts"
    ∷ "local_comments" ∷ []

abbrev pub host_other_props : List String
host_other_props =
    "failure" ∷ "error_detail" ∷ "nodeinfo_version" ∷ "software_name" ∷ "software_version" ∷ []

-- `props.get(prop)`
abbrev pub or_null : Option Value → Value
or_null none = null
or_null (some v) = v

abbrev pub only_bool : Value → Value
only_bool (bool b) = bool b
only_bool _ = null

-- a number that the column takes
unfoldable pub in_range : ℕ → ℤ → Value
in_range top (pos n) = if leb n top then int (pos n) else null
in_range top (negsuc n) = null

module _ (parse_int : String → Result ℤ) (top : ℕ) where
  unfoldable pub parsed : Result ℤ → Value
  unfolding in_range
  parsed (ok n) = in_range top n
  parsed (raised e) = null

  -- a bool is an int, and stays what it is
  unfoldable pub int_cell : Value → Value
  unfolding in_range parsed
  int_cell (int n) = in_range top n
  int_cell (bool b) = bool b
  int_cell (str s) = parsed (parse_int s)
  int_cell _ = null

module _ {T : Type 0} (parse_time : String → Result T) where
  time_of : Result T → Option T
  time_of (ok t) = some t
  time_of (raised e) = none

  -- whatever `fromisoformat` raises is caught
  unfoldable pub time_cell : Option Value → Option T
  unfolding time_of
  time_cell (some (str s)) = time_of (parse_time s)
  time_cell _ = none

pub record NodeRow (T : Type 0) : Type 0 where
  pub id : ℕ
  pub label : String
  pub published : Option T
  pub ints : List Value
  pub bools : List Value
  pub others : List Value

pub record HostRow (T : Type 0) : Type 0 where
  pub id : ℕ
  pub hostname : String
  pub last_fetch_date : Option T
  pub ints : List Value
  pub others : List Value

-- `max(id, max_id)`
abbrev pub larger : ℕ → ℤ → ℤ
larger i (pos m) = if leb i m then pos m else pos i
larger i (negsuc m) = pos i

unfoldable pub max_id : ℤ → List (ℕ × String × Dict) → ℤ
max_id m [] = m
max_id m ((id, label, props) ∷ rows) = max_id (larger id m) rows

-- an edge between nodes that were there when the nodes were read
unfoldable pub edge_cell : ℤ → ℕ × ℕ × Dict → Option (ℕ × ℕ)
edge_cell top (from_id, to_id, props) =
    if ltb_ℤ top (pos from_id) || ltb_ℤ top (pos to_id) then none else some (from_id, to_id)

unfoldable pub snapshot_edges : List (ℕ × ℕ × Dict) → ℤ → Exec (List (List (ℕ × ℕ))) Unit
snapshot_edges edges top = in_batches max_edge_batch keep_batch (λ e. ok (edge_cell top e)) [] edges

module _ {T : Type 0} (parse_int : String → Result ℤ) (parse_time : String → Result T) where
  unfoldable pub node_row : ℕ × String × Dict → NodeRow T
  node_row (id, label, props) = record {
    id = id;
    label = label;
    published = time_cell parse_time (get props "published");
    ints = map (λ k. int_cell parse_int max_int32 (or_null (get props k))) int_props;
    bools = map (λ k. only_bool (or_null (get props k))) boolean_props;
    others = map (λ k. or_null (get props k)) other_props;
  }

  unfoldable pub host_row : ℕ × String × Dict → HostRow T
  host_row (id, hostname, props) = record {
    id = id;
    hostname = hostname;
    last_fetch_date = time_cell parse_time (get props "last_fetch_date");
    ints = map (λ k. int_cell parse_int max_int64 (or_null (get props k))) host_int_props;
    others = map (λ k. or_null (get props k)) host_other_props;
  }

  -- the file of nodes, and the largest id, or -1
  unfoldable pub snapshot_nodes : List (ℕ × String × Dict) → Exec (List (List (NodeRow T))) ℤ
  snapshot_nodes rows = do
    in_batches max_node_batch keep_batch (λ r. ok (some (node_row r))) [] rows
    pure (max_id (negsuc 0) rows)

  -- the file of hosts, and how many there are
  unfoldable pub snapshot_hosts : List (ℕ × String × Dict) → Exec (List (List (HostRow T))) ℕ
  snapshot_hosts rows = do
    in_batches max_host_batch keep_batch (λ r. ok (some (host_row r))) [] rows
    pure (length rows)

  -- the two files
  unfoldable pub snapshot :
      List (ℕ × String × Dict) → List (ℕ × ℕ × Dict) → List (List (NodeRow T)) × List (List (ℕ × ℕ))
  snapshot rows edges =
      let (top, nodes) = snapshot_nodes rows [] in
      elim top [
        | raised e ↦ (nodes, [])
        | ok top ↦ let (_, edges) = snapshot_edges edges top [] in (nodes, edges)
      ]
