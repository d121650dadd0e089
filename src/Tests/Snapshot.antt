-- ===== src/Tests/Snapshot.antt =====
-- The rows of snapshots of small graphs.
use pub_crawler.Base.{String, str_eq, ℕ, ◌≡◌, refl, List, [], ◌∷◌, All, if◌then◌else◌}
use pub_crawler.Base.Int.{ℤ, pos, negsuc}
use pub_crawler.Exec.{Result, ok, raised, value_error}
use pub_crawler.Json.{Dict, int, str, empty, entry}
use pub_crawler.Batches.{in_batches}
use pub_crawler.Batches.Kept.{keep_batch}
use pub_crawler.Snapshot.{
  node_row, host_row, snapshot_nodes, snapshot_edges, edge_cell, snapshot, max_id, max_int32,
  max_int64,
}
use pub_crawler.Snapshot.Cells.{IsCell, rows-IsCell}
use pub_crawler.Snapshot.Files.{Row}

-- the texts that are read
abbrev parse_int : String → Result ℤ
parse_int s = if str_eq s "7" then ok (pos 7) else raised value_error

abbrev parse_time : String → Result ℕ
parse_time s = raised value_error

abbrev props : Dict
props = entry "followers_count" (str "7") (
    entry "following_count" (int (pos 4000000000))
      (entry "depth" (int (negsuc 0)) (entry "published" (str "yesterday") empty)))

rows-IsCell_example :
    All (IsCell max_int32) (node_row parse_int parse_time (3, "a", props)).ints
    × All (IsCell max_int64) (host_row parse_int parse_time (3, "a", props)).ints
rows-IsCell_example = rows-IsCell parse_int parse_time 3 "a" props

abbrev rows : List Row
rows = (3, "a", props) ∷ (1, "b", empty) ∷ []

abbrev edges : List (ℕ × ℕ × Dict)
edges = (1, 3, empty) ∷ (1, 4, empty) ∷ (3, 1, empty) ∷ []

kept_edges : (snapshot parse_int parse_time rows edges).1 ≡ ((1, 3) ∷ (3, 1) ∷ []) ∷ []
unfolding snapshot snapshot_nodes snapshot_edges edge_cell in_batches keep_batch max_id
kept_edges = refl
