-- ===== src/Snapshot/Cells.antt =====
-- Every number in a column of numbers fits it.
use pub_crawler.Base.{String, ℕ, ◌≤◌, List, [], ◌∷◌, All, map, leb, arith, Bool-cases, inl, inr}
use pub_crawler.Base.Int.{ℤ, pos, negsuc}
use pub_crawler.Exec.{Result}
use pub_crawler.Exec.Fallible.{Result-cases}
use pub_crawler.Json.{Value, Dict, null, bool, int, float, str, list, dict, get}
use pub_crawler.Snapshot.{
  int_cell, parsed, in_range, or_null, node_row, host_row, int_props, host_int_props, max_int32,
  max_int64,
}

-- none, a bool, or a number from zero to the column's largest
abbrev pub IsCell : ℕ → Value → Type 0
IsCell top null = Unit
IsCell top (bool b) = Unit
IsCell top (int (pos n)) = n ≤ top
IsCell top _ = ⊥

range-IsCell : (top : ℕ) (n : ℤ) → IsCell top (in_range top n)
unfolding in_range
range-IsCell top (pos n) = elim (Bool-cases (leb n top)) [
  | inl fits ↦ rw fits (ground arith)
  | inr over ↦ rw over tt
]
range-IsCell top (negsuc n) = tt

module _ (parse_int : String → Result ℤ) where
  int_cell-IsCell : (top : ℕ) (v : Value) → IsCell top (int_cell parse_int top v)
  unfolding int_cell parsed
  int_cell-IsCell top null = tt
  int_cell-IsCell top (bool b) = tt
  int_cell-IsCell top (int n) = range-IsCell top n
  int_cell-IsCell top (float m k) = tt
  int_cell-IsCell top (str s) = elim (Result-cases (parse_int s)) [
    | inl (n, e) ↦ rw e (range-IsCell top n)
    | inr (x, e) ↦ rw e tt
  ]
  int_cell-IsCell top (list vs) = tt
  int_cell-IsCell top (dict d) = tt

  cells :
      (top : ℕ) (props : Dict) (ks : List String)
      → All (IsCell top) (map (λ k. int_cell parse_int top (or_null (get props k))) ks)
  cells top props [] = tt
  cells top props (k ∷ ks) = (int_cell-IsCell top (or_null (get props k)), cells top props ks)

  -- Whatever the properties of a node or a host hold: each cell in the columns followers_count,
  -- following_count and depth of the row of a node is none, a bool or from 0 to 2 ^ 31 - 1, and each
  -- cell in the columns users_total, users_active_month, users_active_halfyear, local_posts and
  -- local_comments of the row of a host is none, a bool or from 0 to 2 ^ 63 - 1.
  pub rows-IsCell :
      {T : Type 0} (parse_time : String → Result T) (id : ℕ) (name : String) (props : Dict)
      → All (IsCell max_int32) (node_row parse_int parse_time (id, name, props)).ints
        × All (IsCell max_int64) (host_row parse_int parse_time (id, name, props)).ints
  unfolding node_row host_row
  rows-IsCell parse_time id name props =
      (cells max_int32 props int_props, cells max_int64 props host_int_props)
