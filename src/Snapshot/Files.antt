-- ===== src/Snapshot/Files.antt =====
-- What the files of a snapshot hold.
use pub_crawler.Base.{String, ℕ, ◌≤◌, ◌≡◌, false, List, In}
use pub_crawler.Base.Int.{ℤ, pos, ltb_ℤ}
use pub_crawler.Json.{Dict}
use pub_crawler.Batches.Kept.{Kept}

abbrev pub Row : Type 0
Row = ℕ × String × Dict

module _ (top : ℤ) where
  abbrev Within : ℕ × ℕ → Type 0
  Within e = (ltb_ℤ top (pos e.0) ≡ false) × (ltb_ℤ top (pos e.1) ≡ false)

-- an id is not over that of some row
abbrev pub Covered : List Row → ℕ → Type 0
Covered rows i = (r : Row) × In r rows × (i ≤ r.0)
