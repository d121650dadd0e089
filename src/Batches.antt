-- ===== src/Batches.antt =====
-- The loop that gathers items in batches, as the programs under fixup and bin/snapshot.py have it.
pub mod Joined
pub mod Kept
use mathlib.Core.List.{◌++◌}
use pub_crawler.Base.{ℕ, Option, none, some, List, [], ◌∷◌, leb, length, if◌then◌else◌}
use pub_crawler.Exec.{Result, ok, raised, Exec, pure, raise, ◌>>◌, ◌>>=◌}

-- `for entry in scan: ...; batch.append(item); if len(batch) >= size: write(batch); batch = []`, and
-- the rest at the end, where `keep` gives the item for an entry, or none to go on
unfoldable pub in_batches :
    {S E I : Type 0}
    → ℕ
    → (List I → Exec S Unit)
    → (E → Result (Option I))
    → List I
    → List E
    → Exec S Unit
in_batches size write keep [] [] = pure tt
in_batches size write keep (i ∷ batch) [] = write (i ∷ batch)
in_batches size write keep batch (e ∷ es) =
    let skipped = in_batches size write keep batch es in
    elim (keep e) [
      | raised x ↦ raise x
      | ok o ↦ elim o [
        | none ↦ skipped
        | some i ↦
            let written = write (batch ++ (i ∷ [])) >> in_batches size write keep [] es in
            let gathered = in_batches size write keep (batch ++ (i ∷ [])) es in
            if leb size (length (batch ++ (i ∷ []))) then written else gathered
      ]
    ]
