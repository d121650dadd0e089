-- ===== src/Migrations.antt =====
-- pub_crawler/database.py: the migrations, and `database_setup`, which runs those that have not been
-- applied. What PostgreSQL makes of a statement that defines tables is an argument; the table of
-- migrations is modelled.
pub mod Ddl
pub mod Order
pub mod Again
use mathlib.Core.List.{◌++◌}
use Prim.Native.String.{count}
use pub_crawler.Base.{
  String, ℕ, Bool, true, false, not, Option, none, some, List, [], ◌∷◌, ltb, if◌then◌else◌,
}
use pub_crawler.Exec.{Result, ok, raised, other, Exec, pure, raise, lift, modify, gets, ◌>>=◌, ◌>>◌}
use pub_crawler.Redis.{contains}
use pub_crawler.Migrations.Ddl.{migrations}

-- the rest of the database, and the names in the table of migrations, none where there is no table
pub record Database (S : Type 0) : Type 0 where
  pub schema : S
  pub applied : Option (List String)

unfoldable pub or_no_names : Option (List String) → List String
or_no_names none = []
or_no_names (some names) = names

abbrev pub Act : Type 0 → Type 0 → Type 0
Act S A = Exec (Database S) A

unfoldable pub ensure_migrations : {S : Type 0} → Act S Unit
unfolding or_no_names
ensure_migrations = modify (λ d. record d { applied = some (or_no_names d.applied) })

unfoldable pub named : Option (List String) → Result (List String)
named none = raised (other "UndefinedTableError")
named (some names) = ok names

unfoldable pub get_applied_migrations : {S : Type 0} → Act S (List String)
unfolding named
get_applied_migrations d = (named d.applied, d)

-- `async with connection.transaction()`: all of it, or nothing
unfoldable pub committed :
    {S : Type 0} → Database S → Result (Unit {0}) × Database S → Result (Unit {0}) × Database S
committed before (ok a, after) = (ok a, after)
committed before (raised e, after) = (raised e, before)

unfoldable pub transaction : {S : Type 0} → Act S Unit → Act S Unit
unfolding committed
transaction m d = committed d (m d)

-- a row of the table, whose names are texts of up to 32 characters and all different
unfoldable pub with_row : String → List String → Result (List String)
with_row name names =
    if ltb 32 (count name)
    then raised (other "StringDataRightTruncationError")
    else if contains names name
    then raised (other "UniqueViolationError")
    else ok (names ++ (name ∷ []))

unfoldable pub insert_migration : {S : Type 0} → String → Act S Unit
unfolding named with_row
insert_migration name = do
  names ← get_applied_migrations
  names ← lift (with_row name names)
  modify (λ d. record d { applied = some names })

module _ {S : Type 0} (run : String → S → Result S) where
  unfoldable pub execute : String → Act S Unit
  execute ddl d = elim (run ddl d.schema) [
    | ok s ↦ (ok tt, record d { schema = s })
    | raised e ↦ (raised e, d)
  ]

  unfoldable pub apply_migration : String → String → Act S Unit
  apply_migration name ddl = transaction (execute ddl >> insert_migration name)

  -- the loop over the migrations
  unfoldable pub apply_each : List String → List (String × String) → Act S Unit
  apply_each applied [] = pure tt
  apply_each applied ((name, ddl) ∷ rest) =
      let later = apply_each applied rest in
      if contains applied name then later else apply_migration name ddl >> later

  unfoldable pub database_setup : Act S Unit
  database_setup = do
    ensure_migrations
    applied ← get_applied_migrations
    apply_each applied migrations
