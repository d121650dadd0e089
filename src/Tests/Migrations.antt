-- ===== src/Tests/Migrations.antt =====
-- The migrations on a database that lists the statements that it ran.
use mathlib.Core.List.{◌++◌}
use pub_crawler.Base.{String, str_eq, ◌≡◌, refl, none, some, List, [], ◌∷◌, if◌then◌else◌}
use pub_crawler.Exec.{Result, ok, raised, other}
use pub_crawler.Redis.{contains}
use pub_crawler.Migrations.Ddl.{
  migrations, create_edge_table, create_edge_to_node_idx, create_host_table,
}
use pub_crawler.Migrations.{
  Database, or_no_names, database_setup, ensure_migrations, get_applied_migrations, apply_each,
  apply_migration, transaction, committed, execute, insert_migration, named, with_row,
}
use pub_crawler.Migrations.Order.{Ran, pending, database_setup_lem}
use pub_crawler.Migrations.Again.{database_setup_again}

-- the statements that were run; the tables of hosts cannot be made
abbrev run : String → List String → Result (List String)
run ddl s = if str_eq ddl create_host_table then raised (other "refused") else ok (ddl ∷ s)

abbrev run_any : String → List String → Result (List String)
run_any ddl s = ok (ddl ∷ s)

abbrev half : Database (List String)
half = record {
  schema = [];
  applied =
      some ("create_node_table" ∷ "create_node_property_table" ∷ "create_edge_property_table" ∷ []);
}

half_way : database_setup run half ≡ (
  raised (other "refused"),
  record {
    schema = create_edge_to_node_idx ∷ create_edge_table ∷ [];
    applied = some (
        "create_node_table" ∷ "create_node_property_table" ∷ "create_edge_property_table"
        ∷ "create_edge_table" ∷ "create_edge_to_node_idx" ∷ []);
  },
)
unfolding database_setup ensure_migrations get_applied_migrations apply_each apply_migration
    transaction committed execute insert_migration named with_row or_no_names contains
half_way = refl

database_setup_lem_example :
    (names : List String) × Ran run []
      (pending (or_no_names half.applied) migrations)
      (database_setup run half).0
      (database_setup run half).1.schema
      names
    × ((database_setup run half).1.applied ≡ some (or_no_names half.applied ++ names))
database_setup_lem_example = database_setup_lem run half

abbrev fresh : Database (List String)
fresh = record { schema = []; applied = none }

fresh_returned : (database_setup run_any fresh).0 ≡ ok tt
unfolding database_setup ensure_migrations get_applied_migrations apply_each apply_migration
    transaction committed execute insert_migration named with_row or_no_names contains
fresh_returned = refl

database_setup_again_example :
    database_setup run (database_setup run_any fresh).1 ≡ database_setup run_any fresh
database_setup_again_example = database_setup_again run_any fresh fresh_returned run
