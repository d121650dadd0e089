-- ===== src/Migrations/Order.antt =====
-- pub_crawler/database.py: which migrations `database_setup` runs, and what it leaves.
use mathlib.Core.List.{◌++◌}
use Prim.Native.String.{count}
use pub_crawler.Base.{
  String, ◌≡◌, refl, sym, ap, ◌∙◌, true, false, ◌||◌, some, List, [], ◌∷◌, ltb, map, str_eq, eq_iff,
  arith, Bool-cases, inl, inr, append_assoc, append-nil, if◌then◌else◌,
}
use pub_crawler.Exec.{Result, Error, ok, raised, continue_with}
use pub_crawler.Exec.Fallible.{Result-cases}
use pub_crawler.Redis.{contains}
use pub_crawler.Migrations.Ddl.{migrations}
use pub_crawler.Migrations.{
  Database, or_no_names, named, ensure_migrations, get_applied_migrations, committed, transaction,
  with_row, insert_migration, execute, apply_migration, apply_each, database_setup,
}

abbrev pub names_of : List (String × String) → List String
names_of ms = map (λ m. m.0) ms

-- the migrations that are not in the table
unfoldable pub pending : List String → List (String × String) → List (String × String)
pending seen [] = []
pending seen ((name, ddl) ∷ ms) =
    let rest = pending seen ms in if contains seen name then rest else (name, ddl) ∷ rest

module _ {S : Type 0} (run : String → S → Result S) where
  -- Statements are run one after the other, up to the first that raises; the names are those of the
  -- ones that did not.
  pub data Ran : S → List (String × String) → Result (Unit {0}) → S → List String → Type 0 where
    finished : {s : S} → Ran s [] (ok tt) s []
    failed :
        {s : S} {name ddl : String} {ms : List (String × String)} {e : Error}
        → run ddl s ≡ raised e
        → Ran s ((name, ddl) ∷ ms) (raised e) s []
    ran :
        {s t u : S} {name ddl : String} {ms : List (String × String)} {r : Result (Unit {0})}
        {names : List String}
        → run ddl s ≡ ok t
        → Ran t ms r u names
        → Ran s ((name, ddl) ∷ ms) r u (name ∷ names)

-- The names fit their column and are all different.
abbrev Named : List (String × String) → Type 0
Named [] = Unit
Named (m ∷ ms) = (ltb 32 (count m.0) ≡ false) × (contains (names_of ms) m.0 ≡ false) × Named ms

migrations-Named : Named migrations
unfolding contains
migrations-Named = (
  refl,
  refl,
  (
    refl,
    refl,
    (refl, refl, (refl, refl, (refl, refl, (refl, refl, (refl, refl, (refl, refl, tt)))))),
  ),
)

pub contains_first : (ks : List String) (k : String) → contains (k ∷ ks) k ≡ true
unfolding contains
contains_first ks k = rw ((eq_iff k k).1 refl) refl

pub contains_later :
    (x : String) (ks : List String) (k : String) → contains ks k ≡ true → contains (x ∷ ks) k ≡ true
unfolding contains
contains_later x ks k h = ground (arith, h)

pub contains-append :
    (xs ys : List String) (m : String) → contains (xs ++ ys) m ≡ (contains xs m || contains ys m)
unfolding contains
contains-append [] ys m = refl
contains-append (x ∷ xs) ys m = rw (contains-append xs ys m) (ground arith)

module _ {S : Type 0} (run : String → S → Result S) where
  abbrev at : S → List String → Database S
  at s rows = record { schema = s; applied = some rows }

  record Outcome (s : S) (rows : List String) (ms : List (String × String))
      (out : Result (Unit {0}) × Database S) : Type 0 where
    names : List String
    went : Ran run s ms out.0 out.1.schema names
    recorded : out.1.applied ≡ some (rows ++ names)

  executed :
      (ddl : String) (s t : S) (rows : List String)
      → run ddl s ≡ ok t
      → execute run ddl (at s rows) ≡ (ok tt, at t rows)
  unfolding execute
  executed ddl s t rows e = rw (e, execute) refl

  refused :
      (ddl : String) (s : S) (rows : List String) (e : Error)
      → run ddl s ≡ raised e
      → execute run ddl (at s rows) ≡ (raised e, at s rows)
  unfolding execute
  refused ddl s rows e h = rw (h, execute) refl

  inserted :
      (name : String) (t : S) (rows : List String)
      → ltb 32 (count name) ≡ false
      → contains rows name ≡ false
      → insert_migration name (at t rows) ≡ (ok tt, at t (rows ++ (name ∷ [])))
  unfolding insert_migration get_applied_migrations named with_row
  inserted name t rows fits new = rw (fits, new) refl

  applied_ok :
      (name ddl : String) (s t : S) (rows : List String)
      → run ddl s ≡ ok t
      → ltb 32 (count name) ≡ false
      → contains rows name ≡ false
      → apply_migration run name ddl (at s rows) ≡ (ok tt, at t (rows ++ (name ∷ [])))
  unfolding apply_migration transaction committed
  applied_ok name ddl s t rows e fits new = ap (committed (at s rows)) (
      ap (λ c. continue_with (λ _. insert_migration name) c.0 c.1) (executed ddl s t rows e)
      ∙ inserted name t rows fits new)

  applied_raised :
      (name ddl : String) (s : S) (rows : List String) (e : Error)
      → run ddl s ≡ raised e
      → apply_migration run name ddl (at s rows) ≡ (raised e, at s rows)
  unfolding apply_migration transaction committed
  applied_raised name ddl s rows e h =
      ap (λ c. committed (at s rows) (continue_with (λ _. insert_migration name) c.0 c.1))
        (refused ddl s rows e h)

  still_new :
      (seen rows : List String) (name : String) (ms : List (String × String))
      → contains (names_of ms) name ≡ false
      → ((k : String) → contains (names_of ms) k ≡ true → contains rows k ≡ contains seen k)
      → (k : String) → contains (names_of ms) k ≡ true
      → contains (rows ++ (name ∷ [])) k ≡ contains seen k
  unfolding contains
  still_new seen rows name ms new same k i =
      contains-append rows (name ∷ []) k ∙ elim (Bool-cases (str_eq name k)) [
        | inr other ↦ rw other (ground (arith, same k i))
        | inl e ↦ absurd (cc (new, i, (eq_iff name k).0 e))
      ]

  each_lem :
      (seen rows : List String) (ms : List (String × String)) (s : S)
      → Named ms
      → ((k : String) → contains (names_of ms) k ≡ true → contains rows k ≡ contains seen k)
      → Outcome s rows (pending seen ms) (apply_each run seen ms (at s rows))
  unfolding apply_each pending
  each_lem seen rows [] s fine same = record {
    names = [];
    went = finished;
    recorded = ap some (sym (append-nil rows));
  }
  each_lem seen rows ((name, ddl) ∷ ms) s (fits, new, fine) same =
      let rest : (k : String)
          → contains (names_of ms) k ≡ true
          → contains rows k ≡ contains seen k =
        λ k i. same k (contains_later name (names_of ms) k i) in
      elim (Bool-cases (contains seen name)) [
        | inl old ↦ rw (apply_each, pending, old) (each_lem seen rows ms s fine rest)
        | inr unseen ↦ elim (Result-cases (run ddl s)) [
          | inr (e, h) ↦
              rw (apply_each, pending, unseen, applied_raised name ddl s rows e h)
                (record { names = []; went = failed h; recorded = ap some (sym (append-nil rows)) })
          | inl (t, h) ↦
              let more =
                each_lem seen (rows ++ (name ∷ [])) ms t fine
                  (still_new seen rows name ms new rest) in
              rw
                (
                  apply_each,
                  pending,
                  unseen,
                  applied_ok name ddl s t rows h fits
                      (same name (contains_first (names_of ms) name) ∙ unseen),
                )
                (record {
                  names = name ∷ more.names;
                  went = ran h more.went;
                  recorded = more.recorded ∙ ap some (append_assoc rows (name ∷ []) more.names);
                })
        ]
      ]

  -- Of the migrations, those that are not in the table of migrations are run in their order, up to
  -- the first that raises. What that one raised is raised; where none does, the call returns. The
  -- names of those that were run without raising are added to the table, and nothing else is
  -- changed: the schema is what they made of it.
  pub database_setup_lem :
      (d : Database S)
      → let out = database_setup run d in
        (names : List String) × Ran run d.schema
          (pending (or_no_names d.applied) migrations)
          out.0
          out.1.schema
          names
        × (out.1.applied ≡ some (or_no_names d.applied ++ names))
  unfolding database_setup ensure_migrations get_applied_migrations named
  database_setup_lem d =
      let rows = or_no_names d.applied in
      let o = each_lem rows rows migrations d.schema migrations-Named (λ k i. refl) in
      (o.names, o.went, o.recorded)
