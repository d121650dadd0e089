-- ===== src/Migrations/Again.antt =====
-- pub_crawler/database.py: a second run of `database_setup`.
use mathlib.Core.List.{◌++◌}
use pub_crawler.Base.{
  String, ◌≡◌, refl, sym, ap, ◌∙◌, subst, true, ◌||◌, some, List, [], ◌∷◌, str_eq, eq_iff, arith,
  Bool-cases, inl, inr,
}
use pub_crawler.Exec.{Result, ok}
use pub_crawler.Redis.{contains}
use pub_crawler.Migrations.Ddl.{migrations}
use pub_crawler.Migrations.{
  Database, or_no_names, named, ensure_migrations, get_applied_migrations, apply_each,
  database_setup,
}
use pub_crawler.Migrations.Order.{
  Ran, finished, failed, ran, names_of, pending, contains_first, contains_later, contains-append,
  database_setup_lem,
}

-- every migration is in the table or pending
known :
    (seen : List String) (ms : List (String × String)) (k : String)
    → contains (names_of ms) k ≡ true
    → (contains seen k || contains (names_of (pending seen ms)) k) ≡ true
unfolding contains pending
known seen [] k h = absurd (cc)
known seen ((name, ddl) ∷ ms) k h = elim (Bool-cases (contains seen name)) [
  | inl old ↦ elim (Bool-cases (str_eq name k)) [
    | inl same ↦ rw (sym (ap (contains seen) ((eq_iff name k).0 same)), old) refl
    | inr other ↦ rw old (known seen ms k (rw other at h))
  ]
  | inr new ↦ rw new (ground (arith, known seen ms k))
]

module _ {S : Type 0} (run : String → S → Result S) where
  -- where no statement raised, all were run
  names-Ran :
      {s t : S} {ms : List (String × String)} {r : Result (Unit {0})} {names : List String}
      → Ran run s ms r t names
      → r ≡ ok tt
      → names ≡ names_of ms
  names-Ran finished e = refl
  names-Ran (failed h) e = absurd (cc)
  names-Ran (ran {name} h rest) e = ap (λ l. name ∷ l) (names-Ran rest e)

  nothing_left :
      (seen : List String) (ms : List (String × String)) (d : Database S)
      → ((k : String) → contains (names_of ms) k ≡ true → contains seen k ≡ true)
      → apply_each run seen ms d ≡ (ok tt, d)
  unfolding apply_each
  nothing_left seen [] d h = refl
  nothing_left seen ((name, ddl) ∷ ms) d h =
      rw (apply_each, h name (contains_first (names_of ms) name))
        (nothing_left seen ms d (λ k i. h k (contains_later name (names_of ms) k i)))

  settled :
      (rows : List String) (d : Database S)
      → d.applied ≡ some rows
      → ((k : String) → contains (names_of migrations) k ≡ true → contains rows k ≡ true)
      → database_setup run d ≡ (ok tt, d)
  unfolding database_setup ensure_migrations get_applied_migrations named or_no_names
  settled rows d e h =
      subst (λ o. database_setup run (record d { applied = o }) ≡ (ok tt, record d { applied = o }))
        (sym e) (nothing_left rows migrations (record d { applied = some rows }) h)

module _ {S : Type 0} (run : String → S → Result S) where
  -- After a run that returns, another one runs no migration and changes nothing, whatever the
  -- statements would do.
  pub database_setup_again :
      (d : Database S)
      → (database_setup run d).0 ≡ ok tt
      → (run' : String → S → Result S)
      → database_setup run' (database_setup run d).1 ≡ database_setup run d
  database_setup_again d returned run' =
      let rows = or_no_names d.applied in
      let out = database_setup run d in
      let (names, went, recorded) = database_setup_lem run d in
      settled run' (rows ++ names) out.1 recorded (λ k i.
        contains-append rows names k
        ∙ ap (λ l. contains rows k || contains l k) (names-Ran run went returned)
        ∙ known rows migrations k i)
      ∙ ap (λ r. (r, out.1)) (sym returned)
