-- ===== src/HostSurvey/Hosts.antt =====
-- What `ensure_hosts` and `delete_host` leave behind.
use pub_crawler.Base.{
  String, ℕ, ◌≡◌, ◌≢◌, refl, sym, ap, ◌∙◌, subst, true, false, not, some, List, [], ◌∷◌, ◌==◌,
  str_eq, eq_iff, arith, Bool-cases, Option-cases, inl, inr, All, is_some,
}
use pub_crawler.Exec.{Result, ok}
use pub_crawler.Exec.Fallible.{ok_injective}
use pub_crawler.Platform.{Platform}
use pub_crawler.Graph.Libraries.{Lru, Postgres}
use pub_crawler.Graph.Schema.{select, find_row, exists, any_of}
use pub_crawler.Graph.Rows.{
  insert_row_found, All-select, select-none, any_of-select, any_of-of-select,
}
use pub_crawler.HostSurvey.{
  HostSurvey, execute, host_id, has_host, ensure_hosts, upsert_hosts, in_host_cache, delete_host,
}
use pub_crawler.HostSurvey.Schema.{
  HostProperty, Tables, has_name, id_of, select_host, insert_host, insert_hosts, missing_host,
  delete_host_row,
}
use pub_crawler.HostSurvey.Sound.{IsSound, Keeps, insert_host-Keeps, insert_host-IsSound}
use pub_crawler.HostSurvey.Lookup.{Agrees, host_id_lem, has_host_lem}
use pub_crawler.HostSurvey.Deletion.{gone_host, other_host}
use pub_crawler.HostSurvey.Invariant.{IsValid, delete-IsValid}

module _ (hosts : Lru String ℕ) (n : String) (s : HostSurvey hosts) (w : IsValid hosts s) where
  abbrev deleted : HostSurvey hosts
  deleted = (delete_host hosts n s).1

  abbrev looked : HostSurvey hosts
  looked = (host_id hosts n s).1

  outcome : delete_host hosts n s ≡ (
    ok tt,
    record looked {
      db = delete_host_row (select_host n s.db) looked.db;
      host_cache = hosts.drop n looked.host_cache;
    },
  )
  unfolding delete_host execute
  outcome = let k = host_id_lem hosts s w.agrees n in rw (k.result, execute) refl

  deleted_db : deleted.db ≡ delete_host_row (select_host n s.db) s.db
  unfolding delete_host execute
  deleted_db =
      let k = host_id_lem hosts s w.agrees n in
      ap (λ c. c.1.db) outcome ∙ ap (delete_host_row (select_host n s.db)) k.same

  none_left :
      (i : ℕ) (rs : List HostProperty)
      → select (λ r. r.id == i) (select (λ r. not (r.id == i)) rs) ≡ []
  unfolding select
  none_left i [] = refl
  none_left i (r ∷ rs) = ground (arith, none_left i rs)

  properties_gone :
      (i : ℕ)
      → select_host n s.db ≡ some i
      → select (λ r. r.id == i) (delete_host_row (select_host n s.db) s.db).host_property ≡ []
  unfolding delete_host_row
  properties_gone i h = rw (h, delete_host_row) (none_left i s.db.host_property)

  -- In a valid state `delete_host` returns; afterwards there is no host of that name, the table of
  -- properties has none of the identity that it had, and there is a host of another name just when
  -- there was.
  pub delete_host_lem :
      ((delete_host hosts n s).0 ≡ ok tt)
      × ((has_host hosts n (delete_host hosts n s).1).0 ≡ ok false)
      × ((i : ℕ)
          → select_host n s.db ≡ some i
          → select (λ r. r.id == i) (delete_host hosts n s).1.db.host_property ≡ [])
      × ((m : String)
          → n ≢ m
          → (has_host hosts m (delete_host hosts n s).1).0 ≡ (has_host hosts m s).0)
  delete_host_lem =
      let v = delete-IsValid hosts n s w in
      (
        ap (λ c. c.0) outcome,
        (has_host_lem hosts deleted v.agrees n).result
            ∙ ap (λ t. ok (is_some (select_host n t))) deleted_db
            ∙ ap (λ o. ok (is_some o)) (gone_host s.db w.sound n),
        λ i h. ap (λ t. select (λ r. r.id == i) t.host_property) deleted_db ∙ properties_gone i h,
        λ m apart.
            (has_host_lem hosts deleted v.agrees m).result
            ∙ ap (λ t. ok (is_some (select_host m t))) deleted_db
            ∙ ap (λ o. ok (is_some o)) (other_host s.db w.sound n m apart)
            ∙ sym (has_host_lem hosts s w.agrees m).result,
      )

abbrev pub Present : String → Tables → Type 0
Present n t = is_some (select_host n t) ≡ true

Present-later : (n : String) (t u : Tables) → Keeps t u → Present n t → Present n u
Present-later n t u k h = elim (Option-cases (select_host n t)) [
  | inl absent ↦ absurd (cc (rw absent at h))
  | inr (i, found) ↦ rw (k n i found) refl
]

Present-iff : (n : String) (t : Tables) → exists (has_name n) t.host ≡ is_some (select_host n t)
unfolding select_host
Present-iff n t = elim (Option-cases (find_row (has_name n) t.host)) [
  | inl absent ↦ rw absent refl
  | inr (h, found) ↦ rw found refl
]

inserted : (n : String) (t : Tables) → Present n (insert_host n t)
unfolding select_host insert_host
inserted n t = elim (Bool-cases (exists (has_name n) t.host)) [
  | inl there ↦ rw there (sym (Present-iff n t) ∙ there)
  | inr new ↦ rw new (
      ap (λ o. is_some (id_of o))
        (insert_row_found (has_name n) (record { id = t.next; hostname = n }) t.host new
          (ground (arith, eq_iff n n))))
]

module _ {p : Platform} (pg : Postgres p) where
  -- the names fit their column
  abbrev pub Fit : List String → Type 0
  Fit ns = All (λ n. pg.varchar 256 n ≡ ok n) ns

  record Inserted (ns : List String) (t : Tables) : Type 0 where
    after : Tables
    result : insert_hosts pg ns t ≡ ok after
    sound : IsSound after
    keeps : Keeps t after
    present : (n : String) → any_of ns n ≡ true → Present n after

  insert_hosts_lem : (ns : List String) (t : Tables) → IsSound t → Fit ns → Inserted ns t
  unfolding insert_hosts any_of
  insert_hosts_lem [] t w fit = record {
    after = t;
    result = refl;
    sound = w;
    keeps = λ n i h. h;
    present = λ n h. absurd (cc);
  }
  insert_hosts_lem (n ∷ ns) t w fit =
      let rest = insert_hosts_lem ns (insert_host n t) (insert_host-IsSound t w n) fit.1 in
      record {
        after = rest.after;
        result = rw (fit.0, insert_hosts, rest.result) refl;
        sound = rest.sound;
        keeps = λ m i h. rest.keeps m i (insert_host-Keeps t w n m i h);
        present = λ m h. elim (Bool-cases (str_eq n m)) [
          | inl same ↦
              Present-later m (insert_host n t) rest.after rest.keeps
                (subst (λ x. Present x (insert_host n t)) ((eq_iff n m).0 same) (inserted n t))
          | inr other ↦ rest.present m (rw other at h)
        ];
      }

  module _ (hosts : Lru String ℕ) (ns : List String) where
    abbrev ensure : HostSurvey hosts → Result (Unit {0}) × HostSurvey hosts
    ensure = ensure_hosts hosts pg ns

    upsert_lem :
        (ms : List String) (s : HostSurvey hosts) (u : Tables)
        → insert_hosts pg (select (missing_host s.db) ms) s.db ≡ ok u
        → upsert_hosts hosts pg ms s ≡ (ok tt, record s { db = u })
    unfolding upsert_hosts execute insert_hosts select
    upsert_lem [] s u h = ap (λ t. (ok tt, record s { db = t })) (ok_injective h)
    upsert_lem (m ∷ ms) s u h = rw (execute, h) refl

    module _ (s : HostSurvey hosts) where
      abbrev uncached : List String
      uncached = select (λ n. not (in_host_cache hosts n s)) ns

      abbrev new : List String
      new = select (missing_host s.db) uncached

      ensure_lem :
          (u : Tables) → insert_hosts pg new s.db ≡ ok u → ensure s ≡ (ok tt, record s { db = u })
      unfolding ensure_hosts
      ensure_lem u h = upsert_lem uncached s u h

      -- When every name has a host, `ensure_hosts` changes nothing.
      ensure-Present : ((n : String) → any_of ns n ≡ true → Present n s.db) → ensure s ≡ (ok tt, s)
      unfolding insert_hosts
      ensure-Present h = ensure_lem s.db (
          rw
            (select-none (missing_host s.db) uncached
              (λ n i. rw (Present-iff n s.db ∙ h n (any_of-of-select _ ns n i)) refl))
            refl)

      module _ (w : IsValid hosts s) (fit : Fit ns) where
        made : Inserted new s.db
        made = insert_hosts_lem new s.db w.sound (
            All-select (λ n. pg.varchar 256 n ≡ ok n) _ uncached
              (All-select (λ n. pg.varchar 256 n ≡ ok n) _ ns fit))

        after-Present : (n : String) → any_of ns n ≡ true → Present n made.after
        unfolding in_host_cache
        after-Present n i = elim (Option-cases (hosts.cached n s.host_cache)) [
          | inr (j, hit) ↦
              Present-later n s.db made.after made.keeps (ap is_some (w.agrees n j hit))
          | inl miss ↦ elim (Bool-cases (exists (has_name n) s.db.host)) [
            | inl there ↦
                Present-later n s.db made.after made.keeps (sym (Present-iff n s.db) ∙ there)
            | inr absent ↦ made.present n (
                any_of-select _ uncached n (any_of-select _ ns n i (rw miss refl)) (rw absent refl))
          ]
        ]

    module _ (s : HostSurvey hosts) (w : IsValid hosts s) (fit : Fit ns) where
      -- In a valid state, with names that fit their column: `ensure_hosts` returns; afterwards there
      -- is a host of each of the names, the hosts that there were have their identities, and a second
      -- call changes nothing, the identity that the next host gets included.
      pub ensure_hosts_lem :
          ((ensure s).0 ≡ ok tt)
          × ((n : String) → any_of ns n ≡ true → (has_host hosts n (ensure s).1).0 ≡ ok true)
          × ((n : String) (i : ℕ)
              → select_host n s.db ≡ some i
              → select_host n (ensure s).1.db ≡ some i)
          × (ensure (ensure s).1 ≡ (ok tt, (ensure s).1))
      ensure_hosts_lem =
          let after = (made s w fit).after in
          let agreed : Agrees hosts (record s { db = after }) =
            λ n i h. (made s w fit).keeps n i (w.agrees n i h) in
          rw (ensure_lem s after (made s w fit).result) (
            refl,
            λ n i.
                (has_host_lem hosts (record s { db = after }) agreed n).result
                ∙ ap ok (after-Present s w fit n i),
            (made s w fit).keeps,
            ensure-Present (record s { db = after }) (after-Present s w fit),
          )
