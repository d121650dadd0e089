-- ===== src/HostSurvey/Invariant.antt =====
-- Any calls of the methods that change the tables, in any order, from empty tables and an empty
-- cache: what holds of the tables and of the cache afterwards.
use pub_crawler.Base.{String, ℕ, sym, ap, ◌∙◌, subst, Option, List, [], ◌∷◌, Bool-cases, inl, inr}
use pub_crawler.Exec.{Result, ok}
use pub_crawler.Exec.Fallible.{ok_injective, Result-cases}
use pub_crawler.Json.{Value, Dict, dict}
use pub_crawler.Platform.{Platform}
use pub_crawler.Graph.Libraries.{Lru, Postgres}
use pub_crawler.Graph.Schema.{select}
use pub_crawler.HostSurvey.{
  HostSurvey, execute, host_id, ensure_host, ensure_hosts, upsert_hosts, in_host_cache, delete_host,
  with_value, with_name, set_host_property, set_host_properties, set_hosts_property,
  delete_host_properties,
}
use pub_crawler.HostSurvey.Schema.{
  Tables, select_host, delete_host_row, delete_property_rows, insert_hosts, missing_host,
}
use pub_crawler.HostSurvey.Sound.{
  IsSound, Keeps, delete_host_row-IsSound, delete_property_rows-IsSound,
}
use pub_crawler.HostSurvey.Lookup.{Agrees, host_id_lem}
use pub_crawler.HostSurvey.Deletion.{other_host}
use pub_crawler.HostSurvey.Statements.{
  Kept, IsKeeping, insert_host_property-IsKeeping, insert_hosts-IsKeeping,
  insert_host_properties-IsKeeping, insert_hosts_property-IsKeeping,
}

-- the methods that change the tables, with their arguments
pub data Call : Type 0 where
  ensures : String → Call
  ensures_all : List String → Call
  deletes : String → Call
  sets : String → String → Value → Call
  sets_each : String → Dict → Call
  sets_all : List String → String → Value → Call
  deletes_properties : String → List String → Call

module _ (hosts : Lru String ℕ) where
  pub record IsValid (s : HostSurvey hosts) : Type 0 where
    pub sound : IsSound s.db
    pub agrees : Agrees hosts s

  execute-IsValid :
      (f : Tables → Result Tables) (s : HostSurvey hosts)
      → IsKeeping f
      → IsValid s
      → IsValid (execute hosts f s).1
  unfolding execute
  execute-IsValid f s k w = elim (Result-cases (f s.db)) [
    | inr (e, h) ↦ rw (h, execute) w
    | inl (u, h) ↦
        let r = k s.db u w.sound h in
        rw (h, execute) (record { sound = r.sound; agrees = λ n i c. r.keeps n i (w.agrees n i c) })
  ]

  looked-IsValid : (s : HostSurvey hosts) (n : String) → IsValid s → IsValid (host_id hosts n s).1
  looked-IsValid s n w =
      let k = host_id_lem hosts s w.agrees n in
      record { sound = subst IsSound (sym k.same) w.sound; agrees = k.agrees }

  names_keep :
      (i : Option ℕ) (names : List String) (t : Tables) → Keeps t (delete_property_rows i names t)
  unfolding delete_property_rows select_host
  names_keep i names t n j h = h

  names-IsKeeping :
      (i : Option ℕ) (names : List String) → IsKeeping (λ t. ok (delete_property_rows i names t))
  names-IsKeeping i names t u w h =
      subst (Kept t) (ok_injective h)
        (record { sound = delete_property_rows-IsSound t w i names; keeps = names_keep i names t })

  -- The entry of the deleted host is dropped, and the other entries are those of other hosts.
  dropped-Agrees :
      (n : String) (s : HostSurvey hosts)
      → IsValid s
      → Agrees hosts (record s {
        db = delete_host_row (select_host n s.db) s.db;
        host_cache = hosts.drop n s.host_cache;
      })
  dropped-Agrees n s w m j h =
      let (apart, old) = hosts.cached-drop n m j s.host_cache h in
      other_host s.db w.sound n m apart ∙ w.agrees m j old

  pub delete-IsValid :
      (n : String) (s : HostSurvey hosts) → IsValid s → IsValid (delete_host hosts n s).1
  unfolding delete_host execute
  delete-IsValid n s w =
      let k = host_id_lem hosts s w.agrees n in
      let v = looked-IsValid s n w in
      rw (k.result, execute)
        (record {
          sound = delete_host_row-IsSound (host_id hosts n s).1.db v.sound (select_host n s.db);
          agrees = rw (ap (select_host n) (sym k.same)) (dropped-Agrees n (host_id hosts n s).1 v);
        })

  module _ {p : Platform} (pg : Postgres p) where
    unfoldable pub step : Call → HostSurvey hosts → HostSurvey hosts
    step (ensures n) s = (ensure_host hosts pg n s).1
    step (ensures_all ns) s = (ensure_hosts hosts pg ns s).1
    step (deletes n) s = (delete_host hosts n s).1
    step (sets n name v) s = (set_host_property hosts pg n name v s).1
    step (sets_each n d) s = (set_host_properties hosts pg n d s).1
    step (sets_all ns name v) s = (set_hosts_property hosts pg ns name v s).1
    step (deletes_properties n names) s = (delete_host_properties hosts n names s).1

    pub run : List Call → HostSurvey hosts → HostSurvey hosts
    run [] s = s
    run (c ∷ cs) s = run cs (step c s)

    missing-IsKeeping :
        (ns : List String) → IsKeeping (λ t. insert_hosts pg (select (missing_host t) ns) t)
    missing-IsKeeping ns t u w h = insert_hosts-IsKeeping pg (select (missing_host t) ns) t u w h

    upsert-IsValid :
        (ns : List String) (s : HostSurvey hosts)
        → IsValid s
        → IsValid (upsert_hosts hosts pg ns s).1
    unfolding upsert_hosts
    upsert-IsValid [] s w = w
    upsert-IsValid (n ∷ ns) s w = execute-IsValid _ s (missing-IsKeeping (n ∷ ns)) w

    -- a statement with a JSONB argument
    given-IsValid :
        (v : Value) (f : String → Tables → Result Tables) (s : HostSurvey hosts)
        → ((text : String) → IsKeeping (f text))
        → IsValid s
        → IsValid (with_value hosts pg v f s).1
    unfolding with_value
    given-IsValid v f s k w = elim (Result-cases (p.dumps_unsorted v)) [
      | inr (e, d) ↦ rw d w
      | inl (text, d) ↦ elim (Result-cases (pg.jsonb text)) [
        | inr (e, j) ↦ rw (d, j) w
        | inl (st, j) ↦ rw (d, j) (execute-IsValid (f st) s (k st) w)
      ]
    ]

    named-IsKeeping :
        (name : String) (f : String → Tables → Result Tables)
        → ((m : String) → IsKeeping (f m))
        → IsKeeping (with_name hosts pg name f)
    unfolding with_name
    named-IsKeeping name f k t u w h = elim (Result-cases (pg.varchar 32 name)) [
      | inr (e, v) ↦ absurd (cc (rw (with_name, v) at h))
      | inl (m, v) ↦ k m t u w (rw (with_name, v) at h)
    ]

    pub each-IsValid :
        (n : String) (d : Dict) (s : HostSurvey hosts)
        → IsValid s
        → IsValid (set_host_properties hosts pg n d s).1
    unfolding set_host_properties
    each-IsValid n d s w = elim (Result-cases (p.dumps_unsorted (dict d))) [
      | inr (e, x) ↦ rw x w
      | inl (text, x) ↦ elim (Result-cases (pg.each text)) [
        | inr (e, j) ↦ rw (x, j) w
        | inl (kvs, j) ↦
            rw (x, j) (execute-IsValid _ s (insert_host_properties-IsKeeping pg n kvs) w)
      ]
    ]

    ensure-IsValid :
        (n : String) (s : HostSurvey hosts) → IsValid s → IsValid (ensure_host hosts pg n s).1
    unfolding ensure_host
    ensure-IsValid n s w = elim (Bool-cases (in_host_cache hosts n s)) [
      | inl known ↦ rw known w
      | inr new ↦ rw new (execute-IsValid _ s (missing-IsKeeping (n ∷ [])) w)
    ]

    set-IsValid :
        (n name : String) (v : Value) (s : HostSurvey hosts)
        → IsValid s
        → IsValid (set_host_property hosts pg n name v s).1
    unfolding set_host_property
    set-IsValid n name v s w =
        let k = host_id_lem hosts s w.agrees n in
        rw k.result (
          given-IsValid v _ (host_id hosts n s).1
            (λ text. named-IsKeeping name _ (λ m. insert_host_property-IsKeeping _ m text))
            (looked-IsValid s n w))

    pub deletes-IsValid :
        (n : String) (names : List String) (s : HostSurvey hosts)
        → IsValid s
        → IsValid (delete_host_properties hosts n names s).1
    unfolding delete_host_properties
    deletes-IsValid n names s w =
        let k = host_id_lem hosts s w.agrees n in
        rw k.result (
          execute-IsValid _ (host_id hosts n s).1 (names-IsKeeping (select_host n s.db) names)
            (looked-IsValid s n w))

    pub step-IsValid : (c : Call) (s : HostSurvey hosts) → IsValid s → IsValid (step c s)
    unfolding step ensure_hosts set_hosts_property
    step-IsValid (ensures n) s w = ensure-IsValid n s w
    step-IsValid (ensures_all ns) s w = upsert-IsValid _ s w
    step-IsValid (deletes n) s w = delete-IsValid n s w
    step-IsValid (sets n name v) s w = set-IsValid n name v s w
    step-IsValid (sets_each n d) s w = each-IsValid n d s w
    step-IsValid (sets_all ns name v) s w =
        given-IsValid v _ s (λ text. insert_hosts_property-IsKeeping pg _ name text) w
    step-IsValid (deletes_properties n names) s w = deletes-IsValid n names s w

    -- From a valid state, any calls in any order lead to a valid one.
    pub run-IsValid : (cs : List Call) (s : HostSurvey hosts) → IsValid s → IsValid (run cs s)
    unfolding run
    run-IsValid [] s w = w
    run-IsValid (c ∷ cs) s w = run-IsValid cs (step c s) (step-IsValid c s w)
