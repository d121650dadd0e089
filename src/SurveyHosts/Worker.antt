-- ===== src/SurveyHosts/Worker.antt =====
-- What a round of a survey worker leaves of a host's properties.
use mathlib.Core.Option
use pub_crawler.Base.{
  String, ℕ, ◌≡◌, refl, sym, ap, ◌∙◌, subst, true, Option, none, some, List, [], ◌∷◌, arith,
  Bool-cases, Option-cases, inl, inr, if◌then◌else◌,
}
use pub_crawler.Exec.{Result, ok}
use pub_crawler.Json.{Value, Dict, null, dict, get, has_key}
use pub_crawler.Platform.{Platform}
use pub_crawler.Graph.Libraries.{Lru, Postgres, value_in, Reads}
use pub_crawler.Graph.Schema.{find_row, any_of}
use pub_crawler.HostSurvey.{
  HostSurvey, execute, host_id, get_host_property, read_host_value, delete_host_properties,
  set_host_properties,
}
use pub_crawler.HostSurvey.Schema.{
  Host, Tables, has_name, select_host, select_host_value, delete_property_rows, put_host_property,
  insert_each, insert_host_properties,
}
use pub_crawler.HostSurvey.Lookup.{host_id_lem}
use pub_crawler.HostSurvey.Values.{
  or, value-delete, value-each, NamesFit, head_fits, tail_fits, get_host_property_lem,
}
use pub_crawler.HostSurvey.Statements.{insert_host_properties-IsKeeping}
use pub_crawler.HostSurvey.Invariant.{IsValid, deletes-IsValid, each-IsValid}
use pub_crawler.SurveyHosts.{is_null, null_names, not_null, survey_round}
use pub_crawler.SurveyHosts.Given.{NoTwice, drop_null, null_at, not_null-get, null_names_lem}

Reads-none : (loads : String → Result Value) (o : Option String) → Reads loads o none → o ≡ none
Reads-none loads none r = refl
Reads-none loads (some t) r = absurd r

Reads-some :
    (loads : String → Result Value) (o : Option String) (v : Value)
    → Reads loads o (some v)
    → (t : String) × (o ≡ some t) × (loads t ≡ ok v)
Reads-some loads none v r = absurd r
Reads-some loads (some t) v r = (t, refl, r)

is_null-null : (v : Value) → is_null v ≡ true → v ≡ null
is_null-null v h = ground arith

row_of :
    (n : String) (i : ℕ) (t : Tables)
    → select_host n t ≡ some i
    → (h : Host) × (find_row (has_name n) t.host ≡ some h) × (h.id ≡ i)
unfolding select_host
row_of n i t e = elim (Option-cases (find_row (has_name n) t.host)) [
  | inl absent ↦ absurd (cc (rw absent at e))
  | inr (h, found) ↦ (h, found, some_injective (rw found at e))
]
  where
    some_injective : {j : ℕ} → ◌≡◌ {A = Option ℕ} (some j) (some i) → j ≡ i
    some_injective e = ground arith

module _ {p : Platform} (pg : Postgres p) where
  insert_each_returns :
      (i : ℕ) (kvs : List (String × String)) (t : Tables)
      → NamesFit pg kvs
      → (u : Tables) × (insert_each pg i kvs t ≡ ok u)
  unfolding insert_each
  insert_each_returns i [] t fit = (t, refl)
  insert_each_returns i ((name, text) ∷ kvs) t fit =
      let (u, e) =
        insert_each_returns i kvs (put_host_property i name text t)
          (tail_fits pg name text kvs fit) in
      (u, rw (head_fits pg name text kvs fit, insert_each) e)

module _ (hosts : Lru String ℕ) {p : Platform} (pg : Postgres p) (n : String) (props : Dict) where
  abbrev got : String → HostSurvey hosts → Result Value
  got k s = (get_host_property hosts pg n k s).0

  -- The value that is got, from what the survey gives and from what was got before.
  abbrev pub Surveyed : Option Value → Result Value → Result Value → Type 0
  Surveyed none new old = new ≡ old
  Surveyed (some v) new old = new ≡ ok (pg.stored v)

  -- PostgreSQL takes the properties that are not none, as these rows.
  pub record Taken : Type 0 where
    pub text : String
    pub rows : List (String × String)
    pub dumped : p.dumps_unsorted (dict (not_null props)) ≡ ok text
    pub kept : pg.each text ≡ ok rows
    pub names_fit : (k : String) → has_key props k ≡ true → pg.varchar 32 k ≡ ok k

  module _ (once : NoTwice props) (taken : Taken) where
    reads :
        (k : String)
        → Reads p.loads (value_in k taken.rows) (Option.map pg.stored (get (not_null props) k))
    reads = pg.each-get (not_null props) taken.text taken.rows taken.dumped taken.kept

    rows_read :
        (k : String)
        → Reads p.loads (value_in k taken.rows) (Option.map pg.stored (drop_null (get props k)))
    rows_read k =
        subst (λ o. Reads p.loads (value_in k taken.rows) (Option.map pg.stored o))
          (not_null-get props k once) (reads k)

    absent_row : (k : String) → get props k ≡ none → value_in k taken.rows ≡ none
    absent_row k h = Reads-none p.loads _ (
        subst (λ o. Reads p.loads (value_in k taken.rows) (Option.map pg.stored (drop_null o))) h
          (rows_read k))

    rows_fit : NamesFit pg taken.rows
    rows_fit k h = taken.names_fit k (elim (Option-cases (get props k)) [
      | inr (v, found) ↦ rw found refl
      | inl absent ↦ absurd (cc (rw (absent_row k absent) at h))
    ])

    module _ (s : HostSurvey hosts) (w : IsValid hosts s) (i : ℕ)
        (there : select_host n s.db ≡ some i) where
      abbrev nulls : List String
      nulls = null_names props

      abbrev looked : HostSurvey hosts
      looked = (host_id hosts n s).1

      abbrev cleared : HostSurvey hosts
      cleared = record looked { db = delete_property_rows (some i) nulls looked.db }

      cleared_lem : delete_host_properties hosts n nulls s ≡ (ok tt, cleared)
      unfolding delete_host_properties execute
      cleared_lem = let k = host_id_lem hosts s w.agrees n in rw (k.result, there, execute) refl

      cleared-IsValid : IsValid hosts cleared
      cleared-IsValid =
          subst (λ c. IsValid hosts c.1) cleared_lem (deletes-IsValid hosts pg n nulls s w)

      host_left :
          (m : String) (t : Tables)
          → select_host m (delete_property_rows (some i) nulls t) ≡ select_host m t
      unfolding delete_property_rows select_host
      host_left m t = refl

      still_there : select_host n cleared.db ≡ some i
      still_there =
          host_left n looked.db ∙ ap (select_host n) (host_id_lem hosts s w.agrees n).same ∙ there

      inserted : (u : Tables) × (insert_each pg i taken.rows cleared.db ≡ ok u)
      inserted = insert_each_returns pg i taken.rows cleared.db rows_fit

      abbrev after : HostSurvey hosts
      after = record cleared { db = inserted.0 }

      statement_lem :
          insert_host_properties pg (find_row (has_name n) cleared.db.host) taken.rows cleared.db
          ≡ ok inserted.0
      unfolding insert_host_properties
      statement_lem =
          let (k, found, same) = row_of n i cleared.db still_there in
          rw (found, insert_host_properties, same) inserted.1

      set_lem : set_host_properties hosts pg n (not_null props) cleared ≡ (ok tt, after)
      unfolding set_host_properties execute
      set_lem = rw (taken.dumped, taken.kept, execute, statement_lem) refl

      round_lem : survey_round hosts pg n props s ≡ (ok tt, after)
      unfolding survey_round
      round_lem = rw (cleared_lem, set_lem) refl

      after-IsValid : IsValid hosts after
      after-IsValid =
          subst (λ c. IsValid hosts c.1) set_lem
            (each-IsValid hosts pg n (not_null props) cleared cleared-IsValid)

      id_after : select_host n after.db ≡ some i
      id_after =
          (insert_host_properties-IsKeeping pg n taken.rows cleared.db inserted.0
              cleared-IsValid.sound statement_lem).keeps
            n i still_there

      abbrev old : String → Option String
      old k = select_host_value (some i) k s.db

      value_after :
          (k : String)
          → got k after
            ≡ read_host_value hosts pg
                (or (value_in k taken.rows) (if any_of nulls k then none else old k))
      value_after k =
          get_host_property_lem pg hosts after n k after-IsValid.agrees
          ∙ ap (λ o. read_host_value hosts pg (select_host_value o k after.db)) id_after
          ∙ ap (read_host_value hosts pg) (
              value-each pg i k taken.rows cleared.db inserted.0 rows_fit inserted.1
              ∙ ap (or (value_in k taken.rows)) (
                  value-delete (some i) nulls k looked.db
                  ∙ ap (λ t. if any_of nulls k then none else select_host_value (some i) k t)
                      (host_id_lem hosts s w.agrees n).same))

      value_before : (k : String) → got k s ≡ read_host_value hosts pg (old k)
      value_before k =
          get_host_property_lem pg hosts s n k w.agrees
          ∙ ap (λ o. read_host_value hosts pg (select_host_value o k s.db)) there

      value_lem :
          (k : String) (o : Option Value)
          → get props k ≡ o
          → Reads p.loads (value_in k taken.rows) (Option.map pg.stored (drop_null o))
          → any_of nulls k ≡ null_at o
          → Surveyed o (got k after) (got k s)
      unfolding read_host_value
      value_lem k none e r h =
          value_after k
          ∙ rw (Reads-none p.loads (value_in k taken.rows) r, h) refl
          ∙ sym (value_before k)
      value_lem k (some v) e r h = value_after k ∙ elim (Bool-cases (is_null v)) [
        | inl gone ↦
            rw
              (
                Reads-none p.loads (value_in k taken.rows) (rw gone at r),
                h,
                gone,
                is_null-null v gone,
              )
              (ap ok (sym pg.stored-null))
        | inr stays ↦
            let (t, found, read) =
              Reads-some p.loads (value_in k taken.rows) (pg.stored v) (rw stays at r) in
            rw found read
      ]

      -- In a valid state where the host is known, with properties of which no name stands twice and
      -- where PostgreSQL takes those that are not none: the worker's round returns, the state stays
      -- valid, and each property of the host is then the value that the survey gives, as a JSONB
      -- column keeps it, none where it gives none, and what it was where the survey has no such name.
      pub survey_round_lem :
          ((survey_round hosts pg n props s).0 ≡ ok tt)
          × IsValid hosts (survey_round hosts pg n props s).1
          × ((k : String)
              → Surveyed (get props k) (got k (survey_round hosts pg n props s).1) (got k s))
      survey_round_lem = rw round_lem (
        refl,
        after-IsValid,
        λ k. value_lem k (get props k) refl (rows_read k) (null_names_lem props k once),
      )
