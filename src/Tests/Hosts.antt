-- ===== src/Tests/Hosts.antt =====
-- pub_crawler/database_host_survey.py and bin/survey_hosts.py on tables of one host.
use pub_crawler.Base.{
  String, ℕ, ◌≡◌, ◌≢◌, refl, ◌∙◌, true, false, Bool, Option, none, some, List, [], ◌∷◌, ◌==◌, not,
  take, suc, arith,
}
use pub_crawler.Exec.{Result, ok}
use pub_crawler.Json.{Value, Dict, null, str, dict, entry, empty, get, has_key}
use pub_crawler.Platform.Plain.{plain, plain_dumps_unsorted}
use pub_crawler.Graph.Plain.{by_label, plain_postgres, texts, plain_each_lem}
use pub_crawler.Graph.Schema.{find_row, any_of, select}
use pub_crawler.HostSurvey.{HostSurvey, has_host, ensure_hosts, delete_host, get_host_property}
use pub_crawler.HostSurvey.Schema.{select_host}
use pub_crawler.HostSurvey.Invariant.{IsValid, Call, ensures, deletes, sets, run, run-IsValid}
use pub_crawler.HostSurvey.Hosts.{delete_host_lem, ensure_hosts_lem}
use pub_crawler.SurveyHosts.{Moment, aware, survey_round, not_null, gather, is_due}
use pub_crawler.SurveyHosts.Worker.{survey_round_lem, Taken, Surveyed}
use pub_crawler.SurveyHosts.Selection.{gather_lem, due_names}

abbrev known : HostSurvey by_label
known = record {
  db = record {
    host = record { id = 1; hostname = "a.example" } ∷ [];
    host_property = record { id = 1; name = "failure"; value = "error" } ∷ [];
    next = 2;
  };
  host_cache = λ n. none;
}

known-IsValid : IsValid by_label known
unfolding find_row
known-IsValid = record {
  sound = record {
    distinct = (tt, tt);
    below = (omega arith, tt);
    owned = (refl, tt);
    keyed = (tt, tt);
  };
  agrees = λ n i h. absurd (cc);
}

abbrev calls : List Call
calls = ensures "b.example" ∷ sets "b.example" "failure" null ∷ deletes "a.example" ∷ []

run-IsValid_example : IsValid by_label (run by_label (plain_postgres plain) calls known)
run-IsValid_example = run-IsValid by_label (plain_postgres plain) calls known known-IsValid

delete_host_lem_example :
    ((delete_host by_label "a.example" known).0 ≡ ok tt)
    × ((has_host by_label "a.example" (delete_host by_label "a.example" known).1).0 ≡ ok false)
    × ((i : ℕ)
        → select_host "a.example" known.db ≡ some i
        → select (λ r. r.id == i) (delete_host by_label "a.example" known).1.db.host_property ≡ [])
    × ((m : String)
        → "a.example" ≢ m
        → (has_host by_label m (delete_host by_label "a.example" known).1).0
          ≡ (has_host by_label m known).0)
delete_host_lem_example = delete_host_lem by_label "a.example" known known-IsValid

abbrev two_hosts : List String
two_hosts = "b.example" ∷ "a.example" ∷ []

abbrev more_hosts : HostSurvey by_label
more_hosts = (ensure_hosts by_label (plain_postgres plain) two_hosts known).1

ensure_hosts_lem_example :
    ((ensure_hosts by_label (plain_postgres plain) two_hosts known).0 ≡ ok tt)
    × ((n : String) → any_of two_hosts n ≡ true → (has_host by_label n more_hosts).0 ≡ ok true)
    × ((n : String) (i : ℕ)
        → select_host n known.db ≡ some i
        → select_host n more_hosts.db ≡ some i)
    × (ensure_hosts by_label (plain_postgres plain) two_hosts more_hosts ≡ (ok tt, more_hosts))
ensure_hosts_lem_example =
    ensure_hosts_lem (plain_postgres plain) by_label two_hosts known known-IsValid
      (refl, (refl, tt))

abbrev surveyed : Dict
surveyed = entry "failure" null (entry "software_name" (str "x") empty)

surveyed-Taken : Taken by_label (plain_postgres plain) "a.example" surveyed
unfolding texts not_null
surveyed-Taken =
    let (text, dumped) = plain_dumps_unsorted (dict (not_null surveyed)) in
    let (name, name_dumped) = plain_dumps_unsorted (str "x") in
    record {
      text = text;
      rows = ("software_name", name) ∷ [];
      dumped = dumped;
      kept = plain_each_lem plain (not_null surveyed) text dumped ∙ rw name_dumped refl;
      names_fit = λ k h. refl;
    }

survey_round_lem_example :
    ((survey_round by_label (plain_postgres plain) "a.example" surveyed known).0 ≡ ok tt)
    × IsValid by_label (survey_round by_label (plain_postgres plain) "a.example" surveyed known).1
    × ((k : String)
        → Surveyed by_label
            (plain_postgres plain)
            "a.example"
            surveyed
            (get surveyed k)
            (get_host_property by_label
              (plain_postgres plain)
              "a.example"
              k
              (survey_round by_label (plain_postgres plain) "a.example" surveyed known).1).0
            (get_host_property by_label (plain_postgres plain) "a.example" k known).0)
unfolding get select_host find_row
survey_round_lem_example =
    survey_round_lem by_label (plain_postgres plain) "a.example" surveyed (refl, (refl, tt))
      surveyed-Taken known known-IsValid 1 refl

abbrev parse_none : String → Result Moment
parse_none s = ok (aware 5)

abbrev rows : List (ℕ × String × Value)
rows =
    (1, "a.example", dict empty)
    ∷ (2, "b.example", dict (entry "last_fetch_date" (str "x") empty))
    ∷ []

abbrev never_fetched : Value → Bool
never_fetched (dict d) = not (has_key d "last_fetch_date")
never_fetched _ = false

gather_lem_example :
    (gather parse_none 3 none [] rows ≡ ok (due_names parse_none 3 never_fetched rows))
    × ((n : ℕ)
        → gather parse_none 3 (some (suc n)) [] rows
          ≡ ok (take (suc n) (due_names parse_none 3 never_fetched rows)))
unfolding is_due get
gather_lem_example = gather_lem parse_none 3 never_fetched rows (refl, (refl, tt))

abbrev host_part : String → Option String
host_part label = some label
