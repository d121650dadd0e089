-- ===== src/SurveyHosts/Seeding.antt =====
-- Seeding the table of hosts from the labels of the graph's nodes, batch by batch.
use pub_crawler.Base.{String, ℕ, ◌≡◌, true, Option, some, List}
use pub_crawler.Exec.{Result, ok}
use pub_crawler.Json.{Value}
use pub_crawler.Platform.{Platform}
use pub_crawler.Graph.Libraries.{Lru, Postgres}
use pub_crawler.Graph.Schema.{any_of}
use pub_crawler.HostSurvey.{HostSurvey}
use pub_crawler.HostSurvey.Schema.{select_host}
use pub_crawler.HostSurvey.Invariant.{IsValid}
use pub_crawler.HostSurvey.Hosts.{Present}
use pub_crawler.Handlers.{unique}
use pub_crawler.SurveyHosts.{hostnames_of}

module _ (hosts : Lru String ℕ) {p : Platform} (pg : Postgres p) where
  -- What a seeding that returned has done.
  record Seeded (names : List String) (s t : HostSurvey hosts) : Type 0 where
    valid : IsValid hosts t
    keeps : (n : String) (i : ℕ) → select_host n s.db ≡ some i → select_host n t.db ≡ some i
    present : (n : String) → any_of names n ≡ true → Present n t.db

  abbrev Through : List String → HostSurvey hosts → Result (Unit {0}) × HostSurvey hosts → Type 0
  Through names s c = (c.0 ≡ ok tt) × Seeded names s c.1

  module _ (hostname : String → Option String) (order : List String → List String)
      (same_texts : (xs : List String) (x : String) → any_of (order xs) x ≡ any_of xs x)
      (rows : List (ℕ × String × Value)) where
    abbrev found : List String
    found = order (unique (hostnames_of hostname rows))
