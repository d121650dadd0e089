-- ===== src/Tests/Workers.antt =====
-- pub_crawler/crawler.py and the handlers: a worker with one job, and requests that fail.
use pub_crawler.Base.{String, ◌≡◌, refl, true, none, List}
use pub_crawler.Base.Int.{pos}
use pub_crawler.Exec.{Result, ok, raised, Error, exception, http_status, Exec}
use pub_crawler.Json.{Value, str}
use pub_crawler.Redis.Memory.{memory}
use pub_crawler.Platform.Plain.{plain}
use pub_crawler.Graph.Plain.{by_label, by_id, plain_postgres}
use pub_crawler.World.{Setting, World}
use pub_crawler.Crawler.{Working, again, work}
use pub_crawler.Crawler.Work.{seen_in, taken, work_lem}
use pub_crawler.Handlers.Page
use pub_crawler.Handlers.Collection
use pub_crawler.Handlers.Actor
use pub_crawler.Handlers.Failures.{KeepsJobs, page_failed, collection_failed, actor_failed}
use pub_crawler.Tests.Queue
use pub_crawler.Tests.Nodes

abbrev pub setting : Setting
setting = record {
  redis = memory;
  platform = plain;
  postgres = plain_postgres plain;
  ids = by_label;
  labels = by_id;
}

-- a handler that raises
abbrev raising : Value → Exec (World setting) Unit
raising job s = (raised (exception "no handler"), s)

abbrev working : Working setting
working = record { world = record { jobs = Queue.queued; graph = Nodes.start }; failures = 3 }

work_lem_example :
    ((work setting raising 9 working).0 ≡ ok again)
    × ((work setting raising 9 working).1.failures ≡ 0)
    × ((seen_in setting raising (work setting raising 9 working).1.world).inflight Queue.handed.text
        ≡ none)
    × ((e : Error)
        → (raising (plain.sorted Queue.handed.job) (taken setting raising 9 working Queue.handed)).0
          ≡ raised e
        → (seen_in setting raising (work setting raising 9 working).1.world).failed
            Queue.handed.text
          ≡ true)
work_lem_example = work_lem setting raising 9 working Queue.handed

-- a server that is not there
abbrev gone : {A : Type 0} → Value → Result A
gone v = raised (http_status 410)

abbrev as_it_is : List String → List String
as_it_is l = l

page_failed_example : KeepsJobs setting (Page.handle setting as_it_is 5 gone Queue.a_page)
page_failed_example =
    page_failed setting as_it_is 5 Queue.a_page gone (λ v. (http_status 410, refl))

collection_failed_example :
    KeepsJobs setting (Collection.handle setting as_it_is 5 (pos 2) gone Queue.a_page)
collection_failed_example =
    collection_failed setting as_it_is 5 Queue.a_page gone (λ v. (http_status 410, refl)) (pos 2)

actor_failed_example : KeepsJobs setting (
    Actor.handle setting as_it_is 5
      (λ v. ok (str "a.example"))
      "2026-01-01T00:00:00+00:00"
      gone
      Queue.job)
actor_failed_example =
    actor_failed setting as_it_is 5 Queue.job (λ v. ok (str "a.example"))
      "2026-01-01T00:00:00+00:00" gone (λ v. (http_status 410, refl))
