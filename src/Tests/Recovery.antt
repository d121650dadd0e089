-- ===== src/Tests/Recovery.antt =====
-- Failed jobs that are put into the queue again: those of a page are, those of an actor with an
-- unknown host are not.
use pub_crawler.Base.{String, ◌≡◌, refl, ap, ◌∙◌, true, false, List, [], ◌∷◌}
use pub_crawler.Exec.{Result, ok}
use pub_crawler.Json.{Value, str, get}
use pub_crawler.Redis.Memory.{memory}
use pub_crawler.Platform.Plain.{plain, plain_dumps, plain_sorted}
use pub_crawler.Graph.Plain.{by_label, by_id, plain_postgres}
use pub_crawler.Graph.Queries
use pub_crawler.Graph.Schema.{select}
use pub_crawler.Graph.Statements.{distinct}
use pub_crawler.World.{World}
use pub_crawler.Job.{index, job_id, get_or, actor_job, page_job}
use pub_crawler.Dispatcher.{
  job_to_member, job_to_hash, member_text, iso_utc, clamp, type_code, or_no_jid,
}
use pub_crawler.Recovery.Choice.{hashed, is_known, is_recoverable}
use pub_crawler.Recovery.{recover_failed}
use pub_crawler.Recovery.Failed.{Readable, Recovered, recover_failed_lem}
use pub_crawler.Tests.Queue
use pub_crawler.Tests.Nodes
use pub_crawler.Tests.Workers.{setting}

abbrev hostname_of : Value → Result Value
hostname_of v = ok (str "a.example")

abbrev page_text : String
page_text = (plain_dumps Queue.a_page).0

actor-Readable : Readable memory plain hostname_of [] Queue.text
unfolding is_recoverable is_known index actor_job get job_to_hash job_to_member get_or type_code
    clamp or_no_jid job_id
actor-Readable = record {
  job = Queue.job;
  loaded =
      plain.loads-dumps Queue.job Queue.text (plain_dumps Queue.job).1
      ∙ ap ok (plain_sorted Queue.job);
  dumped = (plain_dumps Queue.job).1;
  recoverable = false;
  decided = refl;
  hash = _;
  hashed = refl;
  member = λ now.
      member_text plain 2 20 (plain.crc32 "actor:https://a.example/u") (iso_utc plain now)
        Queue.text;
  written = λ now. rw (plain_dumps Queue.job).1 refl;
}

page-Readable : Readable memory plain hostname_of [] page_text
unfolding is_recoverable is_known index page_job get job_to_hash job_to_member get_or type_code
    clamp or_no_jid job_id
page-Readable = record {
  job = Queue.a_page;
  loaded =
      plain.loads-dumps Queue.a_page page_text (plain_dumps Queue.a_page).1
      ∙ ap ok (plain_sorted Queue.a_page);
  dumped = (plain_dumps Queue.a_page).1;
  recoverable = true;
  decided = refl;
  hash = _;
  hashed = refl;
  member = λ now.
      member_text plain 2 40 (plain.crc32 "page:https://a.example/p") (iso_utc plain now) page_text;
  written = λ now. rw (plain_dumps Queue.a_page).1 refl;
}

abbrev scan : List String
scan = page_text ∷ Queue.text ∷ []

abbrev world : World setting
world = record { jobs = Queue.queued; graph = Nodes.start }

no_hostnames :
    (Queries.node_property_values by_label by_id (plain_postgres plain) "hostname" world.graph).0
    ≡ ok []
unfolding Queries.node_property_values Queries.read_each distinct select
no_hostnames = refl

recover_failed_lem_example : Recovered memory plain hostname_of [] scan 0 world.jobs (
  (recover_failed setting hostname_of (λ n. n) scan world).0,
  (recover_failed setting hostname_of (λ n. n) scan world).1.jobs,
)
unfolding hashed
recover_failed_lem_example =
    recover_failed_lem setting hostname_of (λ n. n) scan world [] [] no_hostnames refl
      (page-Readable, (actor-Readable, tt))
