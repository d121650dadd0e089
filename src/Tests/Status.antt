-- ===== src/Tests/Status.antt =====
-- bin/recover_http_status.py: an actor with a depth whose server failed.
use pub_crawler.Base.{String, ℕ, ◌≡◌, refl, inr, List, [], ◌∷◌, first, true}
use pub_crawler.Base.Int.{pos}
use pub_crawler.Exec.{ok}
use pub_crawler.Json.{Value, dict, entry, empty, int, get}
use pub_crawler.Json.Python.{contains_key}
use pub_crawler.World.{World}
use pub_crawler.Redis.Memory.{memory}
use pub_crawler.Platform.Plain.{plain, plain_dumps}
use pub_crawler.Job.{index, get_or, job_id}
use pub_crawler.Handlers.{actor_job_at, contains_text}
use pub_crawler.Dispatcher.{
  job_to_member, job_to_hash, member_text, iso_utc, type_code, clamp, or_no_jid,
}
use pub_crawler.Dispatcher.Methods.{enqueue_lem}
use pub_crawler.Recovery.Status.{
  default_codes, in_codes, has_code, enqueued, actor_depth, job_with, recover_actor, recover_node,
  recover_nodes,
}
use pub_crawler.Recovery.Actors.{KnownDepth, Tried, recover_nodes_lem}
use pub_crawler.Tests.Queue
use pub_crawler.Tests.Nodes
use pub_crawler.Tests.Workers.{setting}

abbrev world : World setting
world = record { jobs = Queue.start; graph = Nodes.start }

abbrev clock : ℕ → ℕ
clock n = 5

abbrev props : Value
props = dict (entry "http_status" (int (pos 503)) (entry "depth" (int (pos 3)) empty))

abbrev rows : List (ℕ × String × Value)
rows = (1, "a", props) ∷ []

abbrev a_job : Value
a_job = actor_job_at "a" (int (pos 3))

a_member :
    job_to_member plain 5 a_job
    ≡ ok (member_text plain 3 20 (plain.crc32 "actor:a") (iso_utc plain 5) (plain_dumps a_job).0)
unfolding job_to_member get_or get type_code clamp or_no_jid job_id
a_member = rw (plain_dumps a_job).1 refl

a_hash : job_to_hash plain a_job ≡ ok (plain.blake2b "actor:a")
unfolding job_to_hash job_id get or_no_jid
a_hash = refl

failed : has_code setting clock [] default_codes props "http_status" ≡ ok true
unfolding has_code get_or get in_codes
failed = refl

known : KnownDepth [] "a" props (int (pos 3))
unfolding contains_text contains_key index get
known = inr (refl, refl, refl)

returned : (recover_nodes setting clock [] default_codes 0 rows world).0 ≡ ok 1
unfolding recover_nodes recover_node recover_actor actor_depth job_with enqueued has_code get_or get
    in_codes contains_text contains_key index
returned =
    rw (enqueue_lem memory plain Queue.start a_job 5 (plain_dumps a_job).1 a_member a_hash).result
      refl

recover_nodes_lem_example :
    Tried setting clock [] "a"
      (int (pos 3))
      (recover_nodes setting clock [] default_codes 0 rows world).1
recover_nodes_lem_example =
    recover_nodes_lem setting clock [] default_codes rows 0 1 world returned 1 "a" props
      (int (pos 3)) first failed known
