-- ===== src/Tests/Queue.antt =====
-- pub_crawler/dispatcher.py and pub_crawler/job_id.py at concrete jobs.
use pub_crawler.Base.{
  String, ℕ, ◌≡◌, refl, sym, true, false, none, some, List, [], ◌∷◌, ◌≤◌, ap, ◌∙◌, arith, eq_iff,
  In, ◌<◌, ◌⊎◌, inl, inr,
}
use pub_crawler.Base.Int.{pos}
use pub_crawler.Exec.{ok}
use pub_crawler.Json.{Value, str, int, get as get_entry}
use pub_crawler.Redis.Memory.{memory, fresh, zsets-fresh, sets-fresh, hashes-fresh}
use pub_crawler.Platform.Plain.{plain, plain_dumps}
use pub_crawler.Job.{job_id, format, get_or, actor_job, page_job}
use pub_crawler.Job.Identity.{
  Kind, actor, page as page_kind, IsJob, identity, job_id-IsJob, IsJob-job_id, job_id_injective,
}
use pub_crawler.Dispatcher.{
  Dispatcher, queue_key, job_to_member, member_to_job, job_to_hash, member_text, clamp, type_code,
  iso_utc, or_no_jid,
}
use pub_crawler.Dispatcher.Codec.{IsMemberOf, job_to_member-parts, member_to_job-job_to_member}
use pub_crawler.Dispatcher.Methods.{view, Did, enqueue_if_unseen_new}
use pub_crawler.Dispatcher
use pub_crawler.Dispatcher.Runs.{
  Handed, Waits, get-Good, get_cases, run, run_all, run-Good, run_all-Good, enqueue,
  enqueue_if_unseen, get, done, fail, unfail, stop,
}
use pub_crawler.Dispatcher.Lifecycle.{enqueue_if_unseen_once, get_finished}
use pub_crawler.Dispatcher.Expiry.{expired_exact}
use pub_crawler.Dispatcher.Priority.{place, get_priority}
use pub_crawler.Dispatcher.Invariant.{Good}
use pub_crawler.Dispatcher.View.{at-some}
use pub_crawler.Dispatcher.Draining.{drained, Drained, Listed, gets}
use pub_crawler.Redis.{contains}

abbrev pub start : Dispatcher memory
start = record { store = fresh; stopped = false }

start-Good : Good memory plain start
start-Good = record {
  queued = λ m x h. absurd (ground (arith, zsets-fresh "pub_crawler:queue" m));
  flying = λ t x h. absurd (ground (arith, hashes-fresh "pub_crawler:inflight" t));
  fallen = λ t h. absurd (ground (arith, sets-fresh "pub_crawler:failed" t));
}

abbrev pub job : Value
job = actor_job "https://a.example/u" (pos 2)

abbrev pub text : String
text = (plain_dumps job).0

abbrev pub member : String
member = member_text plain 2 20 (plain.crc32 "actor:https://a.example/u") (iso_utc plain 5) text

job_identified : job_id plain.text_of job ≡ some "actor:https://a.example/u"
unfolding job_id actor_job get_entry
job_identified = refl

pub job_written : job_to_member plain 5 job ≡ ok member
unfolding job_to_member get_or actor_job get_entry type_code clamp or_no_jid job_id
job_written = rw (plain_dumps job).1 refl

member_to_job-job_to_member_example : member_to_job plain member ≡ ok (plain.sorted job)
member_to_job-job_to_member_example = member_to_job-job_to_member plain 5 job member job_written

job-IsJob : IsJob job actor (str "https://a.example/u")
unfolding actor_job get_entry
job-IsJob = record { fields = _; is_dict = refl; typed = refl; keyed = refl }

abbrev pub a_page : Value
a_page = page_job "https://a.example/p" "https://a.example/u" "followers" (pos 2)

page-IsJob : IsJob a_page page_kind (str "https://a.example/p")
unfolding page_job get_entry
page-IsJob = record { fields = _; is_dict = refl; typed = refl; keyed = refl }

job_id-IsJob_example :
    (k : Kind) × (x : Value) × IsJob job k x
    × ("actor:https://a.example/u" ≡ identity plain.text_of k x)
job_id-IsJob_example = job_id-IsJob plain.text_of job "actor:https://a.example/u" job_identified

IsJob-job_id_example :
    job_id plain.text_of job ≡ some (identity plain.text_of actor (str "https://a.example/u"))
IsJob-job_id_example = IsJob-job_id plain.text_of job actor (str "https://a.example/u") job-IsJob

job_id_injective_example :
    (actor ≡ actor)
    × (format plain.text_of (str "https://a.example/u")
        ≡ format plain.text_of (str "https://a.example/u"))
job_id_injective_example =
    job_id_injective plain.text_of job job actor actor (str "https://a.example/u")
      (str "https://a.example/u") job-IsJob job-IsJob refl

job_hashed : job_to_hash plain job ≡ ok (plain.blake2b "actor:https://a.example/u")
unfolding job_to_hash job_id actor_job get_entry or_no_jid
job_hashed = refl

run_all-Good_example : Good memory plain (
    run_all memory plain
      (enqueue_if_unseen 5 job
        ∷ enqueue 6 a_page
        ∷ get 7
        ∷ fail job
        ∷ unfail job
        ∷ done a_page
        ∷ stop
        ∷ [])
      start)
run_all-Good_example =
    run_all-Good memory plain
      (enqueue_if_unseen 5 job
        ∷ enqueue 6 a_page
        ∷ get 7
        ∷ fail job
        ∷ unfail job
        ∷ done a_page
        ∷ stop
        ∷ [])
      start start-Good

-- the queue with the job in it
abbrev pub queued : Dispatcher memory
queued = run memory plain (enqueue_if_unseen 5 job) start

queued-Good : Good memory plain queued
queued-Good = run-Good memory plain (enqueue_if_unseen 5 job) start start-Good

queued_running : queued.stopped ≡ false
unfolding run
queued_running =
    (enqueue_if_unseen_new memory plain start job 5 job_hashed (sets-fresh _ _) job_written).flag

get_cases_example :
    Handed memory plain queued 9 ⊎ Waits memory plain queued (Dispatcher.get memory plain 9 queued)
get_cases_example = get_cases memory plain queued queued-Good 9 queued_running

enqueue_if_unseen_once_example :
    Did memory plain
      (run_all memory plain (enqueue_if_unseen 5 job ∷ get 7 ∷ done job ∷ []) start)
      (Dispatcher.enqueue_if_unseen memory plain 8 job
        (run_all memory plain (enqueue_if_unseen 5 job ∷ get 7 ∷ done job ∷ []) start))
      (ok false)
      (view memory plain
        (run_all memory plain (enqueue_if_unseen 5 job ∷ get 7 ∷ done job ∷ []) start))
enqueue_if_unseen_once_example =
    enqueue_if_unseen_once memory plain start start-Good job 5
      (plain.blake2b "actor:https://a.example/u") job_hashed (get 7 ∷ done job ∷ []) job 8
      job_hashed

in_queue : (view memory plain queued).queue member ≡ some 0
unfolding run
in_queue =
    ap (λ v. v.queue member)
      (enqueue_if_unseen_new memory plain start job 5 job_hashed (sets-fresh _ _)
        job_written).viewed
    ∙ ground (arith, eq_iff member member)

pub handed : Handed memory plain queued 9
handed = elim (get_cases memory plain queued queued-Good 9 queued_running) [
  | inl h ↦ h
  | inr (vacant, did) ↦ absurd (ground (arith, in_queue, vacant member))
]

-- the dispatcher after it handed the job out
abbrev taken : Dispatcher memory
taken = (Dispatcher.get memory plain 9 queued).1

handed_parts : IsMemberOf plain handed.time handed.job handed.member
handed_parts = job_to_member-parts plain handed.time handed.job handed.member handed.member_of

job_parts : IsMemberOf plain 5 job member
job_parts = job_to_member-parts plain 5 job member job_written

get_priority_example :
    (handed_parts.depth ≤ job_parts.depth)
    × (handed_parts.depth ≡ job_parts.depth
        → place handed_parts.type_value ≤ place job_parts.type_value)
    × ((i j : ℕ)
        → handed_parts.depth_value ≡ int (pos i)
        → job_parts.depth_value ≡ int (pos j)
        → j < i
        → 99 ≤ j)
get_priority_example =
    get_priority memory plain queued 9 queued-Good handed member 0 in_queue handed_parts 5 job
      job_parts

get_finished_example :
    ((view memory plain (Dispatcher.done memory plain (plain.sorted handed.job) taken).1).queue
        handed.member
      ≡ none)
    × ((view memory plain (Dispatcher.done memory plain (plain.sorted handed.job) taken).1).inflight
          handed.text
        ≡ none)
    × ((view memory plain (Dispatcher.fail memory plain (plain.sorted handed.job) taken).1).queue
          handed.member
        ≡ none)
    × ((view memory plain (Dispatcher.fail memory plain (plain.sorted handed.job) taken).1).inflight
          handed.text
        ≡ none)
    × ((view memory plain (Dispatcher.fail memory plain (plain.sorted handed.job) taken).1).failed
          handed.text
        ≡ true)
get_finished_example = get_finished memory plain queued 9 handed

expired_exact_example :
    (jobs : List Value) × (Dispatcher.expired memory plain 900010 taken ≡ (ok jobs, taken))
    × ((t : String) (x : ℕ)
        → (view memory plain taken).inflight t ≡ some x
        → x < 900010
        → (j : Value) → plain.loads t ≡ ok j
        → In j jobs)
    × ((j : Value)
        → In j jobs
        → (t : String) × (x : ℕ) × ((view memory plain taken).inflight t ≡ some x)
          × (x < 900010)
          × (plain.loads t ≡ ok j))
expired_exact_example =
    expired_exact memory plain taken (get-Good memory plain queued queued-Good 9) 900010

queued-Listed : Listed memory plain (member ∷ []) queued
unfolding run contains
queued-Listed m x h =
    elim (at-some member m (view memory plain start).queue 0 x (
      sym (
        ap (λ v. v.queue m)
          (enqueue_if_unseen_new memory plain start job 5 job_hashed (sets-fresh _ _)
            job_written).viewed)
      ∙ h)) [
        | inl (same, value) ↦ ground (arith, eq_iff member m)
        | inr old ↦ absurd (ground (arith, zsets-fresh "pub_crawler:queue" m))
      ]

drained_example : Drained memory plain queued (gets memory plain (9 ∷ []) queued)
drained_example =
    drained memory plain (9 ∷ []) (member ∷ []) queued queued-Good queued_running queued-Listed
      (omega arith)
