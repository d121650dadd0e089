-- ===== src/Tests/Fixups.antt =====
-- The programs under fixup on a store in memory.
use pub_crawler.Base.{
  String, ℕ, ◌≡◌, refl, true, false, none, some, List, [], ◌∷◌, In, map, is_some, inr,
  if◌then◌else◌,
}
use pub_crawler.Exec.{ok}
use pub_crawler.Json.{Value, get}
use pub_crawler.Redis.{contains}
use pub_crawler.Redis.Memory.{memory, fresh}
use pub_crawler.Platform.Plain.{plain, plain_dumps, plain_sorted, plain_isoformat}
use pub_crawler.Job.{job_id, get_or, actor_job}
use pub_crawler.Base.Text.{replace_from, has_char}
use pub_crawler.Dispatcher.{
  iso_utc, clamp, type_code, queue_key, seen_key, seen_hashed_key, job_to_member,
}
use pub_crawler.Dispatcher
use pub_crawler.Dispatcher.Codec.{IsMemberOf}
use pub_crawler.Fixups.{fixup_zero_score, fixup_seen_hash, fixup_crc_tiebreak}
use pub_crawler.Fixups.Member.{new_member, is_old_member, third}
use pub_crawler.Fixups.Scores.{fixup_zero_score_lem}
use pub_crawler.Fixups.Hashes.{fixup_seen_hash_lem}
use pub_crawler.Fixups.CrcTiebreak.{old_text, split-old_text, new_member-job_to_member}
use pub_crawler.Fixups.Rewriting.{fixup_crc_tiebreak_lem}
use pub_crawler.Tests.Queue.{job, member}

abbrev scores : List (String × ℕ)
scores = ("a", 3) ∷ ("b", 4) ∷ ("a", 3) ∷ []

fixup_zero_score_lem_example :
    ((fixup_zero_score memory 2 scores fresh).0 ≡ ok 3)
    × ((m : String)
        → memory.zsets (fixup_zero_score memory 2 scores fresh).1 queue_key m
          ≡ (if contains (map (λ e. e.0) scores) m then some 0 else memory.zsets fresh queue_key m))
fixup_zero_score_lem_example = fixup_zero_score_lem memory 2 scores fresh

abbrev ids : List String
ids = "actor:a" ∷ "actor:b" ∷ []

fixup_seen_hash_lem_example :
    ((fixup_seen_hash memory plain 1 ids fresh).0 ≡ ok 2)
    × ((j : String)
        → memory.sets (fixup_seen_hash memory plain 1 ids fresh).1 seen_key j
          ≡ (if contains ids j then false else memory.sets fresh seen_key j))
    × ((job : Value) (j : String)
        → job_id plain.text_of job ≡ some j
        → contains ids j ≡ true
        → (Dispatcher.seen memory plain job
            (record { store = (fixup_seen_hash memory plain 1 ids fresh).1; stopped = false })).0
          ≡ ok true)
    × ((h : String)
        → memory.sets fresh seen_hashed_key h ≡ true
        → memory.sets (fixup_seen_hash memory plain 1 ids fresh).1 seen_hashed_key h ≡ true)
fixup_seen_hash_lem_example = fixup_seen_hash_lem memory plain 1 ids fresh false

job-IsMemberOf : IsMemberOf plain 5 job member
unfolding get_or actor_job get type_code clamp job_id
job-IsMemberOf = record {
  depth = 2;
  code = 20;
  jid = "actor:https://a.example/u";
  text = (plain_dumps job).0;
  identified = refl;
  depth_value = _;
  depth_read = refl;
  clamped = refl;
  type_value = _;
  type_read = refl;
  coded = refl;
  dumped = (plain_dumps job).1;
  written = refl;
}

abbrev old_member : String
old_member = old_text plain job-IsMemberOf.depth job-IsMemberOf.code 5 job-IsMemberOf.text

new_member-job_to_member_example :
    (new_member plain old_member ≡ ok (some member)) × (job_to_member plain 5 job ≡ ok member)
new_member-job_to_member_example =
    new_member-job_to_member plain 5 job member (plain_sorted job) job-IsMemberOf

old_member-old : is_old_member old_member ≡ ok true
unfolding is_old_member third iso_utc replace_from has_char
old_member-old =
    rw
      (
        split-old_text plain job-IsMemberOf.depth job-IsMemberOf.code 5 job-IsMemberOf.text,
        plain_isoformat 5,
      )
      refl

abbrev in_queue : List (String × ℕ)
in_queue = (old_member, 0) ∷ []

fixup_crc_tiebreak_lem_example :
    ((fixup_crc_tiebreak memory plain 1000 in_queue fresh).0 ≡ ok 1)
    × ((m n : String) (x : ℕ)
        → In (m, x) in_queue
        → is_old_member m ≡ ok true
        → new_member plain m ≡ ok (some n)
        → (memory.zsets (fixup_crc_tiebreak memory plain 1000 in_queue fresh).1 queue_key n
            ≡ some 0)
          × (memory.zsets (fixup_crc_tiebreak memory plain 1000 in_queue fresh).1 queue_key m
              ≡ none))
    × ((k : String)
        → is_old_member k ≡ ok false
        → is_some (memory.zsets fresh queue_key k) ≡ true
        → is_some (memory.zsets (fixup_crc_tiebreak memory plain 1000 in_queue fresh).1 queue_key k)
          ≡ true)
fixup_crc_tiebreak_lem_example = fixup_crc_tiebreak_lem memory plain 1000 in_queue fresh (
  inr (
    old_member-old,
    some member,
    (new_member-job_to_member plain 5 job member (plain_sorted job) job-IsMemberOf).0,
  ),
  tt,
)
