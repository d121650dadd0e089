-- ===== src/Dispatcher/Offered.antt =====
-- What holds after a call of `enqueue_if_unseen` that returned, whether the job was new or not.
use pub_crawler.Base.{String, ℕ, ◌≡◌, ◌⊎◌, inl, inr, Bool, true, false, some, Bool-cases}
use pub_crawler.Exec.{ok}
use pub_crawler.Exec.Fallible.{Result-cases}
use pub_crawler.Json.{Value}
use pub_crawler.Redis.{Redis}
use pub_crawler.Platform.{Platform}
use pub_crawler.Dispatcher.{Dispatcher, job_to_member, job_to_hash, enqueue_if_unseen}
use pub_crawler.Dispatcher.View.{set_queue, set_seen}
use pub_crawler.Dispatcher.Methods.{
  view, enqueue_if_unseen_new, enqueue_if_unseen_old, enqueue_if_unseen_raises,
}

module _ (r : Redis) (p : Platform) (now : ℕ) (job : Value) (d e : Dispatcher r) where
  -- The job was seen before, or is put into the queue.
  abbrev pub Taken : String → Type 0
  Taken hash =
      (((view r p d).seen hash ≡ true) × (view r p e ≡ set_seen hash true (view r p d)))
      ⊎ (((view r p d).seen hash ≡ false)
          × (member : String) × (job_to_member p now job ≡ ok member)
          × (view r p e ≡ set_queue member (some 0) (set_seen hash true (view r p d))))

module _ (r : Redis) (p : Platform) (now : ℕ) (job : Value) (d : Dispatcher r) where
  pub taken :
      (b : Bool) (hash : String)
      → job_to_hash p job ≡ ok hash
      → (enqueue_if_unseen r p now job d).0 ≡ ok b
      → Taken r p now job d (enqueue_if_unseen r p now job d).1 hash
  taken b hash hashed h = elim (Bool-cases ((view r p d).seen hash)) [
    | inl old ↦ inl (old, (enqueue_if_unseen_old r p d job now hashed old).viewed)
    | inr new ↦ elim (Result-cases (job_to_member p now job)) [
      | inl (m, made) ↦
          inr (new, m, made, (enqueue_if_unseen_new r p d job now hashed new made).viewed)
      | inr (e, unmade) ↦
          absurd (cc (h, (enqueue_if_unseen_raises r p d job now hashed e new unmade).result))
    ]
  ]
