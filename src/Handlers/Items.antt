-- ===== src/Handlers/Items.antt =====
-- pub_crawler/handle_items.py: what becomes of the items.
use pub_crawler.Base.{
  String, ℕ, ◌++◌, ◌≡◌, refl, ap, ◌∙◌, Bool, true, false, not, ◌&&◌, some, List, [], ◌∷◌, str_eq,
  eq_iff, arith, Bool-cases, inl, inr,
}
use pub_crawler.Exec.{ok}
use pub_crawler.Exec.Fallible.{Result-cases}
use pub_crawler.Json.{Value, Dict, get, has_key}
use pub_crawler.Json.Python.{add_one}
use pub_crawler.Job.{job_id}
use pub_crawler.Dispatcher.{Dispatcher, job_to_member, job_to_hash, or_no_jid}
use pub_crawler.Dispatcher
use pub_crawler.Dispatcher.View.{at}
use pub_crawler.Dispatcher.Methods.{view}
use pub_crawler.Dispatcher.Offered.{Taken, taken}
use pub_crawler.World.{Setting, World}
use pub_crawler.Handlers.{without, unique, contains_text, actor_job_at, enqueue_actors}

pub contains-unique :
    (xs : List String) (x : String) → contains_text (unique xs) x ≡ contains_text xs x
unfolding contains_text unique
contains-unique [] x = refl
contains-unique (y ∷ ys) x = ground (arith, contains-unique ys x, contains-unique ys y, eq_iff y x)

pub contains-without :
    (xs : List String) (d : Dict) (x : String)
    → contains_text (without xs d) x ≡ (contains_text xs x && not (has_key d x))
unfolding contains_text without
contains-without [] d x = refl
contains-without (y ∷ ys) d x = elim (Bool-cases (str_eq y x)) [
  | inl same ↦
      let e : has_key d y ≡ has_key d x = ap (λ k. has_key d k) ((eq_iff y x).0 same) in
      ground (arith, contains-without ys d x, e)
  | inr other ↦ ground (arith, contains-without ys d x)
]

module _ (w : Setting) (now : ℕ) where
  abbrev D : Type 0
  D = Dispatcher w.redis

  -- the hash of the identity of an actor's job
  abbrev pub hash_of : String → String
  hash_of id = w.platform.blake2b ("actor" ++ (":" ++ id))

  abbrev pub seen_in : D → String → Bool
  seen_in d h = (view w.redis w.platform d).seen h

  -- Each of the actors is seen; of a hash that is new, a job of one of them is in the queue.
  pub record Enqueued (ids : List String) (depth : Value) (d e : D) : Type 0 where
    pub seen : (id : String) → contains_text ids id ≡ true → seen_in e (hash_of id) ≡ true
    pub queued :
        (h : String)
        → seen_in d h ≡ false
        → seen_in e h ≡ true
        → (id : String) × (contains_text ids id ≡ true)
          × (hash_of id ≡ h)
          × (member : String) × (job_to_member w.platform now (actor_job_at id depth) ≡ ok member)
          × ((view w.redis w.platform e).queue member ≡ some 0)
    pub still_seen : (h : String) → seen_in d h ≡ true → seen_in e h ≡ true
    pub still_queued :
        (m : String)
        → (view w.redis w.platform d).queue m ≡ some 0
        → (view w.redis w.platform e).queue m ≡ some 0

  hashed :
      (id : String) (depth : Value)
      → job_to_hash w.platform (actor_job_at id depth) ≡ ok (hash_of id)
  unfolding job_to_hash job_id get or_no_jid
  hashed id depth = refl

  nothing : (depth : Value) (d : D) → Enqueued [] depth d d
  unfolding contains_text
  nothing depth d = record {
    seen = λ id h. absurd (cc);
    queued = λ h a b. absurd (cc);
    still_seen = λ h a. a;
    still_queued = λ m h. h;
  }

  module _ (id : String) (depth : Value) (c d : D)
      (t : Taken w.redis w.platform now (actor_job_at id depth) c d (hash_of id)) where
    taken_seen : (h : String) → seen_in d h ≡ at (hash_of id) true (λ k. seen_in c k) h
    taken_seen h = elim t [
      | inl (old, v) ↦ ap (λ x. x.seen h) v
      | inr (new, m, made, v) ↦ ap (λ x. x.seen h) v
    ]

    taken_still :
        (m : String)
        → (view w.redis w.platform c).queue m ≡ some 0
        → (view w.redis w.platform d).queue m ≡ some 0
    taken_still m q = elim t [
      | inl (old, v) ↦ ap (λ x. x.queue m) v ∙ q
      | inr (new, n, made, v) ↦ ap (λ x. x.queue m) v ∙ ground (arith, q)
    ]

    taken_new :
        seen_in c (hash_of id) ≡ false
        → (member : String) × (job_to_member w.platform now (actor_job_at id depth) ≡ ok member)
          × ((view w.redis w.platform d).queue member ≡ some 0)
    taken_new fresh = elim t [
      | inl (old, v) ↦ absurd (cc)
      | inr (new, m, made, v) ↦ (m, made, ap (λ x. x.queue m) v ∙ rw ((eq_iff m m).1 refl) refl)
    ]

    one_more : (ids : List String) (e : D) → Enqueued ids depth d e → Enqueued (id ∷ ids) depth c e
    unfolding contains_text
    one_more ids e o = record {
      seen = λ k i. elim (Bool-cases (str_eq id k)) [
        | inl same ↦ o.still_seen (hash_of k) (
            taken_seen (hash_of k)
            ∙ rw ((eq_iff (hash_of id) (hash_of k)).1 (ap (λ x. hash_of x) ((eq_iff id k).0 same)))
                refl)
        | inr other ↦ o.seen k (rw other at i)
      ];
      queued = λ h old new. elim (Bool-cases (str_eq (hash_of id) h)) [
        | inl same ↦
            let is : hash_of id ≡ h = (eq_iff (hash_of id) h).0 same in
            let (m, made, q) = taken_new (ap (λ x. seen_in c x) is ∙ old) in
            (id, rw ((eq_iff id id).1 refl) refl, is, m, made, o.still_queued m q)
        | inr other ↦
            let (k, i, is, m, made, q) = o.queued h (taken_seen h ∙ rw other old) new in
            (k, ground (arith, i), is, m, made, q)
      ];
      still_seen = λ h a. o.still_seen h (taken_seen h ∙ ground (arith, a));
      still_queued = λ m q. o.still_queued m (taken_still m q);
    }

  module _ (order : List String → List String) (depth next : Value)
      (added : add_one depth ≡ ok next) where
    pub enqueue_actors_lem :
        (ids : List String) (s : World w)
        → (enqueue_actors w order now ids depth s).0 ≡ ok tt
        → Enqueued ids next s.jobs (enqueue_actors w order now ids depth s).1.jobs
          × ((enqueue_actors w order now ids depth s).1.graph ≡ s.graph)
    unfolding enqueue_actors
    enqueue_actors_lem [] s h = (nothing next s.jobs, refl)
    enqueue_actors_lem (id ∷ ids) s h =
        let call =
          Dispatcher.enqueue_if_unseen w.redis w.platform now (actor_job_at id next) s.jobs in
        elim (Result-cases call.0) [
          | inr (e, bad) ↦ absurd (cc (rw (enqueue_actors, added, bad) at h))
          | inl (b, good) ↦
              let t : World w = record s { jobs = call.1 } in
              let o = enqueue_actors_lem ids t (rw (enqueue_actors, added, good) at h) in
              rw (enqueue_actors, added, good)
                (
                  one_more id next s.jobs call.1
                      (taken w.redis w.platform now (actor_job_at id next) s.jobs b (hash_of id)
                        (hashed id next) good)
                      ids _ o.0,
                  o.1,
                )
        ]
