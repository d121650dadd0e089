-- ===== src/Dispatcher/Methods.antt =====
-- Each method of the dispatcher as a change of the view: results, errors, and what is left alone.
use pub_crawler.Base.{String, ℕ, ◌+◌, ◌≡◌, refl, ap, ◌∙◌, true, false, none, some, if◌then◌else◌}
use pub_crawler.Exec.{Result, ok, raised, Error}
use pub_crawler.Json.{Value}
use pub_crawler.Redis.{Redis}
use pub_crawler.Platform.{Platform}
use pub_crawler.Dispatcher.{
  Dispatcher, queue_key, failed_key, seen_hashed_key, max_inflight, job_to_member, job_to_hash,
  member_to_job, enqueue, enqueue_if_unseen, get, pop, got, returned, waiting, done, fail, unfail,
}
use pub_crawler.Dispatcher.View.{
  View, view_of, set_queue, set_inflight, set_failed, set_seen, view-zadd, view-hdel, view-hset,
  view-sadd_seen, view-sadd_failed, view-srem_failed, view-bzpopmin,
}

module _ (r : Redis) (p : Platform) where
  abbrev pub view : Dispatcher r → View
  view d = view_of r p d.store

  -- A call that returned `a`, changed the view to `v`, and left the stop flag alone.
  pub record Did {A : Type 0} (d : Dispatcher r) (call : Result A × Dispatcher r) (a : Result A)
      (v : View) : Type 0 where
    pub result : call.0 ≡ a
    pub viewed : view call.1 ≡ v
    pub flag : call.1.stopped ≡ d.stopped

  module _ (d : Dispatcher r) (job : Value) where
    -- A job that cannot be written changes nothing.
    module _ (e : Error) (unwritten : p.dumps job ≡ raised e) where
      pub done_raises : done r p job d ≡ (raised e, d)
      unfolding done
      done_raises = rw unwritten

      pub fail_raises : fail r p job d ≡ (raised e, d)
      unfolding fail
      fail_raises = rw unwritten

      pub unfail_raises : unfail r p job d ≡ (raised e, d)
      unfolding unfail
      unfail_raises = rw unwritten

      pub enqueue_unwritten : (now : ℕ) → enqueue r p now job d ≡ (raised e, d)
      unfolding enqueue
      enqueue_unwritten now = rw unwritten

    module _ {text : String} (dumped : p.dumps job ≡ ok text) where
      pub done_lem : Did d (done r p job d) (ok tt) (set_inflight text none (view d))
      unfolding done
      done_lem =
          rw dumped (record { result = refl; viewed = view-hdel r p d.store text; flag = refl })

      pub fail_lem :
          Did d (fail r p job d) (ok tt) (set_failed text true (set_inflight text none (view d)))
      unfolding fail
      fail_lem = rw dumped (record {
        result = refl;
        viewed =
            view-sadd_failed r p _ text ∙ ap (set_failed text true) (view-hdel r p d.store text);
        flag = refl;
      })

      pub unfail_lem :
          Did d
            (unfail r p job d)
            (ok (if (view d).failed text then 1 else 0))
            (set_failed text false (view d))
      unfolding unfail
      unfail_lem = rw dumped (record {
        result = ap ok (r.srem_count failed_key text d.store);
        viewed = view-srem_failed r p d.store text;
        flag = refl;
      })

    module _ (now : ℕ) where
      pub enqueue_lem :
          {text member hash : String}
          → p.dumps job ≡ ok text
          → job_to_member p now job ≡ ok member
          → job_to_hash p job ≡ ok hash
          → Did d
              (enqueue r p now job d)
              (ok tt)
              (set_seen hash true (set_queue member (some 0) (set_inflight text none (view d))))
      unfolding enqueue
      enqueue_lem {text} {member} {hash} dumped m h =
          rw (dumped, m, h)
            (record {
              result = refl;
              viewed =
                  view-sadd_seen r p _ hash
                  ∙ ap (set_seen hash true) (
                      view-zadd r p _ member 0
                      ∙ ap (set_queue member (some 0)) (view-hdel r p d.store text));
              flag = refl;
            })

      -- A job that has no member is raised for, after it has left the jobs in flight.
      pub enqueue_raises :
          {text : String} (e : Error)
          → p.dumps job ≡ ok text
          → job_to_member p now job ≡ raised e
          → Did d (enqueue r p now job d) (raised e) (set_inflight text none (view d))
      unfolding enqueue
      enqueue_raises {text} e dumped m =
          rw (dumped, m)
            (record { result = refl; viewed = view-hdel r p d.store text; flag = refl })

      -- A job that has no identity changes nothing.
      pub enqueue_if_unseen_unnamed :
          (e : Error)
          → job_to_hash p job ≡ raised e
          → enqueue_if_unseen r p now job d ≡ (raised e, d)
      unfolding enqueue_if_unseen
      enqueue_if_unseen_unnamed e h = rw h

      module _ {hash : String} (hashed : job_to_hash p job ≡ ok hash) where
        pub enqueue_if_unseen_new :
            {member : String}
            → (view d).seen hash ≡ false
            → job_to_member p now job ≡ ok member
            → Did d
                (enqueue_if_unseen r p now job d)
                (ok true)
                (set_queue member (some 0) (set_seen hash true (view d)))
        unfolding enqueue_if_unseen
        enqueue_if_unseen_new {member} new m =
            rw (hashed, r.sadd_count seen_hashed_key hash d.store, new, m)
              (record {
                result = refl;
                viewed =
                    view-zadd r p _ member 0
                    ∙ ap (set_queue member (some 0)) (view-sadd_seen r p d.store hash);
                flag = refl;
              })

        -- A new job that has no member is raised for, and counts as seen.
        pub enqueue_if_unseen_raises :
            (e : Error)
            → (view d).seen hash ≡ false
            → job_to_member p now job ≡ raised e
            → Did d (enqueue_if_unseen r p now job d) (raised e) (set_seen hash true (view d))
        unfolding enqueue_if_unseen
        enqueue_if_unseen_raises e new m =
            rw (hashed, r.sadd_count seen_hashed_key hash d.store, new, m)
              (record { result = refl; viewed = view-sadd_seen r p d.store hash; flag = refl })

        pub enqueue_if_unseen_old :
            (view d).seen hash ≡ true
            → Did d (enqueue_if_unseen r p now job d) (ok false) (set_seen hash true (view d))
        unfolding enqueue_if_unseen
        enqueue_if_unseen_old old =
            rw (hashed, r.sadd_count seen_hashed_key hash d.store, old)
              (record { result = refl; viewed = view-sadd_seen r p d.store hash; flag = refl })

  module _ (d : Dispatcher r) (now : ℕ) where
    pub get_stopped : d.stopped ≡ true → get r p now d ≡ (ok (returned none), d)
    unfolding get
    get_stopped h = rw h

    pub get_running : d.stopped ≡ false → get r p now d ≡ pop r p now d
    unfolding get
    get_running h = rw h

    pub pop_empty :
        (r.bzpopmin queue_key d.store).0 ≡ none → Did d (pop r p now d) (ok waiting) (view d)
    unfolding pop got
    pop_empty h = rw h (record {
      result = refl;
      viewed = ap (view_of r p) (r.bzpopmin-none queue_key d.store h);
      flag = refl;
    })

    pub pop_lem :
        (member text : String) (score : ℕ) (job : Value)
        → (r.bzpopmin queue_key d.store).0 ≡ some (some (member, score))
        → member_to_job p member ≡ ok job
        → p.dumps job ≡ ok text
        → Did d
            (pop r p now d)
            (ok (returned (some job)))
            (set_inflight text (some (now + max_inflight)) (set_queue member none (view d)))
    unfolding pop got
    pop_lem member text score job h m dumped =
        rw (h, m, dumped)
          (record {
            result = refl;
            viewed =
                view-hset r p _ text (now + max_inflight)
                ∙ ap (set_inflight text (some (now + max_inflight)))
                    (view-bzpopmin r p d.store member score h);
            flag = refl;
          })
