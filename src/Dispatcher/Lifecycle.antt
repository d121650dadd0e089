-- ===== src/Dispatcher/Lifecycle.antt =====
-- What becomes of a job over several calls: it is enqueued once, and it leaves the jobs in flight.
use pub_crawler.Base.{
  String, ℕ, ◌≡◌, sym, ap, fun_ext, ◌∙◌, subst, Bool, true, false, none, List, [], ◌∷◌, arith,
  eq_iff, Bool-cases, inl, inr,
}
use pub_crawler.Exec.{Result, ok}
use pub_crawler.Exec.Fallible.{Result-cases}
use pub_crawler.Json.{Value}
use pub_crawler.Redis.{Redis}
use pub_crawler.Platform.{Platform}
use pub_crawler.Dispatcher.{
  Dispatcher, queue_key, max_inflight, job_to_member, job_to_hash, member_to_job,
}
use pub_crawler.Dispatcher
use pub_crawler.Dispatcher.Codec.{job_to_member-parts, job_to_hash_of_member}
use pub_crawler.Dispatcher.View.{View, at, set_inflight, set_failed, set_seen}
use pub_crawler.Dispatcher.Methods.{
  view, Did, get_stopped, get_running, enqueue_unwritten, enqueue_if_unseen_unnamed,
  enqueue_if_unseen_raises, done_raises, fail_raises, unfail_raises, done_lem, fail_lem, unfail_lem,
  enqueue_lem, enqueue_raises, enqueue_if_unseen_new, enqueue_if_unseen_old,
}
use pub_crawler.Dispatcher.Invariant.{Good}
use pub_crawler.Dispatcher.Runs.{
  Handed, pop_cases, Call, run, run_all, run-Good, enqueue, enqueue_if_unseen, get, go_on, done,
  fail, unfail, stop,
}

pub at_self : {A : Type 0} (k : String) (v : A) (f : String → A) → at k v f k ≡ v
at_self k v f = ground (arith, eq_iff k k)

now_seen : (h : String) (f : String → Bool) → at h true f h ≡ true
now_seen h f = at_self h true f

module _ (r : Redis) (p : Platform) (hash : String) where
  abbrev Seen : Dispatcher r → Type 0
  Seen d = (view r p d).seen hash ≡ true

  at_seen : (h : String) (f : String → Bool) → f hash ≡ true → at h true f hash ≡ true
  at_seen h f s = ground arith

  by_view :
      {A : Type 0} (d : Dispatcher r) (call : Result A × Dispatcher r) (a : Result A) (v : View)
      → Did r p d call a v
      → v.seen hash ≡ true
      → Seen call.1
  by_view d call a v did s = ap (λ v. v.seen hash) did.viewed ∙ s

  by_state :
      {A : Type 0} (d : Dispatcher r) (call : Result A × Dispatcher r) (a : Result A)
      → call ≡ (a, d)
      → Seen d
      → Seen call.1
  by_state d call a e s = subst (λ c. Seen c.1) (sym e) s

  module _ (d : Dispatcher r) (s : Seen d) (job : Value) where
    done-Seen : Seen (Dispatcher.done r p job d).1
    done-Seen = elim (Result-cases (p.dumps job)) [
      | inl (t, e) ↦ by_view d _ _ _ (done_lem r p d job e) s
      | inr (x, e) ↦ by_state d _ _ (done_raises r p d job x e) s
    ]

    fail-Seen : Seen (Dispatcher.fail r p job d).1
    fail-Seen = elim (Result-cases (p.dumps job)) [
      | inl (t, e) ↦ by_view d _ _ _ (fail_lem r p d job e) s
      | inr (x, e) ↦ by_state d _ _ (fail_raises r p d job x e) s
    ]

    unfail-Seen : Seen (Dispatcher.unfail r p job d).1
    unfail-Seen = elim (Result-cases (p.dumps job)) [
      | inl (t, e) ↦ by_view d _ _ _ (unfail_lem r p d job e) s
      | inr (x, e) ↦ by_state d _ _ (unfail_raises r p d job x e) s
    ]

    enqueue-Seen : (now : ℕ) → Seen (Dispatcher.enqueue r p now job d).1
    enqueue-Seen now = elim (Result-cases (p.dumps job)) [
      | inl (t, e) ↦ elim (Result-cases (job_to_member p now job)) [
        | inl (m, f) ↦
            by_view d _ _ _
              (enqueue_lem r p d job now e f
                (job_to_hash_of_member p now job m (job_to_member-parts p now job m f)))
              (at_seen _ (view r p d).seen s)
        | inr (x, f) ↦ by_view d _ _ _ (enqueue_raises r p d job now x e f) s
      ]
      | inr (x, e) ↦ by_state d _ _ (enqueue_unwritten r p d job x e now) s
    ]

    enqueue_if_unseen-Seen : (now : ℕ) → Seen (Dispatcher.enqueue_if_unseen r p now job d).1
    enqueue_if_unseen-Seen now = elim (Result-cases (job_to_hash p job)) [
      | inl (h, e) ↦ elim (Bool-cases ((view r p d).seen h)) [
        | inl old ↦
            by_view d _ _ _ (enqueue_if_unseen_old r p d job now e old)
              (at_seen h (view r p d).seen s)
        | inr new ↦ elim (Result-cases (job_to_member p now job)) [
          | inl (m, f) ↦
              by_view d _ _ _ (enqueue_if_unseen_new r p d job now e new f)
                (at_seen h (view r p d).seen s)
          | inr (x, f) ↦
              by_view d _ _ _ (enqueue_if_unseen_raises r p d job now e x new f)
                (at_seen h (view r p d).seen s)
        ]
      ]
      | inr (x, e) ↦ by_state d _ _ (enqueue_if_unseen_unnamed r p d job now x e) s
    ]

  pop-Seen :
      (d : Dispatcher r) → Good r p d → Seen d → (now : ℕ) → Seen (Dispatcher.pop r p now d).1
  pop-Seen d w s now = elim (pop_cases r p d w now) [
    | inl h ↦ by_view d _ _ _ h.did s
    | inr e ↦ by_view d _ _ _ e.1 s
  ]

  get-Seen :
      (d : Dispatcher r) → Good r p d → Seen d → (now : ℕ) → Seen (Dispatcher.get r p now d).1
  get-Seen d w s now = elim (Bool-cases d.stopped) [
    | inl halted ↦ by_state d _ _ (get_stopped r p d now halted) s
    | inr running ↦
        subst (λ call. Seen call.1) (sym (get_running r p d now running)) (pop-Seen d w s now)
  ]

  run-Seen : (c : Call r p) (d : Dispatcher r) → Good r p d → Seen d → Seen (run r p c d)
  unfolding run Dispatcher.stop
  run-Seen (enqueue now job) d w s = enqueue-Seen d s job now
  run-Seen (enqueue_if_unseen now job) d w s = enqueue_if_unseen-Seen d s job now
  run-Seen (get now) d w s = get-Seen d w s now
  run-Seen (go_on now) d w s = pop-Seen d w s now
  run-Seen (done job) d w s = done-Seen d s job
  run-Seen (fail job) d w s = fail-Seen d s job
  run-Seen (unfail job) d w s = unfail-Seen d s job
  run-Seen stop d w s = s

  run_all-Seen :
      (cs : List (Call r p)) (d : Dispatcher r) → Good r p d → Seen d → Seen (run_all r p cs d)
  unfolding run_all
  run_all-Seen [] d w s = s
  run_all-Seen (c ∷ cs) d w s =
      run_all-Seen cs (run r p c d) (run-Good r p c d w) (run-Seen c d w s)

module _ (r : Redis) (p : Platform) where
  unchanged : (h : String) (v : View) → v.seen h ≡ true → set_seen h true v ≡ v
  unchanged h v e = λ i. record v { seen = fun_ext (λ j. same j) i }
    where
      same : (j : String) → at h true v.seen j ≡ v.seen j
      same j = ground (arith, eq_iff h j)

  module _ (d : Dispatcher r) (good : Good r p d) (job : Value) (now : ℕ) (hash : String) where
    -- On a dispatcher whose keys are well formed: once `enqueue_if_unseen` has been called with a job
    -- that has an identity, then after any calls
    -- of other methods or of this one, calling it with a job of the same hash returns false and
    -- changes neither the queue, the jobs in flight, the failed jobs nor the hashes seen.
    pub enqueue_if_unseen_once :
        job_to_hash p job ≡ ok hash
        → (cs : List (Call r p)) (other : Value) (later : ℕ) → job_to_hash p other ≡ ok hash
        → Did r p
            (run_all r p (enqueue_if_unseen now job ∷ cs) d)
            (Dispatcher.enqueue_if_unseen r p later other
              (run_all r p (enqueue_if_unseen now job ∷ cs) d))
            (ok false)
            (view r p (run_all r p (enqueue_if_unseen now job ∷ cs) d))
    unfolding run run_all
    enqueue_if_unseen_once e cs other later f =
        let did =
          enqueue_if_unseen_old r p (run_all r p (enqueue_if_unseen now job ∷ cs) d) other later f
            kept in
        record { result = did.result; viewed = did.viewed ∙ unchanged hash _ kept; flag = did.flag }
      where
        first : Seen r p hash (run r p (enqueue_if_unseen now job) d)
        first = elim (Bool-cases ((view r p d).seen hash)) [
          | inl old ↦
              by_view r p hash d _ _ _ (enqueue_if_unseen_old r p d job now e old)
                (now_seen hash (view r p d).seen)
          | inr new ↦ elim (Result-cases (job_to_member p now job)) [
            | inl (m, g) ↦
                by_view r p hash d _ _ _ (enqueue_if_unseen_new r p d job now e new g)
                  (now_seen hash (view r p d).seen)
            | inr (x, g) ↦
                by_view r p hash d _ _ _ (enqueue_if_unseen_raises r p d job now e x new g)
                  (now_seen hash (view r p d).seen)
          ]
        ]

        kept : Seen r p hash (run_all r p (enqueue_if_unseen now job ∷ cs) d)
        kept = run_all-Seen r p hash cs _ (run-Good r p (enqueue_if_unseen now job) d good) first

  module _ (d : Dispatcher r) (now : ℕ) (h : Handed r p d now) where
    abbrev after_get : Dispatcher r
    after_get = (Dispatcher.get r p now d).1

    dumped : p.dumps (p.sorted h.job) ≡ ok h.text
    dumped = p.dumps-sorted h.job ∙ h.dumped

    finished :
        Did r p after_get
          (Dispatcher.done r p (p.sorted h.job) after_get)
          (ok tt)
          (set_inflight h.text none (view r p after_get))
    finished = done_lem r p after_get (p.sorted h.job) dumped

    fallen :
        Did r p after_get
          (Dispatcher.fail r p (p.sorted h.job) after_get)
          (ok tt)
          (set_failed h.text true (set_inflight h.text none (view r p after_get)))
    fallen = fail_lem r p after_get (p.sorted h.job) dumped

    -- Where `get` hands out a job: after `done` with it, the member that `get` took is not in the
    -- queue, and the job's text not in flight; after `fail` that is so too, and the text is among the
    -- failed jobs. Other members of the queue may be of the same job.
    pub get_finished :
        ((view r p (Dispatcher.done r p (p.sorted h.job) after_get).1).queue h.member ≡ none)
        × ((view r p (Dispatcher.done r p (p.sorted h.job) after_get).1).inflight h.text ≡ none)
        × ((view r p (Dispatcher.fail r p (p.sorted h.job) after_get).1).queue h.member ≡ none)
        × ((view r p (Dispatcher.fail r p (p.sorted h.job) after_get).1).inflight h.text ≡ none)
        × ((view r p (Dispatcher.fail r p (p.sorted h.job) after_get).1).failed h.text ≡ true)
    get_finished = (
      ap (λ v. v.queue h.member) (finished.viewed ∙ ap (set_inflight h.text none) h.did.viewed)
          ∙ at_self h.member none (view r p d).queue,
      ap (λ v. v.inflight h.text) finished.viewed
          ∙ at_self h.text none (view r p after_get).inflight,
      ap (λ v. v.queue h.member)
            (fallen.viewed
              ∙ ap (λ v. set_failed h.text true (set_inflight h.text none v)) h.did.viewed)
          ∙ at_self h.member none (view r p d).queue,
      ap (λ v. v.inflight h.text) fallen.viewed ∙ at_self h.text none (view r p after_get).inflight,
      ap (λ v. v.failed h.text) fallen.viewed ∙ at_self h.text true (view r p after_get).failed,
    )
