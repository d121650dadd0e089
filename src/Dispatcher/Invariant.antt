-- ===== src/Dispatcher/Invariant.antt =====
-- What the dispatcher's keys hold in every run: members of jobs with score 0, and texts of jobs.
use pub_crawler.Base.{
  String, ℕ, ◌≡◌, refl, sym, subst, Bool, true, false, none, some, Bool-cases, inl, inr,
}
use pub_crawler.Exec.{Result, ok}
use pub_crawler.Exec.Fallible.{Result-cases}
use pub_crawler.Json.{Value}
use pub_crawler.Redis.{Redis}
use pub_crawler.Platform.{Platform}
use pub_crawler.Dispatcher.{
  Dispatcher, job_to_member, job_to_hash, enqueue, enqueue_if_unseen, done, fail, unfail,
}
use pub_crawler.Dispatcher.Codec.{job_to_member-parts, job_to_hash_of_member}
use pub_crawler.Dispatcher.View.{
  View, set_queue, set_inflight, set_failed, set_seen, at-some, at-none, at-true, at-false,
}
use pub_crawler.Dispatcher.Methods.{
  view, Did, enqueue_unwritten, enqueue_if_unseen_unnamed, enqueue_if_unseen_raises, done_raises,
  fail_raises, unfail_raises, done_lem, fail_lem, unfail_lem, enqueue_lem, enqueue_raises,
  enqueue_if_unseen_new, enqueue_if_unseen_old,
}

module _ (p : Platform) where
  -- a member that the method wrote at some time for some job, with score 0
  pub record IsQueued (member : String) (score : ℕ) : Type 0 where
    pub zero_score : score ≡ 0
    pub time : ℕ
    pub job : Value
    pub member_of : job_to_member p time job ≡ ok member

  pub record IsText (text : String) : Type 0 where
    pub job : Value
    pub dumped : p.dumps job ≡ ok text

  pub record IsWellFormed (v : View) : Type 0 where
    pub queued : (m : String) (x : ℕ) → v.queue m ≡ some x → IsQueued m x
    pub flying : (t : String) (x : ℕ) → v.inflight t ≡ some x → IsText t
    pub fallen : (t : String) → v.failed t ≡ true → IsText t

  module _ (v : View) (w : IsWellFormed v) where
    pub set_queue-IsWellFormed :
        (m : String) (x : ℕ) → IsQueued m x → IsWellFormed (set_queue m (some x) v)
    set_queue-IsWellFormed m x q = record {
      queued = λ n y h. elim (at-some m n v.queue x y h) [
        | inl (same, value) ↦ subst (λ k. IsQueued k y) same (subst (IsQueued m) value q)
        | inr old ↦ w.queued n y old
      ];
      flying = w.flying;
      fallen = w.fallen;
    }

    pub take-IsWellFormed : (m : String) → IsWellFormed (set_queue m none v)
    take-IsWellFormed m = record {
      queued = λ n y h. w.queued n y (at-none m n v.queue y h);
      flying = w.flying;
      fallen = w.fallen;
    }

    pub set_inflight-IsWellFormed :
        (t : String) (x : ℕ) → IsText t → IsWellFormed (set_inflight t (some x) v)
    set_inflight-IsWellFormed t x q = record {
      queued = w.queued;
      flying = λ n y h. elim (at-some t n v.inflight x y h) [
        | inl (same, value) ↦ subst IsText same q
        | inr old ↦ w.flying n y old
      ];
      fallen = w.fallen;
    }

    land-IsWellFormed : (t : String) → IsWellFormed (set_inflight t none v)
    land-IsWellFormed t = record {
      queued = w.queued;
      flying = λ n y h. w.flying n y (at-none t n v.inflight y h);
      fallen = w.fallen;
    }

    set_failed-IsWellFormed : (t : String) → IsText t → IsWellFormed (set_failed t true v)
    set_failed-IsWellFormed t q = record {
      queued = w.queued;
      flying = w.flying;
      fallen = λ n h. elim (at-true t n v.failed h) [
        | inl same ↦ subst IsText same q
        | inr old ↦ w.fallen n old
      ];
    }

    unfail-IsWellFormed : (t : String) → IsWellFormed (set_failed t false v)
    unfail-IsWellFormed t = record {
      queued = w.queued;
      flying = w.flying;
      fallen = λ n h. w.fallen n (at-false t n v.failed h);
    }

    set_seen-IsWellFormed : (h : String) (b : Bool) → IsWellFormed (set_seen h b v)
    set_seen-IsWellFormed h b = record { queued = w.queued; flying = w.flying; fallen = w.fallen }

module _ (r : Redis) (p : Platform) where
  abbrev pub Good : Dispatcher r → Type 0
  Good d = IsWellFormed p (view r p d)

  module _ (d : Dispatcher r) (w : Good d) where
    pub Did-Good :
        {A : Type 0} (call : Result A × Dispatcher r) (a : Result A) (v : View)
        → Did r p d call a v
        → IsWellFormed p v
        → Good call.1
    Did-Good call a v did good = subst (IsWellFormed p) (sym did.viewed) good

    pub kept :
        {A : Type 0} (call : Result A × Dispatcher r) (a : Result A) → call ≡ (a, d) → Good call.1
    kept call a e = subst (λ c. Good c.1) (sym e) w

    module _ (job : Value) where
      pub done-Good : Good (done r p job d).1
      done-Good = elim (Result-cases (p.dumps job)) [
        | inl (t, e) ↦ Did-Good _ _ _ (done_lem r p d job e) (land-IsWellFormed p (view r p d) w t)
        | inr (x, e) ↦ kept _ _ (done_raises r p d job x e)
      ]

      pub fail-Good : Good (fail r p job d).1
      fail-Good = elim (Result-cases (p.dumps job)) [
        | inl (t, e) ↦ Did-Good _ _ _ (fail_lem r p d job e) (
            set_failed-IsWellFormed p _ (land-IsWellFormed p (view r p d) w t) t
              (record { job = job; dumped = e }))
        | inr (x, e) ↦ kept _ _ (fail_raises r p d job x e)
      ]

      pub unfail-Good : Good (unfail r p job d).1
      unfail-Good = elim (Result-cases (p.dumps job)) [
        | inl (t, e) ↦
            Did-Good _ _ _ (unfail_lem r p d job e) (unfail-IsWellFormed p (view r p d) w t)
        | inr (x, e) ↦ kept _ _ (unfail_raises r p d job x e)
      ]

      module _ (now : ℕ) where
        written : (member : String) → job_to_member p now job ≡ ok member → IsQueued p member 0
        written member e = record { zero_score = refl; time = now; job = job; member_of = e }

        pub enqueue-Good : Good (enqueue r p now job d).1
        enqueue-Good = elim (Result-cases (p.dumps job)) [
          | inl (t, e) ↦ elim (Result-cases (job_to_member p now job)) [
            | inl (m, f) ↦
                Did-Good _ _ _
                  (enqueue_lem r p d job now e f
                    (job_to_hash_of_member p now job m (job_to_member-parts p now job m f)))
                  (set_seen-IsWellFormed p _
                    (set_queue-IsWellFormed p _ (land-IsWellFormed p (view r p d) w t) m 0
                      (written m f))
                    _ true)
            | inr (x, f) ↦
                Did-Good _ _ _ (enqueue_raises r p d job now x e f)
                  (land-IsWellFormed p (view r p d) w t)
          ]
          | inr (x, e) ↦ kept _ _ (enqueue_unwritten r p d job x e now)
        ]

        pub enqueue_if_unseen-Good : Good (enqueue_if_unseen r p now job d).1
        enqueue_if_unseen-Good = elim (Result-cases (job_to_hash p job)) [
          | inl (h, e) ↦ elim (Bool-cases ((view r p d).seen h)) [
            | inl old ↦
                Did-Good _ _ _ (enqueue_if_unseen_old r p d job now e old)
                  (set_seen-IsWellFormed p (view r p d) w h true)
            | inr new ↦ elim (Result-cases (job_to_member p now job)) [
              | inl (m, f) ↦ Did-Good _ _ _ (enqueue_if_unseen_new r p d job now e new f) (
                  set_queue-IsWellFormed p _ (set_seen-IsWellFormed p (view r p d) w h true) m 0
                    (written m f))
              | inr (x, f) ↦
                  Did-Good _ _ _ (enqueue_if_unseen_raises r p d job now e x new f)
                    (set_seen-IsWellFormed p (view r p d) w h true)
            ]
          ]
          | inr (x, e) ↦ kept _ _ (enqueue_if_unseen_unnamed r p d job now x e)
        ]
