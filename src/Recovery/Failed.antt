-- ===== src/Recovery/Failed.antt =====
-- bin/recover_failed.py: where the failed jobs are afterwards.
use pub_crawler.Base.{
  String, ℕ, ◌+◌, ◌≡◌, refl, sym, ap, ◌∙◌, subst, Bool, true, false, ◌&&◌, none, some, List, [],
  ◌∷◌, str_eq, eq_iff, arith, Bool-cases, inl, inr, All, In, In-cases, if◌then◌else◌,
}
use pub_crawler.Exec.{Result, ok, raised}
use pub_crawler.Json.{Value}
use pub_crawler.Redis.{Redis, contains}
use pub_crawler.Platform.{Platform}
use pub_crawler.Dispatcher.{Dispatcher, job_to_member, job_to_hash}
use pub_crawler.Dispatcher
use pub_crawler.Dispatcher.View.{at, set_queue, set_inflight, set_failed, set_seen}
use pub_crawler.Dispatcher.Methods.{view, Did, enqueue_lem, unfail_lem}
use pub_crawler.Graph.Queries
use pub_crawler.World.{Setting, World}
use pub_crawler.Recovery.Choice.{hashed, is_recoverable}
use pub_crawler.Recovery.{requeue, recover_job, recover_jobs, recover_failed}

module _ (r : Redis) (p : Platform) (hostname_of : Value → Result Value)
    (hostnames : List Value) where
  -- A text that `fail` has written for a job that `enqueue` takes, and for which the choice, which
  -- reads the job's type and the hostname of its actor's identity, does not raise.
  pub record Readable (text : String) : Type 0 where
    pub job : Value
    pub loaded : p.loads text ≡ ok job
    pub dumped : p.dumps job ≡ ok text
    pub recoverable : Bool
    pub decided : is_recoverable hostname_of hostnames job ≡ ok recoverable
    pub hash : String
    pub hashed : job_to_hash p job ≡ ok hash
    pub member : ℕ → String
    pub written : (now : ℕ) → job_to_member p now job ≡ ok (member now)

  abbrev decision : Result Bool → Bool
  decision (ok b) = b
  decision (raised e) = false

  abbrev of_job : Result Value → Bool
  of_job (ok job) = decision (is_recoverable hostname_of hostnames job)
  of_job (raised e) = false

  -- the text is that of a job that is recovered
  abbrev pub is_picked : String → Bool
  is_picked text = of_job (p.loads text)

  pub picked_count : List String → ℕ
  picked_count [] = 0
  picked_count (text ∷ scan) =
      let rest = picked_count scan in if is_picked text then rest + 1 else rest

  abbrev D : Type 0
  D = Dispatcher r

  requeue_lem :
      (text : String) (x : Readable text) (now : ℕ) (d : D)
      → Did r p d (requeue r p now x.job d) (ok 1) (
          set_failed text false (
            set_seen x.hash true
              (set_queue (x.member now) (some 0) (set_inflight text none (view r p d)))))
  unfolding requeue
  requeue_lem text x now d =
      let e = enqueue_lem r p d x.job now x.dumped (x.written now) x.hashed in
      let u = unfail_lem r p (Dispatcher.enqueue r p now x.job d).1 x.job x.dumped in
      rw (e.result, u.result)
        (record {
          result = refl;
          viewed = u.viewed ∙ ap (set_failed text false) e.viewed;
          flag = u.flag ∙ e.flag;
        })

  -- the job of the text is in the queue
  pub record Queued (text : String) (d : D) : Type 0 where
    pub job : Value
    pub loaded : p.loads text ≡ ok job
    pub time : ℕ
    pub member : String
    pub written : job_to_member p time job ≡ ok member
    pub queued : (view r p d).queue member ≡ some 0

  pub record Recovered (scan : List String) (count : ℕ) (d : D) (call : Result ℕ × D) : Type 0 where
    pub result : call.0 ≡ ok (count + picked_count scan)
    pub failed :
        (t : String)
        → (view r p call.1).failed t
          ≡ (if contains scan t && is_picked t then false else (view r p d).failed t)
    pub moved : (t : String) → In t scan → is_picked t ≡ true → Queued t call.1
    pub still : (m : String) → (view r p d).queue m ≡ some 0 → (view r p call.1).queue m ≡ some 0

  Queued-later :
      (t : String) (d e : D)
      → ((m : String) → (view r p d).queue m ≡ some 0 → (view r p e).queue m ≡ some 0)
      → Queued t d
      → Queued t e
  Queued-later t d e still q = record {
    job = q.job;
    loaded = q.loaded;
    time = q.time;
    member = q.member;
    written = q.written;
    queued = still q.member q.queued;
  }

  picked : (text : String) (x : Readable text) → is_picked text ≡ x.recoverable
  picked text x = rw (x.loaded, x.decided) refl

  module _ (text : String) (scan : List String) (x : Readable text) (count : ℕ) (d e : D)
      (call : Result ℕ × D) where
    same_picked : (t : String) → str_eq text t ≡ true → is_picked t ≡ x.recoverable
    same_picked t e = ap is_picked (sym ((eq_iff text t).0 e)) ∙ picked text x

    skip_cases :
        (t : String) (before : Bool)
        → x.recoverable ≡ false
        → (if contains scan t && is_picked t then false else before)
          ≡ (if contains (text ∷ scan) t && is_picked t then false else before)
    unfolding contains
    skip_cases t before skipped = elim (Bool-cases (str_eq text t)) [
      | inl e ↦ rw (same_picked t e, skipped) (ground arith)
      | inr e ↦ rw e refl
    ]

    take_cases :
        (t : String) (before : Bool)
        → x.recoverable ≡ true
        → (if contains scan t && is_picked t then false else at text false (λ k. before) t)
          ≡ (if contains (text ∷ scan) t && is_picked t then false else before)
    unfolding contains
    take_cases t before chosen = elim (Bool-cases (str_eq text t)) [
      | inl e ↦ rw (same_picked t e, chosen, e) (ground arith)
      | inr e ↦ rw e refl
    ]

    passed_over :
        x.recoverable ≡ false → Recovered scan count d call → Recovered (text ∷ scan) count d call
    unfolding contains picked_count
    passed_over skipped o = record {
      result = rw (picked text x ∙ skipped) o.result;
      failed = λ t. o.failed t ∙ skip_cases t ((view r p d).failed t) skipped;
      moved = λ t i chosen. elim (In-cases i) [
        | inl e ↦ absurd (cc (skipped, chosen, same_picked t ((eq_iff text t).1 e)))
        | inr i ↦ o.moved t i chosen
      ];
      still = o.still;
    }

    passed_on :
        (now : ℕ)
        → x.recoverable ≡ true
        → view r p e
          ≡ set_failed text false (
              set_seen x.hash true
                (set_queue (x.member now) (some 0) (set_inflight text none (view r p d))))
        → Recovered scan (count + 1) e call
        → Recovered (text ∷ scan) count d call
    unfolding contains picked_count
    passed_on now chosen v o = record {
      result = rw (picked text x ∙ chosen) (o.result ∙ ap ok (omega arith));
      failed = λ t.
          o.failed t
          ∙ ap (λ b. if contains scan t && is_picked t then false else b) (ap (λ w. w.failed t) v)
          ∙ take_cases t ((view r p d).failed t) chosen;
      moved = λ t i c. elim (In-cases i) [
        | inl e ↦
            subst (λ k. Queued k call.1) e
              (record {
                job = x.job;
                loaded = x.loaded;
                time = now;
                member = x.member now;
                written = x.written now;
                queued = o.still (x.member now) (
                    ap (λ w. w.queue (x.member now)) v
                    ∙ rw ((eq_iff (x.member now) (x.member now)).1 refl) refl);
              })
        | inr i ↦ o.moved t i c
      ];
      still = λ m h. o.still m (ap (λ w. w.queue m) v ∙ ground (arith, h));
    }

  module _ (now : ℕ → ℕ) where
    recover_jobs_lem :
        (scan : List String) (count : ℕ) (d : D)
        → All Readable scan
        → Recovered scan count d (recover_jobs r p hostname_of hostnames now count scan d)
    unfolding recover_jobs recover_job contains picked_count
    recover_jobs_lem [] count d a = record {
      result = ap ok (omega arith);
      failed = λ t. refl;
      moved = λ t i c. elim i [ ];
      still = λ m h. h;
    }
    recover_jobs_lem (text ∷ scan) count d (x, a) = elim (Bool-cases x.recoverable) [
      | inl chosen ↦
          let q = requeue_lem text x (now count) d in
          let e : D = (requeue r p (now count) x.job d).1 in
          rw (recover_jobs, x.loaded, recover_job, x.decided, chosen, q.result)
            (passed_on text scan x count d e _ (now count) chosen q.viewed
              (recover_jobs_lem scan (count + 1) e a))
      | inr skipped ↦
          rw (recover_jobs, x.loaded, recover_job, x.decided, skipped)
            (passed_over text scan x count d d _ skipped (
              subst
                (λ k. Recovered scan count d (recover_jobs r p hostname_of hostnames now k scan d))
                (omega arith) (recover_jobs_lem scan count d a)))
    ]

module _ (w : Setting) (hostname_of : Value → Result Value) (now : ℕ → ℕ) where
  -- Where the hostnames of the graph can be read and put into a set, and each text that the scan
  -- yields is that of a job that can be put into the queue and for which the choice, which reads the
  -- job's type and the hostname of its actor's identity, raises no error: the number of texts that
  -- are those of recovered jobs is returned. Those jobs are in the queue with the score zero, under a member that
  -- is written for them, and no longer among the failed jobs; all other failed jobs are left there,
  -- and every member of the queue with the score zero keeps it.
  pub recover_failed_lem :
      (scan : List String) (s : World w) (values hostnames : List Value)
      → (Queries.node_property_values w.ids w.labels w.postgres "hostname" s.graph).0 ≡ ok values
      → hashed values ≡ ok hostnames
      → All (Readable w.redis w.platform hostname_of hostnames) scan
      → let out = recover_failed w hostname_of now scan s in
        Recovered w.redis w.platform hostname_of hostnames scan 0 s.jobs (out.0, out.1.jobs)
  unfolding recover_failed
  recover_failed_lem scan s values hostnames read known a =
      rw (read, known)
        (recover_jobs_lem w.redis w.platform hostname_of hostnames now scan 0 s.jobs a)
