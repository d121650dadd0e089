-- ===== src/Dispatcher/Runs.antt =====
-- Runs of the dispatcher, as sequences of calls, and what `get` hands out in them.
use pub_crawler.Base.{
  ◌⊎◌, String, ℕ, ◌+◌, ◌≡◌, ap, ◌∙◌, sym, subst, false, none, some, List, [], ◌∷◌, Bool-cases, inl,
  inr, Option-cases,
}
use pub_crawler.Exec.{Result, ok}
use pub_crawler.Json.{Value}
use pub_crawler.Redis.{Redis, precedes}
use pub_crawler.Platform.{Platform}
use pub_crawler.Dispatcher.{
  Dispatcher, Got, returned, waiting, queue_key, max_inflight, job_to_member,
}
use pub_crawler.Dispatcher
use pub_crawler.Dispatcher.Codec.{job_to_member-parts, member_to_job-job_to_member}
use pub_crawler.Dispatcher.View.{set_queue, set_inflight}
use pub_crawler.Dispatcher.Methods.{view, Did, get_stopped, get_running, pop_empty, pop_lem}
use pub_crawler.Dispatcher.Invariant.{
  Good, take-IsWellFormed, set_inflight-IsWellFormed, Did-Good, kept, done-Good, fail-Good,
  unfail-Good, enqueue-Good, enqueue_if_unseen-Good,
}

module _ (r : Redis) (p : Platform) where
  -- the queue's first member, the job that it was written for, and the effect of the call that took it
  pub record Taken (d : Dispatcher r) (now : ℕ) (call : Result Got × Dispatcher r) : Type 0 where
    pub member : String
    pub time : ℕ
    pub job : Value
    pub text : String
    pub member_of : job_to_member p time job ≡ ok member
    pub dumped : p.dumps job ≡ ok text
    pub present : (view r p d).queue member ≡ some 0
    pub first :
        (n : String) (y : ℕ) → (view r p d).queue n ≡ some y → precedes (n, y) (member, 0) ≡ false
    pub did :
        Did r p d call
          (ok (returned (some (p.sorted job))))
          (set_inflight text (some (now + max_inflight)) (set_queue member none (view r p d)))

  -- `get` hands out a job
  abbrev pub Handed : Dispatcher r → ℕ → Type 0
  Handed d now = Taken d now (Dispatcher.get r p now d)

  -- the queue is empty, and the call waits and has changed nothing
  abbrev pub Waits : Dispatcher r → Result Got × Dispatcher r → Type 0
  Waits d call =
      ((m : String) → (view r p d).queue m ≡ none) × Did r p d call (ok waiting) (view r p d)

  module _ (d : Dispatcher r) (w : Good r p d) (now : ℕ) where
    hand :
        (member : String) (score : ℕ)
        → (r.bzpopmin queue_key d.store).0 ≡ some (some (member, score))
        → Taken d now (Dispatcher.pop r p now d)
    hand member score popped =
        let q = w.queued member score (r.bzpopmin-found queue_key member score d.store popped) in
        let parts = job_to_member-parts p q.time q.job member q.member_of in
        record {
          member = member;
          time = q.time;
          job = q.job;
          text = parts.text;
          member_of = q.member_of;
          dumped = parts.dumped;
          present = r.bzpopmin-found queue_key member score d.store popped ∙ ap some q.zero_score;
          first = λ n y h.
              subst (λ x. precedes (n, y) (member, x) ≡ false) q.zero_score
                (r.bzpopmin-first queue_key member n score y d.store popped h);
          did =
              pop_lem r p d now member parts.text score (p.sorted q.job) popped
                (member_to_job-job_to_member p q.time q.job member q.member_of)
                (p.dumps-sorted q.job ∙ parts.dumped);
        }

    -- A call that takes the first member, or waits.
    pub pop_cases : Taken d now (Dispatcher.pop r p now d) ⊎ Waits d (Dispatcher.pop r p now d)
    pop_cases = elim (Option-cases (r.bzpopmin queue_key d.store).0) [
      | inl empty ↦ inr (λ m. r.bzpopmin-empty queue_key m d.store empty, pop_empty r p d now empty)
      | inr (none, popped) ↦ absurd (r.bzpopmin-nil queue_key d.store popped)
      | inr (some e, popped) ↦ inl (hand e.0 e.1 popped)
    ]

    -- On a dispatcher whose keys are well formed and that is not stopped, `get` either takes the first
    -- member of the queue out of it, returns the job that this member was written for, its keys
    -- sorted, and puts the job in flight with its time of expiry; or the queue is empty, and it
    -- waits, with nothing changed.
    pub get_cases : d.stopped ≡ false → Handed d now ⊎ Waits d (Dispatcher.get r p now d)
    get_cases running =
        subst (λ call. Taken d now call ⊎ Waits d call) (sym (get_running r p d now running))
          pop_cases

    pub pop-Good : Good r p (Dispatcher.pop r p now d).1
    pop-Good = elim pop_cases [
      | inl h ↦ Did-Good r p d w _ _ _ h.did (
          set_inflight-IsWellFormed p _ (take-IsWellFormed p (view r p d) w h.member) h.text
            (now + max_inflight) (record { job = h.job; dumped = h.dumped }))
      | inr e ↦ Did-Good r p d w _ _ _ e.1 w
    ]

    pub get-Good : Good r p (Dispatcher.get r p now d).1
    get-Good = elim (Bool-cases d.stopped) [
      | inl halted ↦ kept r p d w _ _ (get_stopped r p d now halted)
      | inr running ↦ subst (λ call. Good r p call.1) (sym (get_running r p d now running)) pop-Good
    ]

  -- A call that some task makes, with the reading of the clock.
  pub data Call : Type 0 where
    enqueue enqueue_if_unseen : ℕ → Value → Call
    get : ℕ → Call
    -- a call of `get` that waited goes on
    go_on : ℕ → Call
    done fail unfail : Value → Call
    stop : Call

  -- The state that a call leaves, whether it returns or raises.
  unfoldable pub run : Call → Dispatcher r → Dispatcher r
  run (enqueue now job) d = (Dispatcher.enqueue r p now job d).1
  run (enqueue_if_unseen now job) d = (Dispatcher.enqueue_if_unseen r p now job d).1
  run (get now) d = (Dispatcher.get r p now d).1
  run (go_on now) d = (Dispatcher.pop r p now d).1
  run (done job) d = (Dispatcher.done r p job d).1
  run (fail job) d = (Dispatcher.fail r p job d).1
  run (unfail job) d = (Dispatcher.unfail r p job d).1
  run stop d = (Dispatcher.stop r p d).1

  unfoldable pub run_all : List Call → Dispatcher r → Dispatcher r
  run_all [] d = d
  run_all (c ∷ cs) d = run_all cs (run c d)

  pub run-Good : (c : Call) (d : Dispatcher r) → Good r p d → Good r p (run c d)
  unfolding run Dispatcher.stop
  run-Good (enqueue now job) d w = enqueue-Good r p d w job now
  run-Good (enqueue_if_unseen now job) d w = enqueue_if_unseen-Good r p d w job now
  run-Good (get now) d w = get-Good d w now
  run-Good (go_on now) d w = pop-Good d w now
  run-Good (done job) d w = done-Good r p d w job
  run-Good (fail job) d w = fail-Good r p d w job
  run-Good (unfail job) d w = unfail-Good r p d w job
  run-Good stop d w = w

  -- From a dispatcher whose keys are well formed, any sequence of calls, returning or raising,
  -- leaves them well formed.
  pub run_all-Good : (cs : List Call) (d : Dispatcher r) → Good r p d → Good r p (run_all cs d)
  unfolding run_all
  run_all-Good [] d w = w
  run_all-Good (c ∷ cs) d w = run_all-Good cs (run c d) (run-Good c d w)
