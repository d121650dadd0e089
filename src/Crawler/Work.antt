-- ===== src/Crawler/Work.antt =====
-- A worker's round with a job that `get` hands out.
use pub_crawler.Base.{String, ℕ, ◌≡◌, refl, ap, ◌∙◌, true, none, inl, inr}
use pub_crawler.Exec.{Result, ok, raised, Error, Exec}
use pub_crawler.Exec.Fallible.{Result-cases}
use pub_crawler.Json.{Value}
use pub_crawler.Dispatcher
use pub_crawler.Dispatcher.Methods.{view, Did, done_lem, fail_lem}
use pub_crawler.Dispatcher.View.{View, set_inflight, set_failed}
use pub_crawler.Dispatcher.Lifecycle.{at_self}
use pub_crawler.Dispatcher.Runs.{Handed}
use pub_crawler.World.{Setting, World}
use pub_crawler.Crawler.{Working, again, work_on, work, attempt, after_get}

module _ (w : Setting) (handle : Value → Exec (World w) Unit) where
  -- what is seen of a state's jobs
  abbrev pub seen_in : World w → View
  seen_in s = view w.redis w.platform s.jobs

  -- how a worker leaves a job whose text is `text`
  pub record Left (job : Value) (text : String) (s : World w) (call : Result (Unit {0}) × World w)
      : Type 0 where
    pub returned : call.0 ≡ ok tt
    pub landed : (seen_in call.1).inflight text ≡ none
    pub fallen : (e : Error) → (handle job s).0 ≡ raised e → (seen_in call.1).failed text ≡ true

  module _ (job : Value) (text : String) (dumped : w.platform.dumps job ≡ ok text)
      (s : World w) where
    abbrev handled : World w
    handled = (handle job s).1

    finish :
        Did w.redis w.platform handled.jobs
          (Dispatcher.done w.redis w.platform job handled.jobs)
          (ok tt)
          (set_inflight text none (seen_in handled))
    finish = done_lem w.redis w.platform handled.jobs job dumped

    fall :
        Did w.redis w.platform handled.jobs
          (Dispatcher.fail w.redis w.platform job handled.jobs)
          (ok tt)
          (set_failed text true (set_inflight text none (seen_in handled)))
    fall = fail_lem w.redis w.platform handled.jobs job dumped

    -- Whatever a job's handler does, if the job can be written: the worker's calls for it return; then
    -- the job is not in flight, and if its handler raised, it is among the failed jobs.
    pub work_on-Left : Left job text s (work_on w handle job s)
    unfolding work_on
    work_on-Left = elim (Result-cases (handle job s).0) [
      | inl (u, e) ↦
          rw (e, finish.result)
            (record {
              returned = refl;
              landed =
                  ap (λ v. v.inflight text) finish.viewed
                  ∙ at_self text none (seen_in handled).inflight;
              fallen = λ x h. absurd (cc (rw e at h));
            })
      | inr (x, e) ↦
          rw (e, fall.result)
            (record {
              returned = refl;
              landed =
                  ap (λ v. v.inflight text) fall.viewed
                  ∙ at_self text none (seen_in handled).inflight;
              fallen = λ y h.
                  ap (λ v. v.failed text) fall.viewed ∙ at_self text true (seen_in handled).failed;
            })
    ]

  module _ (now : ℕ) (s : Working w) (h : Handed w.redis w.platform s.world.jobs now) where
    abbrev pub taken : World w
    taken = record s.world { jobs = (Dispatcher.get w.redis w.platform now s.world.jobs).1 }

    abbrev job : Value
    job = w.platform.sorted h.job

    -- In a round of a worker to which `get` hands out a job, whatever the handler does: the round
    -- ends with the next one to follow and no failures counted; the job is no longer in flight, and
    -- if its handler raised, it is among the failed jobs.
    pub work_lem :
        ((work w handle now s).0 ≡ ok again)
        × ((work w handle now s).1.failures ≡ 0)
        × ((seen_in (work w handle now s).1.world).inflight h.text ≡ none)
        × ((e : Error)
            → (handle job taken).0 ≡ raised e
            → (seen_in (work w handle now s).1.world).failed h.text ≡ true)
    unfolding work attempt after_get
    work_lem =
        let left = work_on-Left job h.text (w.platform.dumps-sorted h.job ∙ h.dumped) taken in
        rw (h.did.result, left.returned) (refl, refl, left.landed, left.fallen)
