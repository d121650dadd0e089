-- ===== src/Dispatcher/Draining.antt =====
-- A queue to which nothing is added is emptied by as many calls of `get` as it has members.
use pub_crawler.Base.{
  String, ℕ, ◌≤◌, ◌<◌, ◌≡◌, ◌⊎◌, refl, sym, ap, ◌∙◌, subst, true, false, none, some, List, [], ◌∷◌,
  length, str_eq, eq_iff, arith, Bool-cases, Option-cases, inl, inr, is_some, if◌then◌else◌,
}
use pub_crawler.Exec.{ok}
use pub_crawler.Json.{Value}
use pub_crawler.Redis.{Redis, contains}
use pub_crawler.Platform.{Platform}
use pub_crawler.Dispatcher.{Dispatcher, max_inflight, job_to_member}
use pub_crawler.Dispatcher
use pub_crawler.Dispatcher.View.{at}
use pub_crawler.Dispatcher.Methods.{view}
use pub_crawler.Dispatcher.Invariant.{Good}
use pub_crawler.Dispatcher.Runs.{Handed, get_cases, get-Good}

others : String → List String → List String
others m [] = []
others m (n ∷ ns) = let rest = others m ns in if str_eq n m then rest else n ∷ rest

others-contains :
    (m k : String) (ns : List String)
    → str_eq m k ≡ false
    → contains ns k ≡ true
    → contains (others m ns) k ≡ true
unfolding others contains
others-contains m k [] e h = h
others-contains m k (n ∷ ns) e h =
    ground (arith, others-contains m k ns, eq_iff n m, eq_iff n k, eq_iff m k)

length-others : (m : String) (ns : List String) → length (others m ns) ≤ length ns
unfolding others
length-others m [] = omega arith
length-others m (n ∷ ns) = ground (arith, length-others m ns)

others_fewer :
    (m : String) (ns : List String) → contains ns m ≡ true → length (others m ns) < length ns
unfolding others contains
others_fewer m [] h = absurd (cc)
others_fewer m (n ∷ ns) h = ground (arith, length-others m ns, others_fewer m ns)

module _ (r : Redis) (p : Platform) where
  abbrev D : Type 0
  D = Dispatcher r

  -- one `get` after another, at these readings of the clock
  pub gets : List ℕ → D → D
  gets [] d = d
  gets (now ∷ nows) d = gets nows (Dispatcher.get r p now d).1

  -- every member of the queue stands in the list
  abbrev pub Listed : List String → D → Type 0
  Listed ms d = (m : String) (x : ℕ) → (view r p d).queue m ≡ some x → contains ms m ≡ true

  -- the job that a member was written for is in flight
  pub record Flying (m : String) (d : D) : Type 0 where
    pub time : ℕ
    pub job : Value
    pub text : String
    pub member_of : job_to_member p time job ≡ ok m
    pub dumped : p.dumps job ≡ ok text
    pub in_flight : is_some ((view r p d).inflight text) ≡ true

  pub record Drained (d e : D) : Type 0 where
    pub empty : (m : String) → (view r p e).queue m ≡ none
    pub flying : (m : String) (x : ℕ) → (view r p d).queue m ≡ some x → Flying m e
    pub still :
        (t : String)
        → is_some ((view r p d).inflight t) ≡ true
        → is_some ((view r p e).inflight t) ≡ true

  nothing_queued : (d : D) → Listed [] d → (m : String) → (view r p d).queue m ≡ none
  unfolding contains
  nothing_queued d l m = elim (Option-cases ((view r p d).queue m)) [
    | inl e ↦ e
    | inr (x, e) ↦ absurd (cc (l m x e))
  ]

  abbrev Still : D → D → Type 0
  Still d e =
      (t : String)
      → is_some ((view r p d).inflight t) ≡ true
      → is_some ((view r p e).inflight t) ≡ true

  -- What one call passes on: a queued member stays queued, or its job is in flight.
  record Passed (d e : D) : Type 0 where
    moved :
        (m : String) (x : ℕ)
        → (view r p d).queue m ≡ some x
        → ((view r p e).queue m ≡ some x) ⊎ Flying m e
    still : Still d e

  Flying-later : (m : String) (d e : D) → Still d e → Flying m d → Flying m e
  Flying-later m d e s f = record {
    time = f.time;
    job = f.job;
    text = f.text;
    member_of = f.member_of;
    dumped = f.dumped;
    in_flight = s f.text f.in_flight;
  }

  Passed-Drained : (c d e : D) → Passed c d → Drained d e → Drained c e
  Passed-Drained c d e a b = record {
    empty = b.empty;
    flying = λ m x h. elim (a.moved m x h) [
      | inl queued ↦ b.flying m x queued
      | inr f ↦ Flying-later m d e b.still f
    ];
    still = λ t h. b.still t (a.still t h);
  }

  module _ (d : D) (now : ℕ) where
    abbrev next : D
    next = (Dispatcher.get r p now d).1

    unqueued : ((m : String) → (view r p d).queue m ≡ none) → Drained d d
    unqueued h = record { empty = h; flying = λ m x e. absurd (cc (h m, e)); still = λ t e. e }

    module _ (x : Handed r p d now) where
      handed_flying : Flying x.member next
      handed_flying = record {
        time = x.time;
        job = x.job;
        text = x.text;
        member_of = x.member_of;
        dumped = x.dumped;
        in_flight =
            ap (λ v. is_some (v.inflight x.text)) x.did.viewed
            ∙ rw ((eq_iff x.text x.text).1 refl) refl;
      }

      handed-Passed : Passed d next
      handed-Passed = record {
        moved = λ m y h. elim (Bool-cases (str_eq x.member m)) [
          | inl same ↦ inr (subst (λ k. Flying k next) ((eq_iff x.member m).0 same) handed_flying)
          | inr other ↦ inl (ap (λ v. v.queue m) x.did.viewed ∙ rw other h)
        ];
        still = λ t h.
            ap (λ v. is_some (v.inflight t)) x.did.viewed ∙ elim (Bool-cases (str_eq x.text t)) [
              | inl same ↦ rw same refl
              | inr other ↦ rw other h
            ];
      }

      rest-Listed : (ms : List String) → Listed ms d → Listed (others x.member ms) next
      rest-Listed ms l m y h =
          let was : at x.member none (view r p d).queue m ≡ some y =
            sym (ap (λ v. v.queue m) x.did.viewed) ∙ h in
          elim (Bool-cases (str_eq x.member m)) [
            | inl same ↦ absurd (cc (rw same at was))
            | inr other ↦ others-contains x.member m ms other (l m y (rw other at was))
          ]

  -- On a dispatcher whose keys are well formed and that is not stopped, where a list names every
  -- member of the queue: after as many calls of `get` as the list has names, or more, the queue is
  -- empty, the job of each member that it had is in flight, and so is each job that was in flight.
  pub drained :
      (nows : List ℕ) (ms : List String) (d : D)
      → Good r p d
      → d.stopped ≡ false
      → Listed ms d
      → length ms ≤ length nows
      → Drained d (gets nows d)
  unfolding gets
  drained [] [] d w run l h = unqueued d 0 (nothing_queued d l)
  drained [] (m ∷ ms) d w run l h = absurd (omega arith)
  drained (now ∷ nows) ms d w run l h = elim (get_cases r p d w now run) [
    | inl x ↦ Passed-Drained d (next d now) (gets nows (next d now)) (handed-Passed d now x) (
        drained nows (others x.member ms) (next d now) (get-Good r p d w now) (x.did.flag ∙ run)
          (rest-Listed d now x ms l)
          (omega (arith, others_fewer x.member ms (l x.member 0 x.present))))
    | inr (e, did) ↦
        let empty_next : (m : String) → (view r p (next d now)).queue m ≡ none =
          λ m. ap (λ v. v.queue m) did.viewed ∙ e m in
        Passed-Drained d (next d now) (gets nows (next d now))
          (record {
            moved = λ m x h. absurd (cc (e m, h));
            still = λ t h. ap (λ v. is_some (v.inflight t)) did.viewed ∙ h;
          })
          (drained nows [] (next d now) (get-Good r p d w now) (did.flag ∙ run)
            (λ m x h. absurd (cc (empty_next m, h))) (omega arith))
  ]
