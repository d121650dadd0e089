-- ===== src/Dispatcher/Expiry.antt =====
-- `expired`: the jobs in flight whose time has passed.
use pub_crawler.Base.{
  String, ℕ, ◌≡◌, refl, sym, ap, ◌∙◌, subst, ◌<◌, true, Option, some, List, [], ◌∷◌, arith, All,
  map, eq_iff, Bool-cases, inl, inr, ltb, In, first, later, In-cases, In-All, All-of-In, str_eq,
}
use pub_crawler.Exec.{ok}
use pub_crawler.Exec.Fallible.{ok_injective}
use pub_crawler.Json.{Value}
use pub_crawler.Redis.{Redis, contains}
use pub_crawler.Platform.{Platform}
use pub_crawler.Dispatcher.{Dispatcher, inflight_key, expired_keys, strs_to_jobs, expired}
use pub_crawler.Dispatcher.Methods.{view}
use pub_crawler.Dispatcher.Invariant.{Good, IsText}

not-In : {A : Type 0} {x : A} → ¬ In x []
not-In i = elim i [ ]

some_injective : {x y : ℕ} → ◌≡◌ {A = Option ℕ} (some x) (some y) → x ≡ y
some_injective h = ground arith

module _ (r : Redis) (p : Platform) where
  -- the texts of jobs
  abbrev Texts : List String → Type 0
  Texts ts = All (IsText p) ts

  strs_to_jobs_lem :
      (ts : List String)
      → Texts ts
      → (jobs : List Value) × (strs_to_jobs r p ts ≡ ok jobs)
        × ((t : String) → In t ts → (j : Value) → p.loads t ≡ ok j → In j jobs)
        × ((j : Value) → In j jobs → (t : String) × In t ts × (p.loads t ≡ ok j))
  unfolding strs_to_jobs
  strs_to_jobs_lem [] a = ([], refl, λ t i. absurd (not-In i), λ j i. absurd (not-In i))
  strs_to_jobs_lem (t ∷ ts) a =
      let (jobs, e, into, from) = strs_to_jobs_lem ts a.1 in
      let job = p.sorted a.0.job in
      let read = p.loads-dumps a.0.job t a.0.dumped in
      (
        job ∷ jobs,
        rw (read, strs_to_jobs, e) refl,
        λ u i j h. elim (In-cases i) [
          | inl same ↦
              subst (λ k. In k (job ∷ jobs)) (ok_injective (sym read ∙ ap p.loads same ∙ h)) first
          | inr i ↦ later (into u i j h)
        ],
        λ j i. elim (In-cases i) [
          | inl same ↦ (t, first, read ∙ ap ok same)
          | inr i ↦ let (u, i, h) = from j i in (u, later i, h)
        ],
      )

  module _ (now : ℕ) where
    In-expired_keys :
        (es : List (String × ℕ)) (t : String)
        → In t (expired_keys r p now es)
        → (x : ℕ) × In (t, x) es × (x < now)
    unfolding expired_keys
    In-expired_keys [] t i = absurd (not-In i)
    In-expired_keys ((u, x) ∷ es) t i = elim (Bool-cases (ltb x now)) [
      | inl past ↦ elim (In-cases (rw past at i)) [
        | inl same ↦ (x, subst (λ k. In (k, x) ((u, x) ∷ es)) same first, ground arith)
        | inr i ↦ let (y, j, h) = In-expired_keys es t i in (y, later j, h)
      ]
      | inr not_yet ↦ let (y, j, h) = In-expired_keys es t (rw not_yet at i) in (y, later j, h)
    ]

    expired_keys-In :
        (es : List (String × ℕ)) (t : String) (x : ℕ)
        → In (t, x) es
        → x < now
        → In t (expired_keys r p now es)
    unfolding expired_keys
    expired_keys-In [] t x i h = absurd (not-In i)
    expired_keys-In ((u, y) ∷ es) t x i h = elim (Bool-cases (ltb y now)) [
      | inl past ↦ elim (In-cases i) [
        | inl same ↦
            rw past (subst (λ k. In k (u ∷ expired_keys r p now es)) (ap (λ e. e.0) same) first)
        | inr j ↦ rw past (later (expired_keys-In es t x j h))
      ]
      | inr not_yet ↦ elim (In-cases i) [
        | inl same ↦ absurd (ground (arith, ap (λ e. e.1) same))
        | inr j ↦ rw not_yet (expired_keys-In es t x j h)
      ]
    ]

  In-of-contains :
      (es : List (String × ℕ)) (t : String)
      → contains (map (λ e. e.0) es) t ≡ true
      → (x : ℕ) × In (t, x) es
  unfolding contains
  In-of-contains [] t h = absurd (ground arith)
  In-of-contains ((u, x) ∷ es) t h = elim (Bool-cases (str_eq u t)) [
    | inl same ↦ (x, subst (λ k. In (k, x) ((u, x) ∷ es)) ((eq_iff u t).0 same) first)
    | inr other ↦ let (y, i) = In-of-contains es t (rw other at h) in (y, later i)
  ]

  module _ (d : Dispatcher r) (good : Good r p d) (now : ℕ) where
    abbrev fields : List (String × ℕ)
    fields = r.hgetall inflight_key d.store

    field_is : (t : String) (x : ℕ) → In (t, x) fields → (view r p d).inflight t ≡ some x
    field_is t x i =
        In-All (λ e. r.hashes d.store inflight_key e.0 ≡ some e.1)
          (r.hgetall_sound inflight_key d.store) i

    expired-Texts : Texts (expired_keys r p now fields)
    expired-Texts =
        All-of-In (IsText p) (expired_keys r p now fields) (λ t i.
          let (x, j, h) = In-expired_keys now fields t i in good.flying t x (field_is t x j))

    field_of : (t : String) (x : ℕ) → (view r p d).inflight t ≡ some x → In (t, x) fields
    field_of t x h =
        let (y, i) = In-of-contains fields t (r.hgetall_complete inflight_key t x d.store h) in
        subst (λ k. In (t, k) fields) (some_injective (sym (field_is t y i) ∙ h)) i

    -- From a dispatcher whose keys are well formed, `expired` always returns, changes nothing, and
    -- lists exactly the jobs that are read from the texts in flight whose time of expiry is past.
    pub expired_exact :
        (jobs : List Value) × (expired r p now d ≡ (ok jobs, d))
        × ((t : String) (x : ℕ)
            → (view r p d).inflight t ≡ some x
            → x < now
            → (job : Value) → p.loads t ≡ ok job
            → In job jobs)
        × ((job : Value)
            → In job jobs
            → (t : String) × (x : ℕ) × ((view r p d).inflight t ≡ some x)
              × (x < now)
              × (p.loads t ≡ ok job))
    unfolding expired
    expired_exact =
        let (jobs, e, into, from) = strs_to_jobs_lem (expired_keys r p now fields) expired-Texts in
        (
          jobs,
          rw e refl,
          λ t x h past job read.
              into t (expired_keys-In now fields t x (field_of t x h) past) job read,
          λ job i.
              let (t, j, read) = from job i in
              let (x, k, past) = In-expired_keys now fields t j in
              (t, x, field_is t x k, past, read),
        )
