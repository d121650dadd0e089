-- ===== src/HostSurvey/Lookup.antt =====
-- The cache of hosts agrees with the table, and so `_host_id` gives what the table holds.
use pub_crawler.Base.{
  String, ℕ, ◌≡◌, refl, sym, ap, ◌∙◌, subst, some, Option-cases, inl, inr, is_some,
}
use pub_crawler.Exec.{Result, ok}
use pub_crawler.Graph.Libraries.{Lru}
use pub_crawler.HostSurvey.{HostSurvey, host_id, has_host}
use pub_crawler.HostSurvey.Schema.{select_host}

module _ (hosts : Lru String ℕ) where
  abbrev pub Agrees : HostSurvey hosts → Type 0
  Agrees s =
      (n : String) (i : ℕ) → hosts.cached n s.host_cache ≡ some i → select_host n s.db ≡ some i

  -- A call that returned `a` and changed nothing but the cache, which still agrees.
  pub record Looked {A : Type 0} (s : HostSurvey hosts) (call : Result A × HostSurvey hosts) (a : A)
      : Type 0 where
    pub result : call.0 ≡ ok a
    pub same : call.1.db ≡ s.db
    pub agrees : Agrees call.1

  module _ (s : HostSurvey hosts) (w : Agrees s) where
    store-Agrees :
        (n : String) (i : ℕ)
        → select_host n s.db ≡ some i
        → Agrees (record s { host_cache = hosts.put n i s.host_cache })
    store-Agrees n i e m j h = elim (hosts.cached-put n m i j s.host_cache h) [
      | inl (same, value) ↦ subst (λ x. select_host x s.db ≡ some j) same (e ∙ ap some value)
      | inr old ↦ w m j old
    ]

    -- `_host_id` gives the identity in the table.
    pub host_id_lem : (n : String) → Looked s (host_id hosts n s) (select_host n s.db)
    unfolding host_id
    host_id_lem n = elim (Option-cases (hosts.cached n s.host_cache)) [
      | inr (i, hit) ↦
          rw (hit, host_id)
            (record {
              result = ap ok (sym (w n i hit));
              same = refl;
              agrees = λ m j h. w m j (sym (hosts.cached-read n m s.host_cache) ∙ h);
            })
      | inl miss ↦ elim (Option-cases (select_host n s.db)) [
        | inl absent ↦
            rw (miss, host_id, absent) (record { result = refl; same = refl; agrees = w })
        | inr (i, present) ↦
            rw (miss, host_id, present)
              (record { result = refl; same = refl; agrees = store-Agrees n i present })
      ]
    ]

    pub has_host_lem : (n : String) → Looked s (has_host hosts n s) (is_some (select_host n s.db))
    unfolding has_host
    has_host_lem n =
        let k = host_id_lem n in
        rw k.result (record { result = refl; same = k.same; agrees = k.agrees })
