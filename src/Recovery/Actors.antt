-- ===== src/Recovery/Actors.antt =====
-- bin/recover_http_status.py: the actors that are tried again.
use pub_crawler.Base.{
  String, ℕ, ◌+◌, ◌≡◌, refl, sym, ap, subst, true, false, some, List, [], ◌∷◌, In, In-cases, inl,
  inr, ◌⊎◌,
}
use pub_crawler.Base.Int.{pos}
use pub_crawler.Exec.{ok}
use pub_crawler.Exec.Fallible.{Result-cases}
use pub_crawler.Json.{Value, int}
use pub_crawler.Json.Python.{contains_key}
use pub_crawler.Job.{index}
use pub_crawler.Dispatcher.{Dispatcher, job_to_member, job_to_hash, or_no_jid}
use pub_crawler.Dispatcher
use pub_crawler.Handlers.{contains_text, actor_job_at}
use pub_crawler.World.{Setting, World}
use pub_crawler.Recovery.Status.{
  enqueued, actor_depth, recover_actor, job_with, has_code, recover_node, recover_nodes,
}
use pub_crawler.Recovery.Growth.{in_queue, enqueue_puts, nodes-Grows}

-- The depth that a job of the actor gets without a look at other nodes.
abbrev pub KnownDepth : List String → String → Value → Value → Type 0
KnownDepth seeds label props d =
    ((contains_text seeds label ≡ true) × (d ≡ int (pos 0)))
    ⊎ ((contains_text seeds label ≡ false)
        × (contains_key props "depth" ≡ ok true)
        × (index props "depth" ≡ ok d))

module _ (w : Setting) (now : ℕ → ℕ) (seeds : List String) where
  -- a job of the actor is in the queue
  pub record Tried (label : String) (depth : Value) (s : World w) : Type 0 where
    pub time : ℕ
    pub member : String
    pub written : job_to_member w.platform time (actor_job_at label depth) ≡ ok member
    pub queued : in_queue w s member ≡ some 0

  depth_known :
      (label : String) (props d : Value) (s : World w)
      → KnownDepth seeds label props d
      → actor_depth w now seeds label props s ≡ (ok (some d), s)
  unfolding actor_depth
  depth_known label props d s (inl (seed, zero_depth)) = rw (actor_depth, seed, zero_depth) refl
  depth_known label props d s (inr (other, known, got)) = rw (actor_depth, other, known, got) refl

  actor-Tried :
      (total n : ℕ) (label : String) (props d : Value) (s : World w)
      → KnownDepth seeds label props d
      → (recover_actor w now seeds total label props s).0 ≡ ok n
      → Tried label d (recover_actor w now seeds total label props s).1
  unfolding recover_actor job_with enqueued
  actor-Tried total n label props d s k h =
      let call = Dispatcher.enqueue w.redis w.platform (now total) (actor_job_at label d) s.jobs in
      let h = rw (recover_actor, depth_known label props d s k) at h in
      elim (Result-cases call.0) [
        | inr (e, bad) ↦ absurd (cc (rw bad at h))
        | inl (u, good) ↦
            let (m, made, q) =
              enqueue_puts w.redis w.platform (now total) (actor_job_at label d) s.jobs good in
            rw (recover_actor, depth_known label props d s k, good)
              (record { time = now total; member = m; written = made; queued = q })
      ]

  module _ (codes : List ℕ) where
    node-Tried :
        (total n : ℕ) (label : String) (props d : Value) (s : World w)
        → KnownDepth seeds label props d
        → has_code w now seeds codes props "http_status" ≡ ok true
        → (recover_node w now seeds codes total label props s).0 ≡ ok n
        → Tried label d (recover_node w now seeds codes total label props s).1
    unfolding recover_node
    node-Tried total n label props d s k failed h =
        rw (recover_node, failed)
          (actor-Tried total n label props d s k (rw (recover_node, failed) at h))

    Tried-later :
        (rows : List (ℕ × String × Value)) (total : ℕ) (label : String) (d : Value) (s : World w)
        → Tried label d s
        → Tried label d (recover_nodes w now seeds codes total rows s).1
    Tried-later rows total label d s t = record {
      time = t.time;
      member = t.member;
      written = t.written;
      queued = (nodes-Grows w now seeds codes rows total).grown s t.member t.queued;
    }

    -- When the loop over the nodes returns: for each of them whose status is one of the codes,
    -- and that is a seed, for which the depth is 0, or has a depth, a job with this depth, written
    -- for some time, is in the queue with the score zero.
    pub recover_nodes_lem :
        (rows : List (ℕ × String × Value)) (total n : ℕ) (s : World w)
        → (recover_nodes w now seeds codes total rows s).0 ≡ ok n
        → (i : ℕ) (label : String) (props d : Value) → In (i, label, props) rows
        → has_code w now seeds codes props "http_status" ≡ ok true
        → KnownDepth seeds label props d
        → Tried label d (recover_nodes w now seeds codes total rows s).1
    unfolding recover_nodes
    recover_nodes_lem [] total n s h i label props d there failed k = elim there [ ]
    recover_nodes_lem ((j, l, ps) ∷ rows) total n s h i label props d there failed k =
        let one = recover_node w now seeds codes total l ps s in
        elim (Result-cases one.0) [
          | inr (e, bad) ↦ absurd (cc (rw (recover_nodes, bad) at h))
          | inl (m, good) ↦
              let h = rw (recover_nodes, good) at h in
              rw (recover_nodes, good)
                (elim (In-cases there) [
                  | inr there ↦
                      recover_nodes_lem rows (total + m) n one.1 h i label props d there failed k
                  | inl same ↦
                      subst
                        (λ x. Tried x d (recover_nodes w now seeds codes (total + m) rows one.1).1)
                        (ap (λ r. r.1) same)
                        (Tried-later rows (total + m) l d one.1 (
                          node-Tried total m l ps d s
                            (subst (λ r. KnownDepth seeds r.1 r.2 d) (sym same) k)
                            (subst (λ r. has_code w now seeds codes r.2 "http_status" ≡ ok true)
                              (sym same) failed)
                            good))
                ])
        ]
