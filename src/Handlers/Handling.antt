-- ===== src/Handlers/Handling.antt =====
-- pub_crawler/handle_items.py: a whole run of it.
use pub_crawler.Base.{
  String, ℕ, ◌≡◌, refl, sym, ap, ◌∙◌, subst, Bool, true, false, not, ◌&&◌, some, List, arith, inl,
  inr,
}
use pub_crawler.Exec.{Result, ok}
use pub_crawler.Exec.Fallible.{Result-cases}
use pub_crawler.Json.{Value, Dict, has_key}
use pub_crawler.Json.Python.{iterate, add_one}
use pub_crawler.Dispatcher.{Dispatcher, job_to_member}
use pub_crawler.Dispatcher.Methods.{view}
use pub_crawler.Graph.{Graph}
use pub_crawler.Graph.Properties
use pub_crawler.World.{Setting, World}
use pub_crawler.Handlers.{
  ids_of_items, without, unique, contains_text, actor_job_at, put_items, enqueue_items,
  handle_items,
}
use pub_crawler.Handlers.Kept.{put_items_kept}
use pub_crawler.Handlers.Items.{
  hash_of, seen_in, enqueue_actors_lem, contains-unique, contains-without,
}

and_both : (a b : Bool) → (a && not b) ≡ true → (a ≡ true) × (b ≡ false)
and_both a b h = (ground (arith, h), ground (arith, h))

module _ (w : Setting) (order : List String → List String) (now : ℕ) where
  abbrev pub fetch_dates : List Value → World w → Result Dict
  fetch_dates list t =
      (Properties.get_nodes_property w.ids w.labels w.postgres (ids_of_items list) "last_fetch_date"
        t.graph).0

  -- Of the items' identities, each without a date is seen; of a hash that is new, a job of one of
  -- them is in the queue.
  pub record Handled (items next : Value) (before : Dispatcher w.redis) (t : World w) : Type 0 where
    pub list : List Value
    pub iterated : iterate items ≡ ok list
    pub dates : Dict
    pub fetched : fetch_dates list t ≡ ok dates
    pub seen :
        (id : String)
        → contains_text (ids_of_items list) id ≡ true
        → has_key dates id ≡ false
        → seen_in w now t.jobs (hash_of w now id) ≡ true
    pub queued :
        (h : String)
        → seen_in w now before h ≡ false
        → seen_in w now t.jobs h ≡ true
        → (id : String) × (contains_text (ids_of_items list) id ≡ true)
          × (has_key dates id ≡ false)
          × (hash_of w now id ≡ h)
          × (member : String) × (job_to_member w.platform now (actor_job_at id next) ≡ ok member)
          × ((view w.redis w.platform t.jobs).queue member ≡ some 0)

  module _
      (reorders : (l : List String) (x : String)
        → contains_text (order l) x ≡ contains_text l x) where
    among :
        (ids : List String) (dates : Dict) (id : String)
        → contains_text (order (unique (without ids dates))) id
          ≡ (contains_text ids id && not (has_key dates id))
    among ids dates id =
        reorders (unique (without ids dates)) id
        ∙ contains-unique (without ids dates) id
        ∙ contains-without ids dates id

    read_only :
        (ids : List String) (name : String) (g : Graph w.ids w.labels)
        → (Properties.get_nodes_property w.ids w.labels w.postgres ids name g).1 ≡ g
    unfolding Properties.get_nodes_property
    read_only ids name g = refl

    module _ (depth next : Value) (added : add_one depth ≡ ok next) where
      enqueue_items_lem :
          (items : Value) (list : List Value) (s : World w)
          → iterate items ≡ ok list
          → (enqueue_items w order now (ids_of_items list) depth s).0 ≡ ok tt
          → Handled items next s.jobs (enqueue_items w order now (ids_of_items list) depth s).1
      unfolding enqueue_items
      enqueue_items_lem items list s iterated h =
          let ids = ids_of_items list in
          let found =
            Properties.get_nodes_property w.ids w.labels w.postgres ids "last_fetch_date" s.graph in
          elim (Result-cases found.0) [
            | inr (e, bad) ↦ absurd (cc (rw (enqueue_items, bad) at h))
            | inl (dates, good) ↦
                let t : World w = record s { graph = found.1 } in
                let (o, same) =
                  enqueue_actors_lem w now order depth next added
                    (order (unique (without ids dates))) t (rw (enqueue_items, good) at h) in
                rw (enqueue_items, good)
                  (record {
                    list = list;
                    iterated = iterated;
                    dates = dates;
                    fetched =
                        ap
                          (λ g.
                            (Properties.get_nodes_property w.ids w.labels w.postgres ids
                              "last_fetch_date" g).0)
                          (same ∙ read_only ids "last_fetch_date" s.graph)
                        ∙ good;
                    seen = λ id i new. o.seen id (among ids dates id ∙ rw (i, new) refl);
                    queued = λ h old new.
                        let (id, i, is, m, made, q) = o.queued h old new in
                        let both =
                          and_both (contains_text ids id) (has_key dates id)
                            (sym (among ids dates id) ∙ i) in
                        (id, both.0, both.1, is, m, made, q);
                  })
          ]

      -- Where the order is one of the same texts, the depth is a number and `next` one more: a run that
      -- returns has read the items and then the dates of the items' identities, as the graph has them
      -- afterwards. Each identity without a date counts as seen by the dispatcher. Where a hash is new
      -- among those seen, it is the one of such an identity, and that actor's job with the depth
      -- `next` is in the queue with the score zero.
      pub handle_items_lem :
          (items owner direction : Value) (s : World w)
          → (handle_items w order now items owner direction depth s).0 ≡ ok tt
          → Handled items next s.jobs (handle_items w order now items owner direction depth s).1
      unfolding handle_items
      handle_items_lem items owner direction s h = elim (Result-cases (iterate items)) [
        | inr (e, bad) ↦ absurd (cc (rw (handle_items, bad) at h))
        | inl (list, iterated) ↦
            let put = put_items w order now (ids_of_items list) owner direction depth s in
            elim (Result-cases put.0) [
              | inr (e, bad) ↦ absurd (cc (rw (handle_items, iterated, bad) at h))
              | inl (u, good) ↦
                  rw (handle_items, iterated, good)
                    (subst
                      (λ d.
                        Handled items next d
                          (enqueue_items w order now (ids_of_items list) depth put.1).1)
                      (put_items_kept w order now (ids_of_items list) owner direction depth s)
                      (enqueue_items_lem items list put.1 iterated
                        (rw (handle_items, iterated, good) at h)))
            ]
      ]
