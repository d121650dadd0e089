-- ===== src/Recovery/Status.antt =====
-- bin/recover_http_status.py without `main`: jobs for what could not be fetched, where the status says
-- that another attempt may succeed. `now` is what the clock reads when so many jobs have been made.
use pub_crawler.Base.{
  String, ℕ, ◌+◌, ◌*◌, ◌^◌, ◌++◌, Bool, false, ◌||◌, Option, none, some, List, [], ◌∷◌, ◌==◌,
  if◌then◌else◌,
}
use pub_crawler.Base.Int.{pos}
use pub_crawler.Exec.{Result, ok, raised, type_error, Exec, pure, lift, ◌>>=◌, ◌>>◌}
use pub_crawler.Json.{Value, null, bool, int, float, str, list, dict, empty, entry}
use pub_crawler.Json.Python.{contains_key, add_one}
use pub_crawler.Job.{index, get_or}
use pub_crawler.Dispatcher
use pub_crawler.Graph.Properties
use pub_crawler.Graph.Queries
use pub_crawler.Handlers.{contains_text, actor_job_at, page_job_at}
use pub_crawler.World.{Setting, World, on_jobs, on_graph}

abbrev pub default_codes : List ℕ
default_codes = 408 ∷ 429 ∷ 500 ∷ 502 ∷ 503 ∷ 504 ∷ 520 ∷ 524 ∷ []

-- a number, as m / 2 ^ k
is_code : List ℕ → ℕ → ℕ → Bool
is_code [] m k = false
is_code (c ∷ codes) m k = (m == c * 2 ^ k) || is_code codes m k

-- `v in codes`
unfoldable pub in_codes : List ℕ → Value → Result Bool
unfolding is_code
in_codes codes (int (pos n)) = ok (is_code codes n 0)
in_codes codes (float (pos m) k) = ok (is_code codes m k)
in_codes codes (bool b) = ok (is_code codes (if b then 1 else 0) 0)
in_codes codes (list vs) = raised type_error
in_codes codes (dict d) = raised type_error
in_codes codes _ = ok false

-- `{"job_type": "collection", ...}`
abbrev pub collection_job_at : Value → String → String → Value → Value
collection_job_at id owner direction depth = dict (
    entry "job_type" (str "collection") (
      entry "collection_id" id (
        entry "owner_id" (str owner)
          (entry "direction" (str direction) (entry "depth" depth empty)))))

-- `v is not None`
unfoldable pub not_none : Value → Option Value
not_none null = none
not_none v = some v

module _ (w : Setting) (now : ℕ → ℕ) where
  abbrev pub Act : Type 0 → Type 0
  Act A = Exec (World w) A

  unfoldable pub enqueued : ℕ → Value → Act ℕ
  enqueued total job = do on_jobs w (Dispatcher.enqueue w.redis w.platform (now total) job); pure 1

  unfoldable pub one_deeper : Option Value → Act (Option Value)
  one_deeper none = pure none
  one_deeper (some depth) = do next ← lift (add_one depth); pure (some next)

  unfoldable pub neighbor_depth : Option String → Act (Option Value)
  neighbor_depth none = pure none
  neighbor_depth (some neighbor) = do
    depth ← on_graph w (Properties.get_node_property w.ids w.labels w.postgres neighbor "depth")
    one_deeper (not_none depth)

  unfoldable pub actor_depth : List String → String → Value → Act (Option Value)
  actor_depth seeds actor_id props =
      if contains_text seeds actor_id then pure (some (int (pos 0))) else (do
        known ← lift (contains_key props "depth")
        if known then (do d ← lift (index props "depth"); pure (some d)) else (do
          neighbor ← on_graph w (Queries.first_neighbor w.ids w.labels w.postgres actor_id)
          neighbor_depth neighbor))

  -- a job, where there is a depth for it
  unfoldable pub job_with : (Value → Value) → ℕ → Option Value → Act ℕ
  job_with job total none = pure 0
  job_with job total (some depth) = enqueued total (job depth)

  unfoldable pub recover_actor : List String → ℕ → String → Value → Act ℕ
  recover_actor seeds total actor_id props = do
    depth ← actor_depth seeds actor_id props
    job_with (actor_job_at actor_id) total depth

  unfoldable pub job_about : (Value → Value → Value) → ℕ → Value → Option Value → Act ℕ
  job_about job total props none = pure 0
  job_about job total props (some id) = do
    depth ← lift (get_or props "depth" null)
    job_with (job id) total (not_none depth)

  -- a job with the identity that the property holds, where there is one and a depth
  unfoldable pub with_depth : (Value → Value → Value) → ℕ → String → Value → Act ℕ
  with_depth job total name props = do
    id ← lift (get_or props name null)
    job_about job total props (not_none id)

  unfoldable pub recover_collection : ℕ → String → Value → String → Act ℕ
  recover_collection total actor_id props direction =
      with_depth (λ id depth. collection_job_at id actor_id direction depth) total direction props

  unfoldable pub recover_page : ℕ → String → Value → String → Act ℕ
  recover_page total actor_id props direction =
      with_depth (λ id depth. page_job_at id (str actor_id) (str direction) depth) total
        (direction ++ "_last_page") props

  module _ (seeds : List String) (codes : List ℕ) where
    unfoldable pub has_code : Value → String → Result Bool
    has_code props name = elim (get_or props name null) [
      | raised e ↦ raised e
      | ok status ↦ in_codes codes status
    ]

    unfoldable pub recover_direction : ℕ → String → Value → String → Act ℕ
    recover_direction total label props direction = do
      collection ← lift (has_code props (direction ++ "_http_status"))
      page ←
          lift (
            if collection then ok false else has_code props (direction ++ "_last_page_http_status"))
      if collection
          then recover_collection total label props direction
          else if page
          then recover_page total label props direction
          else pure 0

    unfoldable pub recover_node : ℕ → String → Value → Act ℕ
    recover_node total label props = do
      actor ← lift (has_code props "http_status")
      if actor then recover_actor seeds total label props else (do
        n ← recover_direction total label props "followers"
        m ← recover_direction (total + n) label props "following"
        pure (n + m))

    unfoldable pub recover_nodes : ℕ → List (ℕ × String × Value) → Act ℕ
    recover_nodes total [] = pure total
    recover_nodes total ((id, label, props) ∷ rows) = do
      n ← recover_node total label props
      recover_nodes (total + n) rows

    unfoldable pub recover_http_status : Act ℕ
    recover_http_status = do
      rows ← on_graph w (Queries.all_nodes w.ids w.labels w.postgres)
      recover_nodes 0 rows
