-- ===== src/HostSurvey.antt =====
-- pub_crawler/database_host_survey.py: the class DatabaseHostSurvey, hosts with properties in
-- PostgreSQL, with a cache in the process. A method that cannot insert a row raises, and leaves the
-- tables as they were. The order of the rows that a query gives is the order of the table.
pub mod Schema
pub mod Sound
pub mod Lookup
pub mod Statements
pub mod Deletion
pub mod Invariant
pub mod Hosts
pub mod Values
use pub_crawler.Base.{
  String, ℕ, Bool, not, Option, none, some, List, [], ◌∷◌, ◌==◌, map, is_some, if◌then◌else◌,
}
use pub_crawler.Exec.{Result, ok, raised, Exec, pure, lift, gets, modify, ◌>>=◌, ◌>>◌}
use pub_crawler.Json.{Value, Dict, null, dict, empty}
use pub_crawler.Platform.{Platform}
use pub_crawler.Graph.{is_node}
use pub_crawler.Graph.Libraries.{Lru, Postgres}
use pub_crawler.Graph.Schema.{select, find_row, any_of}
use pub_crawler.Graph.Statements.{read_rows, object_of}
use pub_crawler.HostSurvey.Schema.{
  Host, Tables, has_name, missing_host, select_host, delete_host_row, select_host_value,
  named_values, insert_hosts, insert_host_property, insert_host_properties, insert_hosts_property,
  delete_property_rows,
}

pub record HostSurvey (hosts : Lru String ℕ) : Type 0 where
  pub db : Tables
  pub host_cache : hosts.Cache

module _ (hosts : Lru String ℕ) where
  abbrev pub Act : Type 0 → Type 0
  Act A = Exec (HostSurvey hosts) A

  -- one statement: when it raises, it changes nothing
  unfoldable pub execute : (Tables → Result Tables) → Act Unit
  execute f s = elim (f s.db) [ raised e ↦ (raised e, s) | ok t ↦ (ok tt, record s { db = t }) ]

  abbrev pub fetch : {A : Type 0} → (Tables → A) → Act A
  fetch f = gets (λ s. f s.db)

  unfoldable pub in_host_cache : String → HostSurvey hosts → Bool
  in_host_cache hostname s = is_some (hosts.cached hostname s.host_cache)

  found_host : String → Option ℕ → Act (Option ℕ)
  found_host hostname none = pure none
  found_host hostname (some id) = do
    modify (λ s. record s { host_cache = hosts.put hostname id s.host_cache })
    pure (some id)

  looked_up_host : String → Option ℕ → Act (Option ℕ)
  unfolding found_host
  looked_up_host hostname (some id) = do
    modify (λ s. record s { host_cache = hosts.read hostname s.host_cache })
    pure (some id)
  looked_up_host hostname none = do id ← fetch (select_host hostname); found_host hostname id

  -- `_host_id`
  unfoldable pub host_id : String → Act (Option ℕ)
  unfolding looked_up_host
  host_id hostname = do
    cached ← gets (λ s. hosts.cached hostname s.host_cache)
    looked_up_host hostname cached

  unfoldable pub has_host : String → Act Bool
  has_host hostname = do id ← host_id hostname; pure (is_some id)

  -- Dropping an entry that is not there is no change.
  unfoldable pub delete_host : String → Act Unit
  delete_host hostname = do
    id ← host_id hostname
    execute (λ t. ok (delete_host_row id t))
    modify (λ s. record s { host_cache = hosts.drop hostname s.host_cache })

  unfoldable pub delete_host_properties : String → List String → Act Unit
  delete_host_properties hostname names = do
    id ← host_id hostname
    execute (λ t. ok (delete_property_rows id names t))

  module _ {p : Platform} (pg : Postgres p) where
    unfoldable pub ensure_host : String → Act Unit
    unfolding in_host_cache
    ensure_host hostname = do
      known ← gets (in_host_cache hostname)
      if known
          then pure tt
          else execute (λ t. insert_hosts pg (select (missing_host t) (hostname ∷ [])) t)

    unfoldable pub upsert_hosts : List String → Act Unit
    upsert_hosts [] = pure tt
    upsert_hosts (n ∷ ns) = execute (λ t. insert_hosts pg (select (missing_host t) (n ∷ ns)) t)

    unfoldable pub ensure_hosts : List String → Act Unit
    unfolding in_host_cache upsert_hosts
    ensure_hosts hostnames = do
      to_upsert ← gets (λ s. select (λ n. not (in_host_cache n s)) hostnames)
      upsert_hosts to_upsert

    -- a row's value, where there is a row
    unfoldable pub read_host_value : Option String → Result Value
    read_host_value none = ok null
    read_host_value (some text) = p.loads text

    unfoldable pub get_host_property : String → String → Act Value
    unfolding read_host_value
    get_host_property hostname name = do
      id ← host_id hostname
      value ← fetch (select_host_value id name)
      lift (read_host_value value)

    unfoldable pub get_host_properties : String → Act Dict
    get_host_properties hostname = do
      id ← host_id hostname
      rows ←
          fetch (λ t. map (λ r. (r.name, r.value)) (select (λ r. is_node id r.id) t.host_property))
      lift (read_rows pg rows empty)

    unfoldable pub get_hosts_property : List String → String → Act Dict
    get_hosts_property hostnames name = do
      rows ← fetch (λ t.
          named_values (select (λ h. any_of hostnames h.hostname) t.host) name t.host_property)
      lift (read_rows pg rows empty)

    -- a statement with a name and a JSONB argument, which PostgreSQL reads first
    unfoldable pub with_value : Value → (String → Tables → Result Tables) → Act Unit
    with_value value f = do
      text ← lift (p.dumps_unsorted value)
      text ← lift (pg.jsonb text)
      execute (f text)

    unfoldable pub with_name : String → (String → Tables → Result Tables) → Tables → Result Tables
    with_name name f t = elim (pg.varchar 32 name) [ raised e ↦ raised e | ok name ↦ f name t ]

    unfoldable pub set_host_property : String → String → Value → Act Unit
    unfolding with_value with_name
    set_host_property hostname name value = do
      id ← host_id hostname
      with_value value (λ text. with_name name (λ name. insert_host_property id name text))

    unfoldable pub set_host_properties : String → Dict → Act Unit
    set_host_properties hostname properties = do
      text ← lift (p.dumps_unsorted (dict properties))
      kvs ← lift (pg.each text)
      execute (λ t. insert_host_properties pg (find_row (has_name hostname) t.host) kvs t)

    unfoldable pub set_hosts_property : List String → String → Value → Act Unit
    unfolding with_value
    set_hosts_property hostnames name value = with_value value (λ text t.
        insert_hosts_property pg (select (λ h. any_of hostnames h.hostname) t.host) name text t)

    read_host : Tables → Host → Result (ℕ × String × Value)
    read_host t h =
        elim (p.loads (
          object_of pg
            (map (λ r. (r.name, r.value)) (select (λ r. r.id == h.id) t.host_property)))) [
              | raised x ↦ raised x
              | ok props ↦ ok (h.id, h.hostname, props)
            ]

    read_hosts : Tables → List Host → Result (List (ℕ × String × Value))
    unfolding read_host
    read_hosts t [] = ok []
    read_hosts t (h ∷ hs) = elim (read_host t h) [
      | raised x ↦ raised x
      | ok row ↦ elim (read_hosts t hs) [ raised x ↦ raised x | ok rows ↦ ok (row ∷ rows) ]
    ]

    -- with all that it yields
    unfoldable pub all_hosts : Act (List (ℕ × String × Value))
    unfolding read_hosts
    all_hosts = do t ← fetch (λ t. t); lift (read_hosts t t.host)
