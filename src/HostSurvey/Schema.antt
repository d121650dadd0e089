-- ===== src/HostSurvey/Schema.antt =====
-- pub_crawler/database.py: the tables of the host survey, as lists of rows, and what the statements
-- of pub_crawler/database_host_survey.py do to them. No statement reads the times of a row.
use pub_crawler.Base.{
  String, ℕ, suc, Bool, not, ◌&&◌, Option, none, some, List, [], ◌∷◌, ◌==◌, str_eq, if◌then◌else◌,
}
use pub_crawler.Exec.{Result, ok, raised}
use pub_crawler.Exec.Fallible.{◌>>=◌}
use pub_crawler.Platform.{Platform}
use pub_crawler.Graph.{is_node}
use pub_crawler.Graph.Libraries.{Postgres}
use pub_crawler.Graph.Schema.{select, find_row, exists, insert_row, upsert, any_of}
use pub_crawler.Graph.Statements.{violation}

pub record Host : Type 0 where
  pub id : ℕ
  pub hostname : String

-- `value` is the text that the JSONB column gives
pub record HostProperty : Type 0 where
  pub id : ℕ
  pub name : String
  pub value : String

-- `next` is the identity that the next row of `host` gets.
pub record Tables : Type 0 where
  pub host : List Host
  pub host_property : List HostProperty
  pub next : ℕ

-- the primary key
abbrev pub same_property : HostProperty → HostProperty → Bool
same_property p q = (p.id == q.id) && str_eq p.name q.name

abbrev pub has_name : String → Host → Bool
has_name n h = str_eq h.hostname n

abbrev pub has_host_id : ℕ → Host → Bool
has_host_id i h = h.id == i

abbrev pub id_of : Option Host → Option ℕ
id_of none = none
id_of (some h) = some h.id

-- SELECT id FROM host WHERE hostname=$1
unfoldable pub select_host : String → Tables → Option ℕ
select_host n t = id_of (find_row (has_name n) t.host)

abbrev pub missing_host : Tables → String → Bool
missing_host t n = not (exists (has_name n) t.host)

-- One row of an INSERT into host ... ON CONFLICT DO NOTHING. The identity is drawn before a conflict
-- is found.
unfoldable pub insert_host : String → Tables → Tables
insert_host n t = if exists (has_name n) t.host then record t { next = suc t.next } else record t {
  host = insert_row (record { id = t.next; hostname = n }) t.host;
  next = suc t.next;
}

-- DELETE FROM host WHERE id=$1, with ON DELETE CASCADE; no row has the id NULL
unfoldable pub delete_host_row : Option ℕ → Tables → Tables
delete_host_row none t = t
delete_host_row (some i) t = record t {
  host = select (λ h. not (has_host_id i h)) t.host;
  host_property = select (λ p. not (p.id == i)) t.host_property;
}

-- SELECT value FROM host_property WHERE id = $1 AND name = $2
abbrev pub value_of : Option HostProperty → Option String
value_of none = none
value_of (some r) = some r.value

unfoldable pub select_host_value : Option ℕ → String → Tables → Option String
select_host_value id name t =
    value_of (find_row (λ r. is_node id r.id && str_eq r.name name) t.host_property)

-- SELECT h.hostname, hp.value FROM host h JOIN host_property hp ON h.id = hp.id WHERE ...
unfoldable pub named_values : List Host → String → List HostProperty → List (String × String)
named_values [] name rs = []
named_values (h ∷ hs) name rs =
    let rest = named_values hs name rs in
    elim (find_row (λ r. (r.id == h.id) && str_eq r.name name) rs) [
      | none ↦ rest
      | some r ↦ (h.hostname, r.value) ∷ rest
    ]

-- INSERT INTO host_property ... ON CONFLICT DO UPDATE
unfoldable pub put_host_property : ℕ → String → String → Tables → Tables
put_host_property i name value t = record t {
  host_property =
      upsert same_property (record { id = i; name = name; value = value }) t.host_property;
}

-- the same of an id that may be NULL, or of no host
unfoldable pub insert_host_property : Option ℕ → String → String → Tables → Result Tables
insert_host_property none name value t = raised violation
insert_host_property (some i) name value t =
    if exists (has_host_id i) t.host
    then ok (put_host_property i name value t)
    else raised violation

-- DELETE FROM host_property WHERE id=$1 AND name = ANY($2)
unfoldable pub delete_property_rows : Option ℕ → List String → Tables → Tables
delete_property_rows id names t = record t {
  host_property = select (λ r. not (is_node id r.id && any_of names r.name)) t.host_property;
}

module _ {p : Platform} (pg : Postgres p) where
  -- one INSERT into host of each row
  unfoldable pub insert_hosts : List String → Tables → Result Tables
  insert_hosts [] t = ok t
  insert_hosts (n ∷ ns) t = do n ← pg.varchar 256 n; insert_hosts ns (insert_host n t)

  unfoldable pub insert_each : ℕ → List (String × String) → Tables → Result Tables
  insert_each i [] t = ok t
  insert_each i ((name, value) ∷ kvs) t = do
    name ← pg.varchar 32 name
    insert_each i kvs (put_host_property i name value t)

  -- INSERT INTO host_property ... SELECT ... FROM host h, jsonb_each($2) WHERE h.hostname = $1: the
  -- name is that of one host at most.
  unfoldable pub insert_host_properties :
      Option Host → List (String × String) → Tables → Result Tables
  insert_host_properties none kvs t = ok t
  insert_host_properties (some h) kvs t = insert_each h.id kvs t

  unfoldable pub insert_hosts_property : List Host → String → String → Tables → Result Tables
  insert_hosts_property [] name value t = ok t
  insert_hosts_property (h ∷ hs) name value t = do
    name' ← pg.varchar 32 name
    insert_hosts_property hs name value (put_host_property h.id name' value t)
