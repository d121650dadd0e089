-- ===== src/Graph/Libraries.antt =====
-- What the graph store calls and does not implement: the caches of `cachetools`, and PostgreSQL's
-- types VARCHAR and JSONB.
use mathlib.Core.Option
use pub_crawler.Base.{
  String, ℕ, ◌≡◌, ◌≢◌, ◌⊎◌, Bool, Option, none, some, List, [], ◌∷◌, str_eq, if◌then◌else◌,
}
use pub_crawler.Exec.{Result, ok}
use pub_crawler.Json.{Value, Dict, null, bool, int, str, dict, get}
use pub_crawler.Platform.{Platform}

-- An LRUCache may forget any entry, and never makes one up. `read` is what a lookup does to the
-- order of the entries.
pub record Lru (K V : Type 0) : Type 1 where
  pub Cache : Type 0
  pub cached : K → Cache → Option V
  pub read : K → Cache → Cache
  pub put : K → V → Cache → Cache
  pub drop : K → Cache → Cache
  pub cached-read : (k j : K) (c : Cache) → cached j (read k c) ≡ cached j c
  pub cached-put :
      (k j : K) (v w : V) (c : Cache)
      → cached j (put k v c) ≡ some w
      → ((k ≡ j) × (v ≡ w)) ⊎ (cached j c ≡ some w)
  pub cached-drop :
      (k j : K) (w : V) (c : Cache) → cached j (drop k c) ≡ some w → (k ≢ j) × (cached j c ≡ some w)

-- the last text of that name
unfoldable pub value_in : String → List (String × String) → Option String
value_in k [] = none
value_in k ((name, text) ∷ rows) = elim (value_in k rows) [
  | some t ↦ some t
  | none ↦ if str_eq name k then some text else none
]

-- a text that is there where the value is, and is read as that value
abbrev pub Reads : (String → Result Value) → Option String → Option Value → Type 0
Reads loads none none = Unit
Reads loads (some t) (some v) = loads t ≡ ok v
Reads loads _ _ = ⊥

pub record Postgres (p : Platform) : Type 0 where
  -- a text as a column VARCHAR(n) takes it; longer texts are refused
  pub varchar : ℕ → String → Result String
  -- a JSON text as a JSONB column gives it back; the text may be refused
  pub jsonb : String → Result String
  -- a value as it comes back from a JSONB column, which keeps no order of keys
  pub stored : Value → Value
  -- jsonb_each, on the text of an object
  pub each : String → Result (List (String × String))
  pub each-get :
      (d : Dict) (s : String) (kvs : List (String × String))
      → p.dumps_unsorted (dict d) ≡ ok s
      → each s ≡ ok kvs
      → (k : String) → Reads p.loads (value_in k kvs) (Option.map stored (get d k))
  -- jsonb_object_agg
  pub object_agg : List (String × String) → String
  -- equality of two JSONB values, by their texts
  pub same : String → String → Bool
  pub loads-jsonb :
      (v : Value) (s t : String)
      → p.dumps_unsorted v ≡ ok s
      → jsonb s ≡ ok t
      → p.loads t ≡ ok (stored v)
  pub stored-null : stored null ≡ null
  pub stored-bool : (b : Bool) → stored (bool b) ≡ bool b
  pub stored-int : (n : pub_crawler.Base.Int.ℤ) → stored (int n) ≡ int n
  pub stored-str : (s : String) → stored (str s) ≡ str s
