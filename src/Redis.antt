-- ===== src/Redis.antt =====
-- The Redis server, which the program calls and does not implement: the commands that it sends, and
-- what Redis documents of them. A store is seen through three maps from a key's name: its sorted
-- sets (member to score), its sets (member) and its hashes (field to value). The program's scores
-- and hash values are numbers of milliseconds.
mod Order
pub mod Memory
use text.Mathlib.Text.{is_lt}
use Prim.Native.String.{compare}
use pub_crawler.Base.{
  String, ℕ, ◌≡◌, ◌≢◌, Bool, true, false, not, ◌&&◌, ◌||◌, Option, none, some, List, ltb, ◌==◌,
  length, if◌then◌else◌, str_eq, is_some, arith, eq_iff, refl, fun_ext, [], ◌∷◌, All, map,
}

abbrev pub Keyspace : Type 0 → Type 0
Keyspace A = String → String → A

-- One entry of a key changed.
unfoldable pub write : {A : Type 0} → String → String → A → Keyspace A → Keyspace A
write k m v f k' m' = if str_eq k k' && str_eq m m' then v else f k' m'

-- the order of a sorted set: by score, and then by the members' bytes
abbrev pub precedes : String × ℕ → String × ℕ → Bool
precedes (m, x) (n, y) = ltb x y || ((x == y) && is_lt (compare m n))

unfoldable pub contains : List String → String → Bool
contains [] m = false
contains (x ∷ xs) m = str_eq x m || contains xs m

pub record Redis : Type 1 where
  pub Store : Type 0
  pub zsets : Store → Keyspace (Option ℕ)
  pub sets : Store → Keyspace Bool
  pub hashes : Store → Keyspace (Option ℕ)
  pub zadd : String → String → ℕ → Store → Store
  pub zsets-zadd :
      (k m : String) (x : ℕ) (s : Store) → zsets (zadd k m x s) ≡ write k m (some x) (zsets s)
  pub sets-zadd : (k m : String) (x : ℕ) (s : Store) → sets (zadd k m x s) ≡ sets s
  pub hashes-zadd : (k m : String) (x : ℕ) (s : Store) → hashes (zadd k m x s) ≡ hashes s
  pub zrem : String → String → Store → Store
  pub zsets-zrem : (k m : String) (s : Store) → zsets (zrem k m s) ≡ write k m none (zsets s)
  pub sets-zrem : (k m : String) (s : Store) → sets (zrem k m s) ≡ sets s
  pub hashes-zrem : (k m : String) (s : Store) → hashes (zrem k m s) ≡ hashes s
  -- BZPOPMIN with the timeout 0: its answer, the first member that it has taken out with its score,
  -- or none where it blocks, as it does on an empty set. It never answers nil.
  pub bzpopmin : String → Store → Option (Option (String × ℕ)) × Store
  pub bzpopmin-nil : (k : String) (s : Store) → (bzpopmin k s).0 ≢ some none
  pub bzpopmin-none : (k : String) (s : Store) → (bzpopmin k s).0 ≡ none → (bzpopmin k s).1 ≡ s
  pub bzpopmin-empty : (k m : String) (s : Store) → (bzpopmin k s).0 ≡ none → zsets s k m ≡ none
  pub bzpopmin-found :
      (k m : String) (x : ℕ) (s : Store)
      → (bzpopmin k s).0 ≡ some (some (m, x))
      → zsets s k m ≡ some x
  pub bzpopmin-first :
      (k m n : String) (x y : ℕ) (s : Store)
      → (bzpopmin k s).0 ≡ some (some (m, x))
      → zsets s k n ≡ some y
      → precedes (n, y) (m, x) ≡ false
  pub zsets-bzpopmin :
      (k m : String) (x : ℕ) (s : Store)
      → (bzpopmin k s).0 ≡ some (some (m, x))
      → zsets (bzpopmin k s).1 ≡ write k m none (zsets s)
  pub sets-bzpopmin : (k : String) (s : Store) → sets (bzpopmin k s).1 ≡ sets s
  pub hashes-bzpopmin : (k : String) (s : Store) → hashes (bzpopmin k s).1 ≡ hashes s
  pub zcard : String → Store → ℕ
  pub zcard-zero : (k m : String) (s : Store) → zcard k s ≡ 0 → zsets s k m ≡ none
  -- the number of members added, zero or one
  pub sadd : String → String → Store → ℕ × Store
  pub sadd_count : (k m : String) (s : Store) → (sadd k m s).0 ≡ (if sets s k m then 0 else 1)
  pub sets-sadd : (k m : String) (s : Store) → sets (sadd k m s).1 ≡ write k m true (sets s)
  pub zsets-sadd : (k m : String) (s : Store) → zsets (sadd k m s).1 ≡ zsets s
  pub hashes-sadd : (k m : String) (s : Store) → hashes (sadd k m s).1 ≡ hashes s
  -- the number of members removed, zero or one
  pub srem : String → String → Store → ℕ × Store
  pub srem_count : (k m : String) (s : Store) → (srem k m s).0 ≡ (if sets s k m then 1 else 0)
  pub sets-srem : (k m : String) (s : Store) → sets (srem k m s).1 ≡ write k m false (sets s)
  pub zsets-srem : (k m : String) (s : Store) → zsets (srem k m s).1 ≡ zsets s
  pub hashes-srem : (k m : String) (s : Store) → hashes (srem k m s).1 ≡ hashes s
  -- `sismember` is `sets`; `smembers` is what SSCAN gives of a set that does not change meanwhile
  pub smembers : String → Store → List String
  pub contains-smembers : (k m : String) (s : Store) → contains (smembers k s) m ≡ sets s k m
  pub hset : String → String → ℕ → Store → Store
  pub hashes-hset :
      (k f : String) (v : ℕ) (s : Store) → hashes (hset k f v s) ≡ write k f (some v) (hashes s)
  pub zsets-hset : (k f : String) (v : ℕ) (s : Store) → zsets (hset k f v s) ≡ zsets s
  pub sets-hset : (k f : String) (v : ℕ) (s : Store) → sets (hset k f v s) ≡ sets s
  pub hdel : String → String → Store → Store
  pub hashes-hdel : (k f : String) (s : Store) → hashes (hdel k f s) ≡ write k f none (hashes s)
  pub zsets-hdel : (k f : String) (s : Store) → zsets (hdel k f s) ≡ zsets s
  pub sets-hdel : (k f : String) (s : Store) → sets (hdel k f s) ≡ sets s
  -- the fields with their values
  pub hgetall : String → Store → List (String × ℕ)
  pub hgetall_sound : (k : String) (s : Store) → All (λ e. hashes s k e.0 ≡ some e.1) (hgetall k s)
  pub hgetall_complete :
      (k f : String) (v : ℕ) (s : Store)
      → hashes s k f ≡ some v
      → contains (map (λ e. e.0) (hgetall k s)) f ≡ true
  pub hkeys : String → Store → List String
  pub contains-hkeys : (k f : String) (s : Store) → contains (hkeys k s) f ≡ is_some (hashes s k f)
  pub hlen : String → Store → ℕ
  pub hlen-zero : (k f : String) (s : Store) → hlen k s ≡ 0 → hashes s k f ≡ none
