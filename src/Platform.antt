-- ===== src/Platform.antt =====
-- What the program calls in Python's and other libraries, and does not implement: `orjson`,
-- `zlib.crc32`, `hashlib.blake2b`, `datetime`, and the `str` of a value.
pub mod Plain
use mathlib.Core.Option
use pub_crawler.Base.{String, ℕ, ◌≡◌, false}
use pub_crawler.Base.Text.{has_char}
use pub_crawler.Exec.{Result, ok}
use pub_crawler.Json.{Value, Dict, str, int, dict, get}

pub record Platform : Type 0 where
  -- `str(v)`, for a value that is no text itself
  pub text_of : Value → String
  -- `orjson.dumps(v, option=OPT_SORT_KEYS).decode()`, and `orjson.loads`. What `loads` gives of a
  -- dumped value is the value with the keys of its dictionaries sorted, which dumps alike.
  pub dumps : Value → Result String
  pub loads : String → Result Value
  pub sorted : Value → Value
  pub sorted_dict : Dict → Dict
  pub loads-dumps : (v : Value) (s : String) → dumps v ≡ ok s → loads s ≡ ok (sorted v)
  pub dumps-sorted : (v : Value) → dumps (sorted v) ≡ dumps v
  pub sorted-str : (s : String) → sorted (str s) ≡ str s
  pub sorted-int : (n : pub_crawler.Base.Int.ℤ) → sorted (int n) ≡ int n
  pub sorted-dict : (d : Dict) → sorted (dict d) ≡ dict (sorted_dict d)
  pub get-sorted_dict :
      (d : Dict) (k : String) → get (sorted_dict d) k ≡ Option.map sorted (get d k)
  -- `orjson.dumps(v).decode()`
  pub dumps_unsorted : Value → Result String
  pub loads-dumps_unsorted : (v : Value) (s : String) → dumps_unsorted v ≡ ok s → loads s ≡ ok v
  pub crc32 : String → ℕ
  -- `hashlib.blake2b(s.encode(), digest_size=8).digest()`
  pub blake2b : String → String
  -- `datetime.fromtimestamp(ms / 1000, tz=utc).isoformat(timespec="microseconds")`
  pub isoformat : ℕ → String
  pub isoformat_no_bar : (ms : ℕ) → has_char b'|' (isoformat ms) ≡ false
