-- ===== src/Fixups.antt =====
-- The programs under fixup, which rewrite what Redis holds from one format to the next. What SCAN
-- yields in a run is an argument of each: the keys change while it goes on, and it may yield a
-- member twice.
pub mod Member
pub mod Scores
pub mod Hashes
pub mod CrcTiebreak
pub mod Rewriting
use pub_crawler.Base.{
  String, ℕ, suc, Bool, true, false, Option, none, some, List, [], ◌∷◌, leb, length, if◌then◌else◌,
}
use pub_crawler.Exec.{
  Result, ok, raised, Exec, pure, raise, lift, modify, act, for_each, ◌>>=◌, ◌>>◌,
}
use pub_crawler.Batches.{in_batches}
use pub_crawler.Redis.{Redis}
use pub_crawler.Platform.{Platform}
use pub_crawler.Dispatcher.{queue_key, seen_key, seen_hashed_key}
use pub_crawler.Fixups.Member.{if_old, new_members}

module _ (r : Redis) where
  abbrev pub Act : Type 0 → Type 0
  Act A = Exec r.Store A

  -- fixup/fixup_zero_score.py
  unfoldable pub set_zero : String → Act Unit
  set_zero member = modify (r.zadd queue_key member 0)

  unfoldable pub fixup_zero_score : ℕ → List (String × ℕ) → Act ℕ
  fixup_zero_score batch_size scan = do
    in_batches batch_size (λ batch. for_each batch set_zero) (λ e. ok (some e.0)) [] scan
    pure (length scan)

  -- a pipeline of two commands for each member, once all new members are there
  unfoldable pub rewrite : String × String → Act Unit
  rewrite (member, new) = do modify (r.zadd queue_key new 0); modify (r.zrem queue_key member)

  module _ (p : Platform) where
    -- fixup/fixup_seen_hash.py
    unfoldable pub move_hash : String → Act Unit
    move_hash jid = do
      _ ← act (r.sadd seen_hashed_key (p.blake2b jid))
      _ ← act (r.srem seen_key jid)
      pure tt

    unfoldable pub fixup_seen_hash : ℕ → List String → Act ℕ
    fixup_seen_hash batch_size scan = do
      in_batches batch_size (λ batch. for_each batch move_hash) (λ jid. ok (some jid)) [] scan
      pure (length scan)

    -- fixup/fixup_crc_tiebreak.py
    unfoldable pub write_crcs : List String → Act Unit
    write_crcs batch = do news ← lift (new_members p batch); for_each news rewrite

    unfoldable pub fixup_crc_tiebreak : ℕ → List (String × ℕ) → Act ℕ
    fixup_crc_tiebreak batch_size scan = do
      in_batches batch_size write_crcs (λ e. if_old e.0) [] scan
      pure (length scan)
