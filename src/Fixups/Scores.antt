-- ===== src/Fixups/Scores.antt =====
-- fixup/fixup_zero_score.py: the scores afterwards.
use pub_crawler.Base.{
  String, ℕ, ◌≡◌, refl, ap, ◌∙◌, some, List, [], ◌∷◌, length, map, str_eq, eq_iff, arith,
  if◌then◌else◌,
}
use pub_crawler.Exec.{ok, for_each}
use pub_crawler.Redis.{Redis, write, contains}
use pub_crawler.Dispatcher.{queue_key}
use pub_crawler.Fixups.{set_zero, fixup_zero_score}
use pub_crawler.Batches.Joined.{each_in_batches}

module _ (r : Redis) where
  zeroed : List String → r.Store → r.Store
  zeroed [] s = s
  zeroed (m ∷ ms) s = zeroed ms (r.zadd queue_key m 0 s)

  for_each-zeroed :
      (ms : List String) (s : r.Store) → for_each ms (set_zero r) s ≡ (ok tt, zeroed ms s)
  unfolding for_each zeroed set_zero
  for_each-zeroed [] s = refl
  for_each-zeroed (m ∷ ms) s = for_each-zeroed ms (r.zadd queue_key m 0 s)

  score-zeroed :
      (ms : List String) (m : String) (s : r.Store)
      → r.zsets (zeroed ms s) queue_key m
        ≡ (if contains ms m then some 0 else r.zsets s queue_key m)
  unfolding zeroed contains write
  score-zeroed [] m s = refl
  score-zeroed (k ∷ ms) m s =
      let one : r.zsets (r.zadd queue_key k 0 s) queue_key m
          ≡ (if str_eq k m then some 0 else r.zsets s queue_key m) =
        ap (λ f. f queue_key m) (r.zsets-zadd queue_key k 0 s)
        ∙ ground (arith, eq_iff queue_key queue_key) in
      score-zeroed ms m (r.zadd queue_key k 0 s) ∙ ground (arith, one)

  -- Whatever the size of a batch and whatever the scan yields: the number of members that it yielded
  -- is returned, each of them has the score zero, and every other member has the score that it had.
  pub fixup_zero_score_lem :
      (size : ℕ) (scan : List (String × ℕ)) (s : r.Store)
      → ((fixup_zero_score r size scan s).0 ≡ ok (length scan))
        × ((m : String)
            → r.zsets (fixup_zero_score r size scan s).1 queue_key m
              ≡ (if contains (map (λ e. e.0) scan) m then some 0 else r.zsets s queue_key m))
  unfolding fixup_zero_score
  fixup_zero_score_lem size scan s =
      rw
        (each_in_batches (set_zero r) (λ e. e.0) size scan s
          ∙ for_each-zeroed (map (λ e. e.0) scan) s)
        (refl, λ m. score-zeroed (map (λ e. e.0) scan) m s)
