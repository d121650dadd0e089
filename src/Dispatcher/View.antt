-- ===== src/Dispatcher/View.antt =====
-- What the dispatcher's keys hold, as four maps, and each method as a change of these maps.
use pub_crawler.Base.{
  String, eq_iff, ◌⊎◌, ℕ, ◌≡◌, Bool, true, false, Option, none, some, arith, if◌then◌else◌, str_eq,
}
use pub_crawler.Redis.{Redis, write}
use pub_crawler.Platform.{Platform}
use pub_crawler.Dispatcher.{queue_key, inflight_key, failed_key, seen_hashed_key}

abbrev pub at : {A : Type 0} → String → A → (String → A) → String → A
at k v f j = if str_eq k j then v else f j

pub record View : Type 0 where
  -- member to score
  pub queue : String → Option ℕ
  -- a job's text to the time at which it expires
  pub inflight : String → Option ℕ
  -- a job's text
  pub failed : String → Bool
  -- the hash of a job's identity
  pub seen : String → Bool

abbrev pub set_queue : String → Option ℕ → View → View
set_queue m x v = record v { queue = at m x v.queue }

abbrev pub set_inflight : String → Option ℕ → View → View
set_inflight f x v = record v { inflight = at f x v.inflight }

abbrev pub set_failed : String → Bool → View → View
set_failed m x v = record v { failed = at m x v.failed }

abbrev pub set_seen : String → Bool → View → View
set_seen m x v = record v { seen = at m x v.seen }

module _ (r : Redis) (p : Platform) where
  abbrev pub view_of : r.Store → View
  view_of s = record {
    queue = r.zsets s queue_key;
    inflight = r.hashes s inflight_key;
    failed = r.sets s failed_key;
    seen = r.sets s seen_hashed_key;
  }

  module _ (s : r.Store) where
    pub view-zadd :
        (m : String) (x : ℕ) → view_of (r.zadd queue_key m x s) ≡ set_queue m (some x) (view_of s)
    unfolding write
    view-zadd m x = λ i. record {
      queue = r.zsets-zadd queue_key m x s i queue_key;
      inflight = r.hashes-zadd queue_key m x s i inflight_key;
      failed = r.sets-zadd queue_key m x s i failed_key;
      seen = r.sets-zadd queue_key m x s i seen_hashed_key;
    }

    pub view-zrem : (m : String) → view_of (r.zrem queue_key m s) ≡ set_queue m none (view_of s)
    unfolding write
    view-zrem m = λ i. record {
      queue = r.zsets-zrem queue_key m s i queue_key;
      inflight = r.hashes-zrem queue_key m s i inflight_key;
      failed = r.sets-zrem queue_key m s i failed_key;
      seen = r.sets-zrem queue_key m s i seen_hashed_key;
    }

    pub view-hset :
        (f : String) (v : ℕ)
        → view_of (r.hset inflight_key f v s) ≡ set_inflight f (some v) (view_of s)
    unfolding write
    view-hset f v = λ i. record {
      queue = r.zsets-hset inflight_key f v s i queue_key;
      inflight = r.hashes-hset inflight_key f v s i inflight_key;
      failed = r.sets-hset inflight_key f v s i failed_key;
      seen = r.sets-hset inflight_key f v s i seen_hashed_key;
    }

    pub view-hdel :
        (f : String) → view_of (r.hdel inflight_key f s) ≡ set_inflight f none (view_of s)
    unfolding write
    view-hdel f = λ i. record {
      queue = r.zsets-hdel inflight_key f s i queue_key;
      inflight = r.hashes-hdel inflight_key f s i inflight_key;
      failed = r.sets-hdel inflight_key f s i failed_key;
      seen = r.sets-hdel inflight_key f s i seen_hashed_key;
    }

    pub view-sadd_seen :
        (m : String) → view_of ((r.sadd seen_hashed_key m s).1) ≡ set_seen m true (view_of s)
    unfolding write
    view-sadd_seen m = λ i. record {
      queue = r.zsets-sadd seen_hashed_key m s i queue_key;
      inflight = r.hashes-sadd seen_hashed_key m s i inflight_key;
      failed = r.sets-sadd seen_hashed_key m s i failed_key;
      seen = r.sets-sadd seen_hashed_key m s i seen_hashed_key;
    }

    pub view-sadd_failed :
        (m : String) → view_of ((r.sadd failed_key m s).1) ≡ set_failed m true (view_of s)
    unfolding write
    view-sadd_failed m = λ i. record {
      queue = r.zsets-sadd failed_key m s i queue_key;
      inflight = r.hashes-sadd failed_key m s i inflight_key;
      failed = r.sets-sadd failed_key m s i failed_key;
      seen = r.sets-sadd failed_key m s i seen_hashed_key;
    }

    pub view-srem_failed :
        (m : String) → view_of ((r.srem failed_key m s).1) ≡ set_failed m false (view_of s)
    unfolding write
    view-srem_failed m = λ i. record {
      queue = r.zsets-srem failed_key m s i queue_key;
      inflight = r.hashes-srem failed_key m s i inflight_key;
      failed = r.sets-srem failed_key m s i failed_key;
      seen = r.sets-srem failed_key m s i seen_hashed_key;
    }

    pub view-bzpopmin :
        (m : String) (x : ℕ)
        → (r.bzpopmin queue_key s).0 ≡ some (some (m, x))
        → view_of (r.bzpopmin queue_key s).1 ≡ set_queue m none (view_of s)
    unfolding write
    view-bzpopmin m x h = λ i. record {
      queue = r.zsets-bzpopmin queue_key m x s h i queue_key;
      inflight = r.hashes-bzpopmin queue_key s i inflight_key;
      failed = r.sets-bzpopmin queue_key s i failed_key;
      seen = r.sets-bzpopmin queue_key s i seen_hashed_key;
    }

-- Where an entry of a changed map comes from.
module _ (k j : String) where
  pub at-some :
      (f : String → Option ℕ) (x y : ℕ)
      → at k (some x) f j ≡ some y
      → ((k ≡ j) × (x ≡ y)) ⊎ (f j ≡ some y)
  at-some f x y h = ground (arith, eq_iff k j)

  pub at-none : (f : String → Option ℕ) (y : ℕ) → at k none f j ≡ some y → f j ≡ some y
  at-none f y h = ground (arith, eq_iff k j)

  pub at-true : (f : String → Bool) → at k true f j ≡ true → (k ≡ j) ⊎ (f j ≡ true)
  at-true f h = ground (arith, eq_iff k j)

  pub at-false : (f : String → Bool) → at k false f j ≡ true → f j ≡ true
  at-false f h = ground (arith, eq_iff k j)
