-- ===== src/Fixups/Hashes.antt =====
-- fixup/fixup_seen_hash.py: what was seen is still seen, by its hash.
use pub_crawler.Base.{
  String, ℕ, ◌≡◌, refl, ap, ◌∙◌, Bool, true, false, ◌||◌, some, List, [], ◌∷◌, length, map, str_eq,
  eq_iff, arith, if◌then◌else◌, Bool-cases, inl, inr,
}
use pub_crawler.Exec.{ok, for_each}
use pub_crawler.Json.{Value}
use pub_crawler.Redis.{Redis, write, contains}
use pub_crawler.Platform.{Platform}
use pub_crawler.Job.{job_id}
use pub_crawler.Dispatcher.{Dispatcher, seen_key, seen_hashed_key, job_to_hash, or_no_jid}
use pub_crawler.Dispatcher
use pub_crawler.Fixups.{move_hash, fixup_seen_hash}
use pub_crawler.Batches.Joined.{each_in_batches}

module _ (r : Redis) (p : Platform) where
  moved : List String → r.Store → r.Store
  moved [] s = s
  moved (j ∷ js) s = moved js (r.srem seen_key j (r.sadd seen_hashed_key (p.blake2b j) s).1).1

  for_each-moved :
      (js : List String) (s : r.Store) → for_each js (move_hash r p) s ≡ (ok tt, moved js s)
  unfolding for_each moved move_hash
  for_each-moved [] s = refl
  for_each-moved (j ∷ js) s = for_each-moved js _

  module _ (j : String) (s : r.Store) where
    abbrev one : r.Store
    one = (r.srem seen_key j (r.sadd seen_hashed_key (p.blake2b j) s).1).1

    one_hashed :
        (h : String)
        → r.sets one seen_hashed_key h ≡ (str_eq (p.blake2b j) h || r.sets s seen_hashed_key h)
    unfolding write
    one_hashed h =
        ap (λ f. f seen_hashed_key h) (r.sets-srem seen_key j _)
        ∙ ap (λ f. write seen_key j false f seen_hashed_key h)
            (r.sets-sadd seen_hashed_key (p.blake2b j) s)
        ∙ ground (arith, eq_iff seen_hashed_key seen_hashed_key, differ)
      where
        differ : str_eq seen_key seen_hashed_key ≡ false
        differ = refl

    one_seen :
        (k : String) → r.sets one seen_key k ≡ (if str_eq j k then false else r.sets s seen_key k)
    unfolding write
    one_seen k =
        ap (λ f. f seen_key k) (r.sets-srem seen_key j _)
        ∙ ap (λ f. write seen_key j false f seen_key k)
            (r.sets-sadd seen_hashed_key (p.blake2b j) s)
        ∙ ground (arith, eq_iff seen_key seen_key, differ)
      where
        differ : str_eq seen_hashed_key seen_key ≡ false
        differ = refl

  hashed-stays :
      (js : List String) (h : String) (s : r.Store)
      → r.sets s seen_hashed_key h ≡ true
      → r.sets (moved js s) seen_hashed_key h ≡ true
  unfolding moved
  hashed-stays [] h s e = e
  hashed-stays (j ∷ js) h s e = hashed-stays js h (one j s) (ground (arith, one_hashed j s h))

  hashed-moved :
      (js : List String) (j : String) (s : r.Store)
      → contains js j ≡ true
      → r.sets (moved js s) seen_hashed_key (p.blake2b j) ≡ true
  unfolding moved contains
  hashed-moved [] j s e = absurd (cc)
  hashed-moved (i ∷ js) j s e = elim (Bool-cases (str_eq i j)) [
    | inr other ↦ hashed-moved js j (one i s) (rw other at e)
    | inl same ↦ hashed-stays js (p.blake2b j) (one i s) (
        one_hashed i s (p.blake2b j)
        ∙ ap (λ b. b || r.sets s seen_hashed_key (p.blake2b j))
            ((eq_iff (p.blake2b i) (p.blake2b j)).1 (ap p.blake2b ((eq_iff i j).0 same))))
  ]

  seen-moved :
      (js : List String) (j : String) (s : r.Store)
      → r.sets (moved js s) seen_key j ≡ (if contains js j then false else r.sets s seen_key j)
  unfolding moved contains
  seen-moved [] j s = refl
  seen-moved (i ∷ js) j s = seen-moved js j (one i s) ∙ ground (arith, one_seen i s j)

  same_list : (js : List String) → map (λ j. j) js ≡ js
  same_list [] = refl
  same_list (j ∷ js) = ap (λ l. j ∷ l) (same_list js)

  -- Whatever the size of a batch: the number of identities that the scan yielded is returned; each of
  -- them is gone from the set of identities, in which the others stay; a job with such an identity is
  -- one that the dispatcher has seen; and the hashes that were there still are.
  pub fixup_seen_hash_lem :
      (size : ℕ) (scan : List String) (s : r.Store) (stopped : Bool)
      → let out = fixup_seen_hash r p size scan s in
        (out.0 ≡ ok (length scan))
        × ((j : String)
            → r.sets out.1 seen_key j ≡ (if contains scan j then false else r.sets s seen_key j))
        × ((job : Value) (j : String)
            → job_id p.text_of job ≡ some j
            → contains scan j ≡ true
            → (Dispatcher.seen r p job (record { store = out.1; stopped = stopped })).0 ≡ ok true)
        × ((h : String) → r.sets s seen_hashed_key h ≡ true → r.sets out.1 seen_hashed_key h ≡ true)
  unfolding fixup_seen_hash Dispatcher.seen job_to_hash or_no_jid
  fixup_seen_hash_lem size scan s stopped =
      rw
        (each_in_batches (move_hash r p) (λ j. j) size scan s
          ∙ ap (λ l. for_each l (move_hash r p) s) (same_list scan)
          ∙ for_each-moved scan s)
        (
          refl,
          λ j. seen-moved scan j s,
          λ job j e i. rw (e, hashed-moved scan j s i) refl,
          λ h e. hashed-stays scan h s e,
        )
