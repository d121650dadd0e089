-- ===== src/Fixups/Rewriting.antt =====
-- fixup/fixup_crc_tiebreak.py: the queue after a run.
use mathlib.Core.List.{◌++◌}
use pub_crawler.Base.{
  String, ℕ, ◌≡◌, refl, sym, ap, ◌∙◌, subst, fun_ext, true, false, Option, none, some, List, [],
  ◌∷◌, length, arith, Option-cases, Bool-cases, inl, inr, ◌⊎◌, All, All-split, In, first, later,
  In-cases, str_eq, eq_iff, is_some, if◌then◌else◌,
}
use pub_crawler.Exec.{Result, ok, raised, for_each, continue_with, ◌>>◌}
use pub_crawler.Exec.Fallible.{ok_injective, >>=-ok}
use pub_crawler.Redis.{Redis, write}
use pub_crawler.Platform.{Platform}
use pub_crawler.Dispatcher.{queue_key}
use pub_crawler.Fixups.{rewrite, write_crcs, fixup_crc_tiebreak}
use pub_crawler.Fixups.Member.{is_old_member, if_old, kept_if, new_member, new_members, paired}
use pub_crawler.Batches.Joined.{collect, in_batches_lem, for_each-append}
use pub_crawler.Fixups.CrcTiebreak.{is_old_member-new_member}

same_pair : {a b c d : String} → a ≡ b → c ≡ d → ◌≡◌ {A = String × String} (a, c) (b, d)
same_pair h k = cc

some_injective : {x y : String} → ◌≡◌ {A = Option String} (some x) (some y) → x ≡ y
some_injective h = cc

module _ (r : Redis) where
  rewritten : List (String × String) → r.Store → r.Store
  rewritten [] s = s
  rewritten ((m, n) ∷ ns) s = rewritten ns (r.zrem queue_key m (r.zadd queue_key n 0 s))

  for_each-rewritten :
      (ns : List (String × String)) (s : r.Store)
      → for_each ns (rewrite r) s ≡ (ok tt, rewritten ns s)
  unfolding for_each rewritten rewrite
  for_each-rewritten [] s = refl
  for_each-rewritten ((m, n) ∷ ns) s = for_each-rewritten ns _

  abbrev queue : r.Store → String → Option ℕ
  queue s = r.zsets s queue_key

  one_rewrite :
      (m n k : String) (s : r.Store)
      → queue (r.zrem queue_key m (r.zadd queue_key n 0 s)) k
        ≡ (if str_eq m k then none else if str_eq n k then some 0 else queue s k)
  unfolding write
  one_rewrite m n k s =
      ap (λ f. f queue_key k) (r.zsets-zrem queue_key m _)
      ∙ ap (λ f. write queue_key m none f queue_key k) (r.zsets-zadd queue_key n 0 s)
      ∙ ground (arith, eq_iff queue_key queue_key)

  -- the old members are other members than the new ones
  abbrev Apart : List (String × String) → Type 0
  Apart ns = All (λ e. (is_old_member e.0 ≡ ok true) × (is_old_member e.1 ≡ ok false)) ns

  differ :
      (m k : String) → is_old_member m ≡ ok true → is_old_member k ≡ ok false → str_eq m k ≡ false
  differ m k old new = elim (Bool-cases (str_eq m k)) [
    | inr other ↦ other
    | inl same ↦ absurd (cc (old, new, (eq_iff m k).0 same))
  ]

  new-stays :
      (ns : List (String × String)) (k : String) (s : r.Store)
      → Apart ns
      → is_old_member k ≡ ok false
      → is_some (queue s k) ≡ true
      → is_some (queue (rewritten ns s) k) ≡ true
  unfolding rewritten
  new-stays [] k s a new h = h
  new-stays ((m, n) ∷ ns) k s a new h =
      new-stays ns k _ a.1 new
        (ap is_some (one_rewrite m n k s) ∙ ground (arith, differ m k a.0.0 new))

  zero-stays :
      (ns : List (String × String)) (k : String) (s : r.Store)
      → Apart ns
      → is_old_member k ≡ ok false
      → queue s k ≡ some 0
      → queue (rewritten ns s) k ≡ some 0
  unfolding rewritten
  zero-stays [] k s a new h = h
  zero-stays ((m, n) ∷ ns) k s a new h =
      zero-stays ns k _ a.1 new (one_rewrite m n k s ∙ ground (arith, differ m k a.0.0 new))

  gone-stays :
      (ns : List (String × String)) (k : String) (s : r.Store)
      → Apart ns
      → is_old_member k ≡ ok true
      → queue s k ≡ none
      → queue (rewritten ns s) k ≡ none
  unfolding rewritten
  gone-stays [] k s a old h = h
  gone-stays ((m, n) ∷ ns) k s a old h =
      gone-stays ns k _ a.1 old
        (one_rewrite m n k s ∙ ground (arith, differ k n old a.0.1, eq_iff k n, eq_iff n k))

  written :
      (m n : String) {ns : List (String × String)} (s : r.Store)
      → Apart ns
      → In (m, n) ns
      → (queue (rewritten ns s) n ≡ some 0) × (queue (rewritten ns s) m ≡ none)
  unfolding rewritten
  written m n {ns = _ ∷ ns} s a first = (
    zero-stays ns n _ a.1 a.0.1
        (one_rewrite m n n s ∙ ground (arith, differ m n a.0.0 a.0.1, eq_iff n n)),
    gone-stays ns m _ a.1 a.0.0 (one_rewrite m n m s ∙ ground (arith, eq_iff m m)),
  )
  written m n s a (later i) = written m n _ a.1 i

module _ (p : Platform) where
  -- An old member that can be rewritten, or that has a job with no identity.
  abbrev pub Rewritable : String → Type 0
  Rewritable m = (is_old_member m ≡ ok true) × (o : Option String) × (new_member p m ≡ ok o)

  record Converted (ms : List String) : Type 0 where
    news : List (String × String)
    result : new_members p ms ≡ ok news
    apart : All (λ e. (is_old_member e.0 ≡ ok true) × (is_old_member e.1 ≡ ok false)) news
    complete : (m n : String) → In m ms → new_member p m ≡ ok (some n) → In (m, n) news

  converted : (ms : List String) → All Rewritable ms → Converted ms
  unfolding new_members
  converted [] a = record { news = []; result = refl; apart = tt; complete = λ m n i. elim i [ ] }
  converted (m ∷ ms) (((old, o, e), rest)) =
      let more = converted ms rest in
      elim (Option-cases o) [
        | inl skipped ↦ record {
          news = more.news;
          result = rw (new_members, e, skipped, more.result, paired) refl;
          apart = more.apart;
          complete = λ k n i h. elim (In-cases i) [
            | inl same ↦ absurd (cc (sym (ap (new_member p) same) ∙ e, h, skipped))
            | inr i ↦ more.complete k n i h
          ];
        }
        | inr (new, made) ↦ record {
          news = (m, new) ∷ more.news;
          result = rw (new_members, e, made, more.result, paired) refl;
          apart = ((old, is_old_member-new_member p m new (e ∙ ap ok made)), more.apart);
          complete = λ k n i h. elim (In-cases i) [
            | inl same ↦
                subst (λ x. In x ((m, new) ∷ more.news))
                  (same_pair same (
                    some_injective
                      (ok_injective (sym (e ∙ ap ok made) ∙ ap (new_member p) same ∙ h))))
                  first
            | inr i ↦ later (more.complete k n i h)
          ];
        }
      ]

  paired-append :
      (m : String) (o : Option String) (ns ms : List (String × String))
      → paired p m o (ns ++ ms) ≡ paired p m o ns ++ ms
  unfolding paired
  paired-append m none ns ms = refl
  paired-append m (some n) ns ms = refl

  news_append :
      (xs ys : List String) (ns ms : List (String × String))
      → new_members p xs ≡ ok ns
      → new_members p ys ≡ ok ms
      → new_members p (xs ++ ys) ≡ ok (ns ++ ms)
  unfolding new_members
  news_append [] ys ns ms h k = k ∙ ap (λ l. ok (l ++ ms)) (ok_injective h)
  news_append (x ∷ xs) ys ns ms h k =
      let (new, made, h) = >>=-ok (new_member p x) _ h in
      let (rest, others, h) = >>=-ok (new_members p xs) _ h in
      rw (made, news_append xs ys rest ms others k, paired-append x new rest ms)
        (ap (λ l. ok (l ++ ms)) (ok_injective h))

module _ (r : Redis) (p : Platform) where
  crcs_lem :
      (xs : List String) (ns : List (String × String)) (s : r.Store)
      → new_members p xs ≡ ok ns
      → write_crcs r p xs s ≡ for_each ns (rewrite r) s
  unfolding write_crcs
  crcs_lem xs ns s h = rw h refl

  crcs_join :
      (xs ys : List String) (s : r.Store)
      → All (Rewritable p) (xs ++ ys)
      → write_crcs r p (xs ++ ys) s ≡ (write_crcs r p xs >> write_crcs r p ys) s
  crcs_join xs ys s a =
      let (l, k) = All-split (Rewritable p) xs ys a in
      let x = converted p xs l in
      let y = converted p ys k in
      crcs_lem (xs ++ ys) (x.news ++ y.news) s (news_append p xs ys x.news y.news x.result y.result)
      ∙ for_each-append (rewrite r) x.news y.news s
      ∙ sym (
          ap (λ c. continue_with (λ _. write_crcs r p ys) c.0 c.1) (crcs_lem xs x.news s x.result)
          ∙ ap
              (λ f.
                continue_with (λ _. f) (for_each x.news (rewrite r) s).0
                  (for_each x.news (rewrite r) s).1)
              (fun_ext (λ t. crcs_lem ys y.news t y.result)))

  -- what is gathered of an entry
  abbrev gathered : Result (Option String) → Option String
  gathered (ok o) = o
  gathered (raised e) = none

  abbrev item : String × ℕ → Option String
  item e = gathered (if_old e.0)

  -- A member in the new format, or an old one that can be rewritten.
  abbrev pub Readable : String × ℕ → Type 0
  Readable e = (is_old_member e.0 ≡ ok false) ⊎ Rewritable p e.0

  if_new : (m : String) → is_old_member m ≡ ok false → if_old m ≡ ok none
  unfolding if_old kept_if
  if_new m e = rw e refl

  if_was : (m : String) → is_old_member m ≡ ok true → if_old m ≡ ok (some m)
  unfolding if_old kept_if
  if_was m e = rw e refl

  classified :
      (scan : List (String × ℕ))
      → All Readable scan
      → All (λ e. if_old e.0 ≡ ok (item e)) scan
        × All (Rewritable p) (collect item scan)
        × ((m : String) (x : ℕ)
            → In (m, x) scan
            → is_old_member m ≡ ok true
            → In m (collect item scan))
  unfolding collect
  classified [] a = (tt, tt, λ m x i. elim i [ ])
  classified ((m, x) ∷ scan) (inl new, a) =
      let (keeps, fine, found) = classified scan a in
      rw (if_new m new, collect)
        (
          (refl, keeps),
          fine,
          λ k y i old. elim (In-cases i) [
            | inl same ↦ absurd (cc (new, old, ap (λ e. e.0) same))
            | inr i ↦ found k y i old
          ],
        )
  classified ((m, x) ∷ scan) (inr old, a) =
      let (keeps, fine, found) = classified scan a in
      rw (if_was m old.0, collect)
        (
          (refl, keeps),
          (old, fine),
          λ k y i e. elim (In-cases i) [
            | inl same ↦ subst (λ z. In z (m ∷ collect item scan)) (ap (λ e. e.0) same) first
            | inr i ↦ later (found k y i e)
          ],
        )

  -- Where each member that the scan yields is in the new format or can be rewritten: whatever the
  -- size of a batch, the number of members that the scan yielded is returned; each old member of a
  -- job with an identity is gone, and its new member is in the queue with the score zero; and the
  -- members in the new format that were there still are.
  pub fixup_crc_tiebreak_lem :
      (size : ℕ) (scan : List (String × ℕ)) (s : r.Store)
      → All Readable scan
      → let out = fixup_crc_tiebreak r p size scan s in
        (out.0 ≡ ok (length scan))
        × ((m n : String) (x : ℕ)
            → In (m, x) scan
            → is_old_member m ≡ ok true
            → new_member p m ≡ ok (some n)
            → (r.zsets out.1 queue_key n ≡ some 0) × (r.zsets out.1 queue_key m ≡ none))
        × ((k : String)
            → is_old_member k ≡ ok false
            → is_some (r.zsets s queue_key k) ≡ true
            → is_some (r.zsets out.1 queue_key k) ≡ true)
  unfolding fixup_crc_tiebreak new_members for_each
  fixup_crc_tiebreak_lem size scan s a =
      let (keeps, fine, found) = classified scan a in
      let c = converted p (collect item scan) fine in
      rw
        (in_batches_lem size (write_crcs r p) (λ e. if_old e.0) item (Rewritable p)
            (λ t. crcs_lem [] [] t refl) crcs_join [] scan s keeps fine
          ∙ crcs_lem (collect item scan) c.news s c.result
          ∙ for_each-rewritten r c.news s)
        (
          refl,
          λ m n x i old made. written r m n s c.apart (c.complete m n (found m x i old) made),
          λ k new h. new-stays r c.news k s c.apart new h,
        )
