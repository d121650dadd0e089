-- ===== src/Redis/Memory.antt =====
-- A store in memory, as association lists: what is assumed of Redis can be met.
use pub_crawler.Base.{
  String, ℕ, ◌≡◌, ◌≢◌, Bool, true, false, ◌&&◌, Option, none, some, List, length, if◌then◌else◌,
  str_eq, is_some, arith, eq_iff, refl, fun_ext, subst, ap, sym, ◌∙◌, [], ◌∷◌, All, All-map, map,
  ◌⊎◌, Option-cases, Bool-cases, inl, inr,
}
use pub_crawler.Redis.{Redis, Keyspace, write, precedes, contains}
use pub_crawler.Redis.Order.{lt_asymm, not-lt_trans}

abbrev Table : Type 0 → Type 0
Table A = List (String × String × A)

find : {A : Type 0} → Table A → Keyspace (Option A)
find [] k m = none
find ((j, n, a) ∷ t) k m = if str_eq j k && str_eq n m then some a else find t k m

erase : {A : Type 0} → String → String → Table A → Table A
erase k m [] = []
erase k m ((j, n, a) ∷ t) =
    let rest = erase k m t in if str_eq j k && str_eq n m then rest else (j, n, a) ∷ rest

insert : {A : Type 0} → String → String → A → Table A → Table A
insert k m a t = (k, m, a) ∷ erase k m t

drop_name : {A : Type 0} → String → List (String × A) → List (String × A)
drop_name n [] = []
drop_name n ((m, a) ∷ l) = let rest = drop_name n l in if str_eq m n then rest else (m, a) ∷ rest

-- the entries of one key, each name once
row : {A : Type 0} → String → Table A → List (String × A)
row k [] = []
row k ((j, n, a) ∷ t) = let rest = row k t in if str_eq j k then (n, a) ∷ drop_name n rest else rest

find_in : {A : Type 0} → List (String × A) → String → Option A
find_in [] m = none
find_in ((n, a) ∷ l) m = if str_eq n m then some a else find_in l m

module _ {A : Type 0} where
  find-erase-at :
      (k m k' m' : String) (t : Table A)
      → find (erase k m t) k' m' ≡ (if str_eq k k' && str_eq m m' then none else find t k' m')
  unfolding find erase
  find-erase-at k m k' m' [] = ground arith
  find-erase-at k m k' m' ((j, n, a) ∷ t) = ground (
    arith,
    find-erase-at k m k' m' t,
    eq_iff k k',
    eq_iff m m',
    eq_iff j k,
    eq_iff n m,
    eq_iff j k',
    eq_iff n m',
  )

  find-erase : (k m : String) (t : Table A) → find (erase k m t) ≡ write k m none (find t)
  unfolding write
  find-erase k m t = fun_ext λ k'. fun_ext λ m'. find-erase-at k m k' m' t

  find-insert :
      (k m : String) (a : A) (t : Table A) → find (insert k m a t) ≡ write k m (some a) (find t)
  unfolding write find insert
  find-insert k m a t = fun_ext λ k'. fun_ext λ m'. ground (arith, find-erase-at k m k' m' t)

  find_in-drop_name :
      (n m : String) (l : List (String × A))
      → find_in (drop_name n l) m ≡ (if str_eq n m then none else find_in l m)
  unfolding find_in drop_name
  find_in-drop_name n m [] = ground arith
  find_in-drop_name n m ((i, a) ∷ l) =
      ground (arith, find_in-drop_name n m l, eq_iff n m, eq_iff i n, eq_iff i m)

  find_in-row : (k m : String) (t : Table A) → find_in (row k t) m ≡ find t k m
  unfolding find_in row find
  find_in-row k m [] = refl
  find_in-row k m ((j, n, a) ∷ t) =
      ground (arith, find_in-drop_name n m (row k t), find_in-row k m t)

  All-drop_name :
      (P Q : String × A → Type 0) (n : String) (l : List (String × A))
      → ((m : String) (a : A) → str_eq n m ≡ false → P (m, a) → Q (m, a))
      → All P l
      → All Q (drop_name n l)
  unfolding drop_name
  All-drop_name P Q n [] f h = tt
  All-drop_name P Q n ((m, a) ∷ l) f h = elim (Bool-cases (str_eq m n)) [
    | inl e ↦ rw e (All-drop_name P Q n l f h.1)
    | inr e ↦ rw e (f m a (ground (arith, eq_iff m n, eq_iff n m)) h.0, All-drop_name P Q n l f h.1)
  ]

  All-if :
      (P : String × A → Type 0) (b : Bool) (l m : List (String × A))
      → (b ≡ true → All P l)
      → (b ≡ false → All P m)
      → All P (if b then l else m)
  All-if P true l m f g = f refl
  All-if P false l m f g = g refl

  row_sound : (k : String) (t : Table A) → All (λ e. find t k e.0 ≡ some e.1) (row k t)
  unfolding row find
  row_sound k [] = tt
  row_sound k ((j, n, a) ∷ t) =
      All-if Here (str_eq j k) _ _
        (λ e. (
          ground (arith, eq_iff n n),
          All-drop_name There Here n (row k t) (λ m b ne h. ground arith) (row_sound k t),
        ))
        (λ e. All-map There Here (row k t) (λ x h. ground arith) (row_sound k t))
    where
      There : String × A → Type 0
      There e = find t k e.0 ≡ some e.1

      Here : String × A → Type 0
      Here e = find ((j, n, a) ∷ t) k e.0 ≡ some e.1

  contains-names :
      (m : String) (l : List (String × A)) → contains (map (λ e. e.0) l) m ≡ is_some (find_in l m)
  unfolding contains find_in
  contains-names m [] = refl
  contains-names m ((n, a) ∷ l) = ground (arith, contains-names m l)

  find_in-length-zero : (m : String) (l : List (String × A)) → length l ≡ 0 → find_in l m ≡ none
  unfolding find_in
  find_in-length-zero m [] h = refl
  find_in-length-zero m (e ∷ l) h = absurd (omega arith)

least : List (String × ℕ) → Option (String × ℕ)
least [] = none
least (e ∷ l) = elim (least l) [ none ↦ some e | some f ↦ if precedes f e then some f else some e ]

least-All :
    (P : String × ℕ → Type 0) (l : List (String × ℕ)) (e : String × ℕ)
    → All P l
    → least l ≡ some e
    → P e
unfolding least
least-All P [] e h p = absurd (ground arith)
least-All P (f ∷ l) e h p = elim (Option-cases (least l)) [
  | inl q ↦ subst P (ground arith) h.0
  | inr (g, q) ↦ elim (Bool-cases (precedes g f)) [
    | inl b ↦ subst P (ground arith) (least-All P l g h.1 q)
    | inr b ↦ subst P (ground arith) h.0
  ]
]

precedes_asymm : (a b : String × ℕ) → precedes a b ≡ true → precedes b a ≡ false
precedes_asymm (m, x) (n, y) h = ground (arith, lt_asymm m n)

not-precedes_trans :
    (a b c : String × ℕ) → precedes b a ≡ false → precedes c b ≡ false → precedes c a ≡ false
not-precedes_trans (m, x) (n, y) (i, z) h k = ground (arith, not-lt_trans m n i)

precedes_irrefl : (a : String × ℕ) → precedes a a ≡ false
precedes_irrefl (m, x) = ground (arith, lt_asymm m m)

find_in-cons :
    (e : String × ℕ) (l : List (String × ℕ)) (n : String) (y : ℕ)
    → find_in (e ∷ l) n ≡ some y
    → (e ≡ (n, y)) ⊎ (find_in l n ≡ some y)
unfolding find_in
find_in-cons (m, x) l n y h = elim (Bool-cases (str_eq m n)) [
  | inl b ↦ inl (ground (arith, eq_iff m n))
  | inr b ↦ inr (ground arith)
]

least-none : (l : List (String × ℕ)) (n : String) → least l ≡ none → find_in l n ≡ none
unfolding least find_in
least-none [] n h = refl
least-none (e ∷ l) n h = absurd (ground arith)

least-cons_none :
    (f : String × ℕ) (l : List (String × ℕ)) (e : String × ℕ)
    → least l ≡ none
    → least (f ∷ l) ≡ some e
    → f ≡ e
unfolding least
least-cons_none f l e q p = ground arith

least-cons_some :
    (f : String × ℕ) (l : List (String × ℕ)) (e g : String × ℕ)
    → least l ≡ some g
    → least (f ∷ l) ≡ some e
    → (precedes f e ≡ false) × ((a : String × ℕ) → precedes a g ≡ false → precedes a e ≡ false)
unfolding least
least-cons_some f l e g q p = elim (Bool-cases (precedes g f)) [
  | inl b ↦
      let d : g ≡ e = ground arith in
      subst
        (λ z.
          (precedes f z ≡ false) × ((a : String × ℕ) → precedes a g ≡ false → precedes a z ≡ false))
        d (precedes_asymm g f b, λ a h. h)
  | inr b ↦
      let d : f ≡ e = ground arith in
      subst
        (λ z.
          (precedes f z ≡ false) × ((a : String × ℕ) → precedes a g ≡ false → precedes a z ≡ false))
        d (precedes_irrefl f, λ a h. not-precedes_trans f g a b h)
]

-- Nothing in the list comes before the least entry.
least_first :
    (l : List (String × ℕ)) (e : String × ℕ) (n : String) (y : ℕ)
    → least l ≡ some e
    → find_in l n ≡ some y
    → precedes (n, y) e ≡ false
unfolding least
least_first [] e n y p h = cc (least-none [] n refl)
least_first (f ∷ l) e n y p h = elim (Option-cases (least l)) [
  | inl q ↦ elim (find_in-cons f l n y h) [
    | inl here ↦
        subst (λ z. precedes z e ≡ false) here
          (subst (λ z. precedes f z ≡ false) (least-cons_none f l e q p) (precedes_irrefl f))
    | inr there ↦ absurd (cc (least-none l n q))
  ]
  | inr (g, q) ↦ elim (find_in-cons f l n y h) [
    | inl here ↦ subst (λ z. precedes z e ≡ false) here (least-cons_some f l e g q p).0
    | inr there ↦ (least-cons_some f l e g q p).1 (n, y) (least_first l g n y q there)
  ]
]

record MemoryStore : Type 0 where
  sorted : Table ℕ
  members : Table Unit
  fields : Table ℕ

abbrev pop_least : String → MemoryStore → Option (String × ℕ) → Option (String × ℕ) × MemoryStore
pop_least k s none = (none, s)
pop_least k s (some (m, x)) = (some (m, x), record s { sorted = erase k m s.sorted })

abbrev pop : String → MemoryStore → Option (String × ℕ) × MemoryStore
pop k s = pop_least k s (least (row k s.sorted))

pop_answer : (k : String) (s : MemoryStore) (o : Option (String × ℕ)) → (pop_least k s o).0 ≡ o
pop_answer k s none = refl
pop_answer k s (some e) = refl

pop_none :
    (k : String) (s : MemoryStore) (o : Option (String × ℕ))
    → (pop_least k s o).0 ≡ none
    → (pop_least k s o).1 ≡ s
pop_none k s none h = refl
pop_none k s (some e) h = absurd (cc)

pop_store :
    (k m : String) (x : ℕ) (s : MemoryStore) (o : Option (String × ℕ))
    → (pop_least k s o).0 ≡ some (m, x)
    → find (pop_least k s o).1.sorted ≡ write k m none (find s.sorted)
pop_store k m x s none h = absurd (cc)
pop_store k m x s (some (n, y)) h =
    subst (λ j. find (erase k n s.sorted) ≡ write k j none (find s.sorted)) (ground arith)
      (find-erase k n s.sorted)

pop_keeps :
    (k : String) (s : MemoryStore) (o : Option (String × ℕ))
    → ((pop_least k s o).1.members ≡ s.members) × ((pop_least k s o).1.fields ≡ s.fields)
pop_keeps k s none = (refl, refl)
pop_keeps k s (some e) = (refl, refl)

abbrev has_member : Table Unit → Keyspace Bool
has_member t k m = is_some (find t k m)

has_member-put :
    (k m : String) (t : Table Unit) → has_member (insert k m tt t) ≡ write k m true (has_member t)
unfolding write insert find
has_member-put k m t = fun_ext λ k'. fun_ext λ m'. ground (arith, find-erase-at k m k' m' t)

has_member-erase :
    (k m : String) (t : Table Unit) → has_member (erase k m t) ≡ write k m false (has_member t)
unfolding write
has_member-erase k m t = fun_ext λ k'. fun_ext λ m'. ground (arith, find-erase-at k m k' m' t)

contains-row :
    {A : Type 0} (k m : String) (t : Table A)
    → contains (map (λ e. e.0) (row k t)) m ≡ is_some (find t k m)
contains-row k m t = contains-names m (row k t) ∙ ap is_some (find_in-row k m t)

pop_found :
    (k m : String) (x : ℕ) (s : MemoryStore)
    → (pop k s).0 ≡ some (m, x)
    → find s.sorted k m ≡ some x
pop_found k m x s h =
    least-All (λ e. find s.sorted k e.0 ≡ some e.1) (row k s.sorted) (m, x) (row_sound k s.sorted)
      (sym (pop_answer k s (least (row k s.sorted))) ∙ h)

-- what BZPOPMIN answers, if anything
abbrev answered : {A : Type 0} → Option A → Option (Option A)
answered none = none
answered (some e) = some (some e)

answered-none : {A : Type 0} (o : Option A) → answered o ≡ none → o ≡ none
answered-none none h = refl
answered-none (some e) h = absurd (cc)

not_nil : {A : Type 0} (o : Option A) → answered o ≢ some none
not_nil none h = cc
not_nil (some e) h = cc

answered-some : {A : Type 0} (o : Option A) (e : A) → answered o ≡ some (some e) → o ≡ some e
answered-some none e h = absurd (cc)
answered-some (some d) e h = cc

pub memory : Redis
memory = record {
  Store = MemoryStore;
  zsets = λ s. find s.sorted;
  sets = λ s. has_member s.members;
  hashes = λ s. find s.fields;
  zadd = λ k m x s. record s { sorted = insert k m x s.sorted };
  zsets-zadd = λ k m x s. find-insert k m x s.sorted;
  sets-zadd = λ k m x s. refl;
  hashes-zadd = λ k m x s. refl;
  zrem = λ k m s. record s { sorted = erase k m s.sorted };
  zsets-zrem = λ k m s. find-erase k m s.sorted;
  sets-zrem = λ k m s. refl;
  hashes-zrem = λ k m s. refl;
  bzpopmin = λ k s. (answered (pop k s).0, (pop k s).1);
  bzpopmin-nil = λ k s. not_nil (pop k s).0;
  bzpopmin-none = λ k s h. pop_none k s (least (row k s.sorted)) (answered-none (pop k s).0 h);
  bzpopmin-empty = λ k m s h.
      sym (find_in-row k m s.sorted)
      ∙ least-none (row k s.sorted) m
          (sym (pop_answer k s (least (row k s.sorted))) ∙ answered-none (pop k s).0 h);
  bzpopmin-found = λ k m x s h. pop_found k m x s (answered-some (pop k s).0 (m, x) h);
  bzpopmin-first = λ k m n x y s h e.
      least_first (row k s.sorted) (m, x) n y
        (sym (pop_answer k s (least (row k s.sorted))) ∙ answered-some (pop k s).0 (m, x) h)
        (find_in-row k n s.sorted ∙ e);
  zsets-bzpopmin =
      λ k m x s h. pop_store k m x s (least (row k s.sorted)) (answered-some (pop k s).0 (m, x) h);
  sets-bzpopmin = λ k s. ap has_member (pop_keeps k s (least (row k s.sorted))).0;
  hashes-bzpopmin = λ k s. ap find (pop_keeps k s (least (row k s.sorted))).1;
  zcard = λ k s. length (row k s.sorted);
  zcard-zero = λ k m s h. sym (find_in-row k m s.sorted) ∙ find_in-length-zero m (row k s.sorted) h;
  sadd = λ k m s.
      (if has_member s.members k m then 0 else 1, record s { members = insert k m tt s.members });
  sadd_count = λ k m s. refl;
  sets-sadd = λ k m s. has_member-put k m s.members;
  zsets-sadd = λ k m s. refl;
  hashes-sadd = λ k m s. refl;
  srem = λ k m s.
      (if has_member s.members k m then 1 else 0, record s { members = erase k m s.members });
  srem_count = λ k m s. refl;
  sets-srem = λ k m s. has_member-erase k m s.members;
  zsets-srem = λ k m s. refl;
  hashes-srem = λ k m s. refl;
  smembers = λ k s. map (λ e. e.0) (row k s.members);
  contains-smembers = λ k m s. contains-row k m s.members;
  hset = λ k f v s. record s { fields = insert k f v s.fields };
  hashes-hset = λ k f v s. find-insert k f v s.fields;
  zsets-hset = λ k f v s. refl;
  sets-hset = λ k f v s. refl;
  hdel = λ k f s. record s { fields = erase k f s.fields };
  hashes-hdel = λ k f s. find-erase k f s.fields;
  zsets-hdel = λ k f s. refl;
  sets-hdel = λ k f s. refl;
  hgetall = λ k s. row k s.fields;
  hgetall_sound = λ k s. row_sound k s.fields;
  hgetall_complete = λ k f v s h. contains-row k f s.fields ∙ ap is_some h;
  hkeys = λ k s. map (λ e. e.0) (row k s.fields);
  contains-hkeys = λ k f s. contains-row k f s.fields;
  hlen = λ k s. length (row k s.fields);
  hlen-zero = λ k f s h. sym (find_in-row k f s.fields) ∙ find_in-length-zero f (row k s.fields) h;
}

-- the store with nothing in it
pub fresh : memory.Store
unfolding memory
fresh = record { sorted = []; members = []; fields = [] }

pub zsets-fresh : (k m : String) → memory.zsets fresh k m ≡ none
unfolding memory fresh find
zsets-fresh k m = refl

pub sets-fresh : (k m : String) → memory.sets fresh k m ≡ false
unfolding memory fresh find
sets-fresh k m = refl

pub hashes-fresh : (k f : String) → memory.hashes fresh k f ≡ none
unfolding memory fresh find
hashes-fresh k f = refl
