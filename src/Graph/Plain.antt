-- ===== src/Graph/Plain.antt =====
-- A cache that forgets nothing and a plain database: what is assumed of the libraries can be met.
use mathlib.Core.Option
use mathlib.Core.List.{◌++◌}
use pub_crawler.Base.{
  String, ℕ, ◌≡◌, ◌≢◌, refl, subst, ◌⊎◌, inl, inr, Bool, true, Option, none, some, List, [], ◌∷◌,
  sym, ◌==◌, str_eq, eq_iff, if◌then◌else◌, arith, Bool-cases,
}
use pub_crawler.Exec.{Result, ok, raised, type_error}
use pub_crawler.Exec.Fallible.{ok_injective, ◌>>=◌, >>=-ok}
use pub_crawler.Json.{Value, Dict, dict, empty, entry, get}
use pub_crawler.Platform.{Platform}
use pub_crawler.Graph.Libraries.{Lru, Postgres, value_in, Reads}

module _ {K V : Type 0} (test : K → K → Bool) (sound : (k j : K) → test k j ≡ true → k ≡ j)
    (complete : (k : K) → test k k ≡ true) where
  abbrev with_entry : K → Option V → (K → Option V) → K → Option V
  with_entry k v c j = if test k j then v else c j

  pub put_entry :
      (k j : K) (v w : V) (c : K → Option V)
      → with_entry k (some v) c j ≡ some w
      → ((k ≡ j) × (v ≡ w)) ⊎ (c j ≡ some w)
  put_entry k j v w c h = elim (Bool-cases (test k j)) [
    | inl same ↦ inl (sound k j same, some_injective (rw same at h))
    | inr other ↦ inr (rw other at h)
  ]
    where
      some_injective : ◌≡◌ {A = Option V} (some v) (some w) → v ≡ w
      some_injective e = cc

  pub drop_entry :
      (k j : K) (w : V) (c : K → Option V)
      → with_entry k none c j ≡ some w
      → (k ≢ j) × (c j ≡ some w)
  drop_entry k j w c h = elim (Bool-cases (test k j)) [
    | inl same ↦ absurd (cc (rw same at h))
    | inr other ↦
        (λ e. absurd (cc (other, subst (λ x. test k x ≡ true) e (complete k))), rw other at h)
  ]

  abbrev pub full_cache : Lru K V
  full_cache = record {
    Cache = K → Option V;
    cached = λ k c. c k;
    read = λ k c. c;
    put = λ k v c. with_entry k (some v) c;
    drop = λ k c. with_entry k none c;
    cached-read = λ k j c. refl;
    cached-put = put_entry;
    cached-drop = drop_entry;
  }

abbrev pub by_label : Lru String ℕ
by_label = full_cache str_eq (λ k j h. (eq_iff k j).0 h) (λ k. (eq_iff k k).1 refl)

pub id_sound : (i j : ℕ) → (i == j) ≡ true → i ≡ j
id_sound i j h = ground arith

pub id_complete : (i : ℕ) → (i == i) ≡ true
id_complete i = ground arith

abbrev pub by_id : Lru ℕ String
by_id = full_cache (λ i j. i == j) id_sound id_complete

module _ (p : Platform) where
  -- the entries of a dictionary, the first last
  unfoldable pub texts : Dict → Result (List (String × String))
  texts empty = ok []
  texts (entry k v d) = do text ← p.dumps_unsorted v; rest ← texts d; ok (rest ++ ((k, text) ∷ []))

  texts_of : Value → Result (List (String × String))
  unfolding texts
  texts_of (dict d) = texts d
  texts_of v = raised type_error

  pub plain_each : String → Result (List (String × String))
  unfolding texts_of
  plain_each s = do v ← p.loads s; texts_of v

  pub plain_each_lem :
      (d : Dict) (s : String) → p.dumps_unsorted (dict d) ≡ ok s → plain_each s ≡ texts d
  unfolding plain_each texts_of
  plain_each_lem d s e = rw (p.loads-dumps_unsorted (dict d) s e) refl

  value_in-append :
      (j k text : String) (rows : List (String × String))
      → value_in j (rows ++ ((k, text) ∷ [])) ≡ (if str_eq k j then some text else value_in j rows)
  unfolding value_in
  value_in-append j k text [] = ground arith
  value_in-append j k text ((n, t) ∷ rows) = ground (arith, value_in-append j k text rows)

  texts-get :
      (d : Dict) (kvs : List (String × String))
      → texts d ≡ ok kvs
      → (k : String) → Reads p.loads (value_in k kvs) (Option.map (λ v. v) (get d k))
  unfolding texts get value_in
  texts-get empty kvs h k = rw (sym (ok_injective h)) tt
  texts-get (entry j v d) kvs h k =
      let (text, dumped, h) =
        >>=-ok (p.dumps_unsorted v) (λ text. do rest ← texts d; ok (rest ++ ((j, text) ∷ []))) h in
      let (rest, e, h) = >>=-ok (texts d) (λ rest. ok (rest ++ ((j, text) ∷ []))) h in
      rw (sym (ok_injective h), value_in-append k j text rest)
        (elim (Bool-cases (str_eq j k)) [
          | inl same ↦ rw same (p.loads-dumps_unsorted v text dumped)
          | inr other ↦ rw other (texts-get d rest e k)
        ])

  pub each_lem :
      (d : Dict) (s : String) (kvs : List (String × String))
      → p.dumps_unsorted (dict d) ≡ ok s
      → plain_each s ≡ ok kvs
      → (k : String) → Reads p.loads (value_in k kvs) (Option.map (λ v. v) (get d k))
  unfolding plain_each texts_of
  each_lem d s kvs e h k = texts-get d kvs (rw (p.loads-dumps_unsorted (dict d) s e) at h) k

  abbrev pub plain_postgres : Postgres p
  plain_postgres = record {
    varchar = λ n s. ok s;
    jsonb = λ s. ok s;
    each = plain_each;
    each-get = each_lem;
    object_agg = λ kvs. "{}";
    same = str_eq;
    stored = λ v. v;
    loads-jsonb =
        λ v s t d e. subst (λ x. p.loads x ≡ ok v) (ok_injective e) (p.loads-dumps_unsorted v s d);
    stored-null = refl;
    stored-bool = λ b. refl;
    stored-int = λ n. refl;
    stored-str = λ s. refl;
  }
