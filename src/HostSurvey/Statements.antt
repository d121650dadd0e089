-- ===== src/HostSurvey/Statements.antt =====
-- The statements on several rows keep the tables sound and the hosts that were there.
use pub_crawler.Base.{
  String, ℕ, ◌≡◌, refl, sym, ap, ◌∙◌, subst, Bool, true, Option, none, some, List, [], ◌∷◌, arith,
  Bool-cases, inl, inr, All, Option-cases, In, first, later, All-of-In,
}
use pub_crawler.Exec.{Result, ok}
use pub_crawler.Exec.Fallible.{ok_injective, >>=-ok}
use pub_crawler.Platform.{Platform}
use pub_crawler.Graph.Libraries.{Postgres}
use pub_crawler.Graph.Schema.{select, find_row, exists}
use pub_crawler.Graph.Rows.{All-select}
use pub_crawler.HostSurvey.Schema.{
  Host, Tables, has_name, has_host_id, select_host, insert_host, put_host_property,
  insert_host_property, insert_hosts, insert_each, insert_host_properties, insert_hosts_property,
}
use pub_crawler.HostSurvey.Sound.{
  IsSound, Keeps, insert_host-IsSound, insert_host-Keeps, put_host_property-IsSound,
}

-- What a statement that returned has kept.
pub record Kept (t u : Tables) : Type 0 where
  pub sound : IsSound u
  pub keeps : Keeps t u

-- a statement that keeps the tables sound and the hosts, where it returns
abbrev pub IsKeeping : (Tables → Result Tables) → Type 0
IsKeeping f = (t u : Tables) → IsSound t → f t ≡ ok u → Kept t u

keep : (t u : Tables) → t ≡ u → IsSound t → Kept t u
keep t u e w = subst (Kept t) e (record { sound = w; keeps = λ n i h. h })

Kept-trans : (t u v : Tables) → Keeps t u → Kept u v → Kept t v
Kept-trans t u v k r = record { sound = r.sound; keeps = λ n i h. r.keeps n i (k n i h) }

host-put :
    (i : ℕ) (name value : String) (t : Tables) → (put_host_property i name value t).host ≡ t.host
unfolding put_host_property
host-put i name value t = refl

put-Keeps : (i : ℕ) (name value : String) (t : Tables) → Keeps t (put_host_property i name value t)
unfolding put_host_property select_host
put-Keeps i name value t n j h = h

pub insert_host_property-IsKeeping :
    (i : Option ℕ) (name value : String) → IsKeeping (insert_host_property i name value)
unfolding insert_host_property
insert_host_property-IsKeeping none name value t u w h = absurd (cc)
insert_host_property-IsKeeping (some i) name value t u w h =
    elim (Bool-cases (exists (has_host_id i) t.host)) [
      | inr absent ↦ absurd (cc (rw absent at h))
      | inl there ↦
          let e : put_host_property i name value t ≡ u = ok_injective (rw there at h) in
          subst (Kept t) e (record {
            sound = put_host_property-IsSound t w i name value there;
            keeps = put-Keeps i name value t;
          })
    ]

module _ {p : Platform} (pg : Postgres p) where
  pub insert_hosts-IsKeeping : (ns : List String) → IsKeeping (insert_hosts pg ns)
  unfolding insert_hosts
  insert_hosts-IsKeeping [] t u w h = keep t u (ok_injective h) w
  insert_hosts-IsKeeping (n ∷ ns) t u w h =
      let (m, _, e) = >>=-ok (pg.varchar 256 n) (λ m. insert_hosts pg ns (insert_host m t)) h in
      Kept-trans t (insert_host m t) u (insert_host-Keeps t w m)
        (insert_hosts-IsKeeping ns (insert_host m t) u (insert_host-IsSound t w m) e)

  pub insert_each-Kept :
      (i : ℕ) (kvs : List (String × String)) (t u : Tables)
      → exists (has_host_id i) t.host ≡ true
      → IsSound t
      → insert_each pg i kvs t ≡ ok u
      → Kept t u
  unfolding insert_each
  insert_each-Kept i [] t u there w h = keep t u (ok_injective h) w
  insert_each-Kept i ((name, value) ∷ kvs) t u there w h =
      let (m, _, e) =
        >>=-ok (pg.varchar 32 name) (λ m. insert_each pg i kvs (put_host_property i m value t)) h in
      Kept-trans t (put_host_property i m value t) u (put-Keeps i m value t) (
        insert_each-Kept i kvs (put_host_property i m value t) u
          (ap (exists (has_host_id i)) (host-put i m value t) ∙ there)
          (put_host_property-IsSound t w i m value there) e)

  found_by_id :
      (f : Host → Bool) (h : Host) (hs : List Host)
      → find_row f hs ≡ some h
      → exists (has_host_id h.id) hs ≡ true
  unfolding find_row
  found_by_id f h [] e = absurd (cc)
  found_by_id f h (k ∷ hs) e = ground (arith, found_by_id f h hs)

  pub insert_host_properties-IsKeeping :
      (n : String) (kvs : List (String × String))
      → IsKeeping (λ t. insert_host_properties pg (find_row (has_name n) t.host) kvs t)
  unfolding insert_host_properties
  insert_host_properties-IsKeeping n kvs t u w h =
      elim (Option-cases (find_row (has_name n) t.host)) [
        | inl absent ↦ keep t u (ok_injective (rw (absent, insert_host_properties) at h)) w
        | inr (k, found) ↦
            insert_each-Kept k.id kvs t u (found_by_id (has_name n) k t.host found) w
              (rw (found, insert_host_properties) at h)
      ]

  In-exists : {h : Host} {hs : List Host} → In h hs → exists (has_host_id h.id) hs ≡ true
  unfolding find_row
  In-exists first = ground arith
  In-exists (later i) = ground (arith, In-exists i)

  -- the rows are rows of the table
  abbrev AllFound : List Host → List Host → Type 0
  AllFound all hs = All (λ h. exists (has_host_id h.id) all ≡ true) hs

  AllFound-select : (f : Host → Bool) (hs : List Host) → AllFound hs (select f hs)
  AllFound-select f hs =
      All-select (λ h. exists (has_host_id h.id) hs ≡ true) f hs
        (All-of-In (λ h. exists (has_host_id h.id) hs ≡ true) hs (λ h i. In-exists i))

  insert_rows-Kept :
      (hs : List Host) (name value : String) (t u : Tables)
      → AllFound t.host hs
      → IsSound t
      → insert_hosts_property pg hs name value t ≡ ok u
      → Kept t u
  unfolding insert_hosts_property
  insert_rows-Kept [] name value t u a w h = keep t u (ok_injective h) w
  insert_rows-Kept (k ∷ hs) name value t u a w h =
      let (m, _, e) =
        >>=-ok (pg.varchar 32 name)
          (λ m. insert_hosts_property pg hs name value (put_host_property k.id m value t)) h in
      Kept-trans t (put_host_property k.id m value t) u (put-Keeps k.id m value t) (
        insert_rows-Kept hs name value (put_host_property k.id m value t) u
          (subst (λ x. AllFound x hs) (sym (host-put k.id m value t)) a.1)
          (put_host_property-IsSound t w k.id m value a.0) e)

  pub insert_hosts_property-IsKeeping :
      (f : Host → Bool) (name value : String)
      → IsKeeping (λ t. insert_hosts_property pg (select f t.host) name value t)
  insert_hosts_property-IsKeeping f name value t u w h =
      insert_rows-Kept (select f t.host) name value t u (AllFound-select f t.host) w h
