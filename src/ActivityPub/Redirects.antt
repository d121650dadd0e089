-- ===== src/ActivityPub/Redirects.antt =====
-- However servers redirect, a document takes a bounded number of requests.
use pub_crawler.Base.{
  String, ◌++◌, ℕ, zero, suc, ◌+◌, ◌≤◌, ◌≡◌, refl, subst, Bool, true, false, Option, none, some,
  arith, leb, ltb, ◌&&◌, if◌then◌else◌,
}
use pub_crawler.Exec.{Result, ok, raised, Exec, pure, lift, continue_with, ◌>>=◌, ◌>>◌}
use pub_crawler.ActivityPub.{
  Parts, Response, Network, Headers, Answer, redirect, on_response, one_request, acquire_all,
  request_headers, read_body, get_from, get_with_headers,
}

module _ {S : Type 0} (sent : S → ℕ) where
  -- a coroutine in which no more than `k` requests are sent
  pub record Sends {A : Type 0} (k : ℕ) (m : Exec S A) : Type 0 where
    pub bound : (s : S) → sent (m s).1 ≤ sent s + k

  lift-Sends : {A : Type 0} (k : ℕ) (r : Result A) → Sends k (lift r)
  lift-Sends k r = record { bound = λ s. omega arith }

  continue_with-le :
      {A B : Type 0} (k : ℕ) (f : A → Exec S B) (r : Result A) (t : S)
      → ((a : A) → Sends k (f a))
      → sent (continue_with f r t).1 ≤ sent t + k
  continue_with-le k f (ok a) t l = (l a).bound t
  continue_with-le k f (raised e) t l = omega arith

  bind-Sends :
      {A B : Type 0} (j k n : ℕ) (m : Exec S A) (f : A → Exec S B)
      → j + k ≤ n
      → Sends j m
      → ((a : A) → Sends k (f a))
      → Sends n (m >>= f)
  bind-Sends j k n m f h a l = record {
    bound = λ s. omega (arith, continue_with-le k f (m s).0 (m s).1 l, a.bound s);
  }

  free-Sends :
      {A B : Type 0} (n : ℕ) (m : Exec S A) (f : A → Exec S B)
      → Sends 0 m
      → ((a : A) → Sends n (f a))
      → Sends n (m >>= f)
  free-Sends n m f a l = bind-Sends 0 n n m f (omega arith) a l

  if-Sends :
      {A : Type 0} (k : ℕ) (b : Bool) (m n : Exec S A)
      → Sends k m
      → Sends k n
      → Sends k (if b then m else n)
  if-Sends k true m n a c = a
  if-Sends k false m n a c = c

some_injective : {A : Type 0} {x y : A} → ◌≡◌ {A = Option A} (some x) (some y) → x ≡ y
some_injective h = cc

-- Of what the client uses, only `send` sends a request, and it sends one.
module _ {S : Type 0} (sent : S → ℕ) (net : Network S)
    (free_paged : (o : String) → Sends sent 0 (net.paged o))
    (free_general : (o : String) → Sends sent 0 (net.general o))
    (free_burst : (o : String) → Sends sent 0 (net.burst o)) (free_date : Sends sent 0 net.date)
    (one : (url : String) (h : Headers) → Sends sent 1 (net.send url h)) where
  abbrev asked : Option (String → Exec S Answer) → String → Exec S Answer
  asked = one_request net

  abbrev answered : Option (String → Exec S Answer) → String → Response → Exec S Answer
  answered = on_response net

  acquire_all-Sends : (parts : Parts) → Sends sent 0 (acquire_all net parts)
  unfolding acquire_all
  acquire_all-Sends parts =
      free-Sends sent 0
        ((if parts.paged then net.paged ("https://" ++ parts.netloc) else pure tt)
          >> net.general ("https://" ++ parts.netloc))
        _
        (free-Sends sent 0 (if parts.paged then net.paged ("https://" ++ parts.netloc) else pure tt)
          _
          (if-Sends sent 0 parts.paged (net.paged ("https://" ++ parts.netloc)) (pure tt)
            (free_paged ("https://" ++ parts.netloc)) (lift-Sends sent 0 (ok tt)))
          (λ u. free_general ("https://" ++ parts.netloc)))
        (λ u. free_burst ("https://" ++ parts.netloc))

  redirect-Sends :
      (k : ℕ) (again : Option (String → Exec S Answer)) (url : String) (location : Option String)
      → ((f : String → Exec S Answer) → again ≡ some f → (u : String) → Sends sent k (f u))
      → Sends sent k (redirect net again url location)
  unfolding redirect
  redirect-Sends k none url location h = lift-Sends sent k (raised _)
  redirect-Sends k (some f) url none h = lift-Sends sent k (raised _)
  redirect-Sends k (some f) url (some l) h =
      free-Sends sent k (lift (net.urljoin url l)) f (lift-Sends sent 0 (net.urljoin url l))
        (h f refl)

  response-Sends :
      (k : ℕ) (again : Option (String → Exec S Answer)) (url : String) (response : Response)
      → ((f : String → Exec S Answer) → again ≡ some f → (u : String) → Sends sent k (f u))
      → Sends sent k (answered again url response)
  unfolding on_response
  response-Sends k again url response h =
      if-Sends sent k (leb 300 response.status && ltb response.status 400) _ _
        (redirect-Sends k again url (response.header "location") h)
        (lift-Sends sent k (read_body net response))

  request-Sends :
      (k : ℕ) (again : Option (String → Exec S Answer)) (url : String)
      → ((f : String → Exec S Answer) → again ≡ some f → (u : String) → Sends sent k (f u))
      → Sends sent (suc k) (asked again url)
  unfolding one_request
  request-Sends k again url h =
      free-Sends sent (suc k) (lift (net.urlsplit url)) _ (lift-Sends sent 0 (net.urlsplit url))
        λ parts. free-Sends sent (suc k) net.date _ free_date λ now.
          free-Sends sent (suc k) (acquire_all net parts) _ (acquire_all-Sends parts) λ u.
            bind-Sends sent 1 k (suc k) (net.send url (request_headers net now parts)) _
              (omega arith) (one url _) λ response. response-Sends k again url response h

  get_from-Sends : (left : ℕ) (url : String) → Sends sent (suc left) (get_from net left url)
  unfolding get_from
  get_from-Sends zero url = request-Sends 0 none url (λ f e. absurd (cc))
  get_from-Sends (suc left) url =
      request-Sends (suc left) (some (get_from net left)) url (λ f e u.
        subst (λ g. Sends sent (suc left) (g u)) (some_injective e) (get_from-Sends left u))

  -- However servers answer and redirect, with a client of which only `send` sends requests, one a
  -- call: `get_with_headers` always ends, and sends 21 requests at most.
  pub get_with_headers-Sends : (url : String) → Sends sent 21 (get_with_headers net url)
  unfolding get_with_headers
  get_with_headers-Sends url = get_from-Sends 20 url
