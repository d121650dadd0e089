-- ===== src/Exec.antt =====
-- Coroutines that change shared state and may raise: what was done before an exception stays done.
-- `await` is sequencing; the exceptions are those that the program tells apart.
pub mod Fallible
use pub_crawler.Base.{String, ℕ, List, [], ◌∷◌}

pub data Error : Type 0 where
  -- httpx.HTTPStatusError, with `response.status_code`
  http_status : ℕ → Error
  -- KeyError, with the key
  key_error : String → Error
  type_error value_error attribute_error : Error
  -- `Exception`, with its message
  exception : String → Error
  -- httpx.TooManyRedirects
  too_many_redirects : Error
  -- any other exception of a library
  other : String → Error

pub data Result {ℓ} (A : Type ℓ) : Type ℓ where
  ok : A → Result A
  raised : Error → Result A

abbrev pub Exec {ℓ} : Type ℓ → Type ℓ → Type ℓ
Exec S A = S → Result A × S

module _ {ℓ} {S A : Type ℓ} where
  abbrev pub pure : A → Exec S A
  pure a s = (ok a, s)

  abbrev pub raise : Error → Exec S A
  raise e s = (raised e, s)

  -- a computation on values that may raise
  abbrev pub lift : Result A → Exec S A
  lift r s = (r, s)

  abbrev pub gets : (S → A) → Exec S A
  gets f s = (ok (f s), s)

  -- a call that always returns
  abbrev pub act : (S → A × S) → Exec S A
  act f s = let (a, s') = f s in (ok a, s')

abbrev pub modify {ℓ} : {S : Type ℓ} → (S → S) → Exec S Unit
modify f s = (ok tt, f s)

module _ {ℓ} {S A B : Type ℓ} where
  abbrev pub continue_with : (A → Exec S B) → Result A → Exec S B
  continue_with f (ok a) s = f a s
  continue_with f (raised e) s = (raised e, s)

  infixl 5 ◌>>=◌ ◌>>◌
  abbrev pub ◌>>=◌ : Exec S A → (A → Exec S B) → Exec S B
  ◌>>=◌ m f s = let (r, s') = m s in continue_with f r s'

  abbrev pub ◌>>◌ : Exec S A → Exec S B → Exec S B
  m >> n = m >>= λ _. n

module _ {ℓ} {S A : Type ℓ} where
  abbrev handle_with : (Error → Exec S A) → Result A → Exec S A
  handle_with f (ok a) s = (ok a, s)
  handle_with f (raised e) s = f e s

  -- `try: m  except Exception as e: f e`
  abbrev pub catch : Exec S A → (Error → Exec S A) → Exec S A
  catch m f s = let (r, s') = m s in handle_with f r s'

-- `for x in xs: f x`
unfoldable pub for_each {ℓ} : {S A : Type ℓ} → List A → (A → Exec S Unit) → Exec S Unit
for_each [] f = pure tt
for_each (x ∷ xs) f = f x >> for_each xs f
