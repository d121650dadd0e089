-- ===== src/FixedWindowCounter/Log.antt =====
-- The times at which requests are let through, and how many fall into a window.
use pub_crawler.Base.{
  String, ℕ, suc, ◌/◌, ◌≤◌, ◌<◌, ◌≡◌, refl, List, [], ◌∷◌, ◌==◌, if◌then◌else◌, str_eq, arith, All,
}
use pub_crawler.Exec.{ok, raised}
use pub_crawler.FixedWindowCounter.{Counter, acquire_round, acquired, asleep}
use pub_crawler.FixedWindowCounter.Windows.{div-mul-le, le-div_of_mul-le}

-- how many of the times lie in window number `q`
unfoldable pub count_in : ℕ → ℕ → List ℕ → ℕ
count_in w q [] = 0
count_in w q (t ∷ ts) = if (t / w) == q then suc (count_in w q ts) else count_in w q ts

pub div_mono : (s t w : ℕ) → 0 < w → s ≤ t → s / w ≤ t / w
div_mono s t w h k = le-div_of_mul-le (s / w) t w h (omega (arith, div-mul-le s w))

pub count_in-zero :
    (w q t : ℕ) (ts : List ℕ) → 0 < w → All (λ x. x ≤ t) ts → t / w < q → count_in w q ts ≡ 0
unfolding count_in
count_in-zero w q t [] h a k = refl
count_in-zero w q t (s ∷ ts) h a k =
    ground (arith, div_mono s t w h a.0, count_in-zero w q t ts h a.1 k)

-- One call of the loop's body by some task.
pub record Round : Type 0 where
  pub origin : String
  pub first : ℕ
  pub second : ℕ
  pub third : ℕ

-- The state with the times at which requests to `o` were let through, newest first.
unfoldable pub follow : String → Round → Counter × List ℕ → Counter × List ℕ
follow o r (c, log) = elim (acquire_round r.origin r.first r.second r.third c) [
  | raised e ↦ (c, log)
  | ok (acquired, c') ↦ (c', if str_eq r.origin o then r.second ∷ log else log)
  | ok (asleep ms, c') ↦ (c', log)
]

unfoldable pub follow_all : String → List Round → Counter × List ℕ → Counter × List ℕ
follow_all o [] s = s
follow_all o (r ∷ rs) s = follow_all o rs (follow o r s)

-- the readings of a clock that does not go back, from `now` on
abbrev pub InOrder : ℕ → List Round → Type 0
InOrder now [] = Unit
InOrder now (r ∷ rs) =
    (now ≤ r.first) × (r.first ≤ r.second) × (r.second ≤ r.third) × InOrder r.third rs
