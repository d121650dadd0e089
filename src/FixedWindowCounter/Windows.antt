-- ===== src/FixedWindowCounter/Windows.antt =====
-- Windows of time.
use pub_crawler.Base.{ℕ, ◌+◌, ◌*◌, ◌/◌, ◌≤◌, ◌<◌, arith}

pub div-mul-le : (t w : ℕ) → (t / w) * w ≤ t
div-mul-le t w = omega arith

pub lt-div-mul : (t w : ℕ) → 0 < w → t < (t / w) * w + w
lt-div-mul t w h = omega arith

pub le-div_of_mul-le : (q t w : ℕ) → 0 < w → q * w ≤ t → q ≤ t / w
le-div_of_mul-le q t w h k = grind arith

pub div-lt_of_lt-mul : (t q w : ℕ) → 0 < w → t < q * w → t / w < q
div-lt_of_lt-mul t q w h k = grind (arith, div-mul-le t w)

mul-le : (a b w : ℕ) → a ≤ b → a * w ≤ b * w
mul-le a b w h = grind arith

-- a time before the end of a window lies before the start of the window of any time after that end
pub lt-start_of_end-le : (t f g w : ℕ) → 0 < w → t ≤ f → (f / w) * w + w ≤ g → t < (g / w) * w
lt-start_of_end-le t f g w h a b = omega (
  arith,
  lt-div-mul f w h,
  mul-le (f / w + 1) (g / w) w (le-div_of_mul-le (f / w + 1) g w h (grind arith)),
)
