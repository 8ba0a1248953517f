-- ===== src/Prelude/Bits.antt =====
-- Bit operations on small numbers as arithmetic: each fact is a table that evaluation checks.
use Prim.Native.Nat.{ℕ, zero, suc, ◌+◌, ◌*◌, ◌%◌, ◌<◌, bit_and, bit_or}
use mathlib.Core.Path.{◌≡◌, refl}
use mathlib.Core.Bool.{Bool, true, ◌&&◌}
use native.Mathlib.Omega.{arith}
use cevent_sample.Prelude.Tests.{◌==◌, ==_iff}

-- do two functions agree on the numbers below a bound, on the pairs below two bounds
unfoldable pub equal_below : (ℕ → ℕ) → (ℕ → ℕ) → ℕ → Bool
equal_below f g zero = true
equal_below f g (suc n) = f n == g n && equal_below f g n

equal_rows : (ℕ → ℕ → ℕ) → (ℕ → ℕ → ℕ) → ℕ → ℕ → Bool
equal_rows f g zero n = true
equal_rows f g (suc m) n = equal_below (f m) (g m) n && equal_rows f g m n

pub equal_below-at : (f g : ℕ → ℕ) (n i : ℕ) → equal_below f g n ≡ true → i < n → f i ≡ g i
unfolding equal_below
equal_below-at f g zero i e h = absurd (omega arith)
equal_below-at f g (suc n) i e h = ground (arith, ==_iff (f n) (g n), equal_below-at f g n i)

equal_rows-at :
    (f g : ℕ → ℕ → ℕ) (m n a b : ℕ) → equal_rows f g m n ≡ true → a < m → b < n → f a b ≡ g a b
unfolding equal_rows
equal_rows-at f g zero n a b e ha hb = absurd (omega arith)
equal_rows-at f g (suc m) n a b e ha hb =
    ground (arith, equal_below-at (f m) (g m) n b, equal_rows-at f g m n a b)

-- the low two, four and six bits of a byte
pub low_two : (x : ℕ) → x < 256 → bit_and x 3 ≡ x % 4
unfolding equal_below
low_two x h = equal_below-at (λ i. bit_and i 3) (λ i. i % 4) 256 x refl h

pub low_four : (x : ℕ) → x < 256 → bit_and x 15 ≡ x % 16
unfolding equal_below
low_four x h = equal_below-at (λ i. bit_and i 15) (λ i. i % 16) 256 x refl h

pub low_six : (x : ℕ) → x < 256 → bit_and x 63 ≡ x % 64
unfolding equal_below
low_six x h = equal_below-at (λ i. bit_and i 63) (λ i. i % 64) 256 x refl h

-- two fields of a byte, or of more, side by side
pub join_two : (a b : ℕ) → a < 64 → b < 4 → bit_or (a * 4) b ≡ a * 4 + b
unfolding equal_below equal_rows
join_two a b ha hb = equal_rows-at (λ a b. bit_or (a * 4) b) (λ a b. a * 4 + b) 64 4 a b refl ha hb

pub join_four : (a b : ℕ) → a < 64 → b < 16 → bit_or (a * 16) b ≡ a * 16 + b
unfolding equal_below equal_rows
join_four a b ha hb =
    equal_rows-at (λ a b. bit_or (a * 16) b) (λ a b. a * 16 + b) 64 16 a b refl ha hb

pub join_six : (a b : ℕ) → a < 64 → b < 64 → bit_or (a * 64) b ≡ a * 64 + b
unfolding equal_below equal_rows
join_six a b ha hb =
    equal_rows-at (λ a b. bit_or (a * 64) b) (λ a b. a * 64 + b) 64 64 a b refl ha hb
