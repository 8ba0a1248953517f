-- ===== src/Log/Numbers.antt =====
-- A number is read back from its digits, and a field has the width that its format names.
use native.Mathlib.Omega.{pow_step}
use cevent_sample.Prelude.{
  ℕ, zero, suc, ◌+◌, ◌-◌, ◌*◌, ◌/◌, ◌%◌, ◌^◌, ◌≤◌, ◌<◌, ◌≡◌, refl, ap, ◌∙◌, List, [], ◌∷◌, ◌++◌,
  inl, inr, Bool-cases, ltb, length, length-append, length-replicate, replicate, arith,
}
use cevent_sample.Log.Text.{digits, decimal, padded}

-- the number that some digits stand for, behind those that made `n`
abbrev pub number_from : ℕ → List ℕ → ℕ
number_from n [] = n
number_from n (x ∷ xs) = number_from (n * 10 + (x - 48)) xs

pub number_from-append :
    (n : ℕ) (xs ys : List ℕ) → number_from n (xs ++ ys) ≡ number_from (number_from n xs) ys
number_from-append n [] ys = refl
number_from-append n (x ∷ xs) ys = number_from-append (n * 10 + (x - 48)) xs ys

number_from-digits : (fuel n : ℕ) → n ≤ fuel → number_from 0 (digits fuel n) ≡ n
unfolding digits
number_from-digits zero n h = omega arith
number_from-digits (suc fuel) n h = elim (Bool-cases (ltb n 10)) [
  | inl small ↦ rw small (omega arith)
  | inr large ↦
      let less : n / 10 ≤ fuel = ground arith in
      rw large (
        number_from-append 0 (digits fuel (n / 10)) ((48 + n % 10) ∷ [])
        ∙ omega (arith, number_from-digits fuel (n / 10) less))
]

-- Enough fuel leaves fewer digits than the number has places.
length-digits : (w fuel n : ℕ) → n ≤ fuel → n < 10 ^ suc w → length (digits fuel n) ≤ suc w
unfolding digits
length-digits w zero n h lt = omega arith
length-digits zero (suc fuel) n h lt = ground arith
length-digits (suc w) (suc fuel) n h lt = elim (Bool-cases (ltb n 10)) [
  | inl small ↦ rw small (omega arith)
  | inr large ↦
      let less : n / 10 ≤ fuel = ground arith in
      let fewer : n / 10 < 10 ^ suc w = omega (arith, lt, pow_step 10 (suc w)) in
      rw large (
        omega (
          arith,
          length-append (digits fuel (n / 10)) ((48 + n % 10) ∷ []),
          length-digits w fuel (n / 10) less fewer,
        ))
]

number_from-zeros : (k : ℕ) → number_from 0 (replicate k 48) ≡ 0
number_from-zeros zero = refl
number_from-zeros (suc k) = number_from-zeros k

pub number_from-padded : (w n : ℕ) → number_from 0 (padded w n) ≡ n
unfolding padded decimal
number_from-padded w n =
    number_from-append 0 (replicate (w - length (digits n n)) 48) (digits n n)
    ∙ ap (λ m. number_from m (digits n n)) (number_from-zeros (w - length (digits n n)))
    ∙ number_from-digits n n (omega arith)

pub length-padded : (w n : ℕ) → n < 10 ^ suc w → length (padded (suc w) n) ≡ suc w
unfolding padded decimal
length-padded w n lt = omega (
  arith,
  length-append (replicate (suc w - length (digits n n)) 48) (digits n n),
  length-replicate {A = ℕ} (suc w - length (digits n n)) 48,
  length-digits w n n (omega arith) lt,
)
