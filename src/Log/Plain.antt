-- ===== src/Log/Plain.antt =====
-- A line without a '%' is printed as it is, and the numbers in it bring none.
use cevent_sample.Prelude.{
  ℕ, zero, suc, ◌+◌, ◌-◌, ◌≡◌, refl, Bool, true, false, not, ◌&&◌, List, [], ◌∷◌, ◌++◌, ◌==◌, ltb,
  inl, inr, Bool-cases, Run, ret, length, take, ◌/◌, ◌%◌, arith, replicate,
}
use cevent_sample.Log.{
  Level, level_none, level_error, level_warn, level_info, level_debug, Line, level_text,
}
use cevent_sample.Log.Text.{Time, digits, decimal, padded, left_five, dated, place_text, fprintf}

-- whether there is no '%'
abbrev pub plain : List ℕ → Bool
plain [] = true
plain (x ∷ xs) = not (x == 37) && plain xs

pub plain-append : (xs ys : List ℕ) → plain xs ≡ true → plain ys ≡ true → plain (xs ++ ys) ≡ true
plain-append [] ys h g = g
plain-append (x ∷ xs) ys h g = ground (arith, plain-append xs ys)

pub plain-take : (n : ℕ) (xs : List ℕ) → plain xs ≡ true → plain (take n xs) ≡ true
plain-take zero xs h = refl
plain-take (suc n) [] h = refl
plain-take (suc n) (x ∷ xs) h = ground (arith, plain-take n xs)

pub plain-replicate : (n x : ℕ) → (x == 37) ≡ false → plain (replicate n x) ≡ true
plain-replicate zero x h = refl
plain-replicate (suc n) x h = ground (arith, plain-replicate n x h)

plain-digits : (fuel n : ℕ) → plain (digits fuel n) ≡ true
unfolding digits
plain-digits zero n = ground arith
plain-digits (suc fuel) n = elim (Bool-cases (ltb n 10)) [
  | inl small ↦ rw small (ground arith)
  | inr large ↦ rw large (
      plain-append (digits fuel (n / 10)) ((48 + n % 10) ∷ []) (plain-digits fuel (n / 10))
        (ground arith))
]

plain-padded : (w n : ℕ) (b : List ℕ) → plain b ≡ true → plain (padded w n ++ b) ≡ true
unfolding padded decimal
plain-padded w n b h =
    plain-append (padded w n) b
      (plain-append (replicate (w - length (digits n n)) 48) (digits n n)
        (plain-replicate (w - length (digits n n)) 48 refl) (plain-digits n n))
      h

pub plain-dated : (t : Time) (rest : List ℕ) → plain rest ≡ true → plain (dated t rest) ≡ true
unfolding dated
plain-dated t rest h = plain-padded 4 (t.tm_year + 1900) _ (
    plain-padded 2 (t.tm_mon + 1) _ (
      plain-padded 2 t.tm_mday _ (
        plain-padded 2 t.tm_hour _ (
          plain-padded 2 t.tm_min _
            (plain-padded 2 t.tm_sec _ (plain-padded 3 t.milliseconds _ h))))))

pub plain-left_five : (level : Level) → plain (left_five (level_text level)) ≡ true
unfolding left_five level_text
plain-left_five level_none = refl
plain-left_five level_error = refl
plain-left_five level_warn = refl
plain-left_five level_info = refl
plain-left_five level_debug = refl

-- A line without a '%' is printed as it is.
pub fprintf-plain :
    (conversion : List ℕ → Run (List ℕ)) (xs : List ℕ)
    → plain xs ≡ true
    → fprintf conversion xs ≡ ret xs
unfolding fprintf
fprintf-plain conversion [] h = refl
fprintf-plain conversion (x ∷ xs) h = elim (Bool-cases (x == 37)) [
  | inl percent ↦ absurd (ground arith)
  | inr other ↦ let same = fprintf-plain conversion xs (ground arith) in rw other (rw same refl)
]

plain-decimal : (n : ℕ) (b : List ℕ) → plain b ≡ true → plain (decimal n ++ b) ≡ true
unfolding decimal
plain-decimal n b h = plain-append (digits n n) b (plain-digits n n) h

pub plain-place_text :
    (line : Line)
    → plain line.file ≡ true
    → plain line.function ≡ true
    → plain (place_text line) ≡ true
unfolding place_text
plain-place_text line file function = plain-append line.file _ file (
    plain-append line.function _ function (plain-decimal line.number (41 ∷ 93 ∷ 13 ∷ 10 ∷ []) refl))
