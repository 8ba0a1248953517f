-- ===== src/Log/Layout.antt =====
-- The columns of a line: the time at its start, and what is cut off at its end.
use cevent_sample.Prelude.{
  ap₂, ◌^◌, ℕ, zero, suc, ◌+◌, ◌-◌, ◌<◌, ◌≡◌, refl, ap, ◌∙◌, List, [], ◌∷◌, ◌++◌, length, take,
  drop, arith, take-append_ge, take-append_le, take_all, take_eq,
}
use cevent_sample.Log.Text.{Time, padded, dated}
use cevent_sample.Log.Numbers.{number_from, number_from-padded, length-padded}

drop-field :
    (w : ℕ) (a : List ℕ) (x : ℕ) (b : List ℕ) → length a ≡ w → drop (suc w) (a ++ (x ∷ b)) ≡ b
drop-field zero [] x b h = refl
drop-field zero (y ∷ a) x b h = absurd (omega arith)
drop-field (suc w) [] x b h = absurd (omega arith)
drop-field (suc w) (y ∷ a) x b h = drop-field w a x b (omega arith)

-- the fields of some widths, one character between two of them, read as numbers
unfoldable pub read_fields : List ℕ → List ℕ → List ℕ
read_fields [] xs = []
read_fields (w ∷ ws) xs = number_from 0 (take w xs) ∷ read_fields ws (drop (suc w) xs)

read_then :
    (w n : ℕ) (ws : List ℕ) (x : ℕ) (b : List ℕ) {r : List ℕ}
    → n < 10 ^ suc w
    → read_fields ws b ≡ r
    → read_fields (suc w ∷ ws) (padded (suc w) n ++ (x ∷ b)) ≡ n ∷ r
unfolding read_fields
read_then w n ws x b h tail =
    let wide = length-padded w n h in
    let all : take (suc w) (padded (suc w) n ++ (x ∷ b)) ≡ padded (suc w) n =
      take-append_le (suc w) (padded (suc w) n) (x ∷ b) (omega (arith, wide))
      ∙ take_all (suc w) (padded (suc w) n) (omega (arith, wide)) in
    ap₂ ◌∷◌ (ap (number_from 0) all ∙ number_from-padded (suc w) n)
      (ap (read_fields ws) (drop-field (suc w) (padded (suc w) n) x b wide) ∙ tail)

read_none : (xs : List ℕ) → read_fields [] xs ≡ []
unfolding read_fields
read_none xs = refl

-- `take` over a field and the character behind it
take_then :
    (w n k m x : ℕ) (b : List ℕ) {r : List ℕ}
    → n < 10 ^ suc w
    → m ≡ suc w + suc k
    → take k b ≡ r
    → take m (padded (suc w) n ++ (x ∷ b)) ≡ padded (suc w) n ++ (x ∷ r)
take_then w n k m x b h at tail =
    let wide = length-padded w n h in
    take-append_ge m (padded (suc w) n) (x ∷ b) (omega (arith, wide, at))
    ∙ ap (◌++◌ (padded (suc w) n)) (
        take_eq {n = m - length (padded (suc w) n)} {m = suc k} (x ∷ b) (omega (arith, wide, at))
        ∙ ap (◌∷◌ x) tail)

-- what `localtime` gives until the year 9999
pub record IsTime (t : Time) : Type 0 where
  pub year : t.tm_year < 8100
  pub month : t.tm_mon < 12
  pub day : t.tm_mday < 32
  pub hour : t.tm_hour < 24
  pub minute : t.tm_min < 60
  pub second : t.tm_sec < 61
  pub millisecond : t.milliseconds < 1000

module _ (t : Time) (v : IsTime t) where
  pub read_dated :
      (rest : List ℕ)
      → read_fields (4 ∷ 2 ∷ 2 ∷ 2 ∷ 2 ∷ 2 ∷ 3 ∷ []) (dated t rest)
        ≡ (t.tm_year + 1900)
          ∷ (t.tm_mon + 1)
          ∷ t.tm_mday
          ∷ t.tm_hour
          ∷ t.tm_min
          ∷ t.tm_sec
          ∷ t.milliseconds
          ∷ []
  unfolding dated
  read_dated rest = read_then 3 (t.tm_year + 1900) _ _ _ (omega (arith, v.year)) (
      read_then 1 (t.tm_mon + 1) _ _ _ (omega (arith, v.month)) (
        read_then 1 t.tm_mday _ _ _ (omega (arith, v.day)) (
          read_then 1 t.tm_hour _ _ _ (omega (arith, v.hour)) (
            read_then 1 t.tm_min _ _ _ (omega (arith, v.minute)) (
              read_then 1 t.tm_sec _ _ _ (omega (arith, v.second)) (
                read_then 2 t.milliseconds _ _ _ (omega (arith, v.millisecond))
                  (read_none rest)))))))

  pub take-dated : (k : ℕ) (rest : List ℕ) → take (24 + k) (dated t rest) ≡ dated t (take k rest)
  unfolding dated
  take-dated k rest =
      take_then 3 (t.tm_year + 1900) (19 + k) _ _ _ (omega (arith, v.year)) (omega arith) (
        take_then 1 (t.tm_mon + 1) (16 + k) _ _ _ (omega (arith, v.month)) (omega arith) (
          take_then 1 t.tm_mday (13 + k) _ _ _ (omega (arith, v.day)) (omega arith) (
            take_then 1 t.tm_hour (10 + k) _ _ _ (omega (arith, v.hour)) (omega arith) (
              take_then 1 t.tm_min (7 + k) _ _ _ (omega (arith, v.minute)) (omega arith) (
                take_then 1 t.tm_sec (4 + k) _ _ _ (omega (arith, v.second)) (omega arith) (
                  take_then 2 t.milliseconds k _ _ _ (omega (arith, v.millisecond)) (omega arith)
                    refl))))))
