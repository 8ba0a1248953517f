-- ===== src/Base64/RoundTrip.antt =====
-- The decoder gives back what was encoded. `encoded` are the digits of some bytes with no padding.
use cevent_sample.Prelude.{
  ℕ, suc, ◌+◌, ◌*◌, ◌/◌, ◌%◌, ◌<◌, ◌≡◌, ◌≢◌, refl, ap, ap₂, arith, bit_and, List, [], ◌∷◌, Bool,
  true, false, some, ◌==◌, take,
}
use cevent_sample.Prelude.Bits.{low_two, low_four, low_six, join_two, join_four, join_six}
use cevent_sample.Base64.{
  nth, pad, digit0, digit1, digit2, digit3, byte0, byte1, byte2, ngx_encode_base64_internal,
  count_digits, decode_digits, decode_counted, ngx_decode_base64_internal,
}

abbrev pub All : (ℕ → Type 0) → List ℕ → Type 0
All P [] = Unit
All P (x ∷ xs) = P x × All P xs

abbrev pub IsByte : ℕ → Type 0
IsByte x = x < 256

-- the digits in plain arithmetic
digit0_lem : (a : ℕ) → a < 256 → digit0 a ≡ a / 4
digit0_lem a ha = omega (arith, low_six (a / 4) (omega arith))

digit1_lem : (a b : ℕ) → a < 256 → b < 256 → digit1 a b ≡ a % 4 * 16 + b / 16
digit1_lem a b ha hb = rw (low_two a ha) (join_four (a % 4) (b / 16) (omega arith) (omega arith))

digit2_lem : (b c : ℕ) → b < 256 → c < 256 → digit2 b c ≡ b % 16 * 4 + c / 64
digit2_lem b c hb hc = rw (low_four b hb) (join_two (b % 16) (c / 64) (omega arith) (omega arith))

-- what the decoder makes of digits
byte0_lem : (p q : ℕ) → p < 64 → q < 64 → byte0 p q ≡ p * 4 + q / 16
byte0_lem p q hp hq = omega (arith, join_two p (q / 16) hp (omega arith))

byte1_lem : (q r : ℕ) → q < 64 → r < 64 → byte1 q r ≡ q % 16 * 16 + r / 4
byte1_lem q r hq hr = omega (arith, join_four q (r / 4) hq (omega arith))

byte2_lem : (r s : ℕ) → r < 64 → s < 64 → byte2 r s ≡ r % 4 * 64 + s
byte2_lem r s hr hs = omega (arith, join_six r s hr hs)

-- A table of the decoder that undoes one of the encoder: a digit is found again, and is no '='.
pub record IsInverse (encode decode : List ℕ) : Type 0 where
  pub found : (v : ℕ) → v < 64 → nth decode (nth encode v) ≡ v
  pub not_pad : (v : ℕ) → v < 64 → nth encode v ≢ 61

-- how many digits the bytes have
abbrev pub digits : List ℕ → ℕ
digits [] = 0
digits (a ∷ []) = 2
digits (a ∷ b ∷ []) = 3
digits (a ∷ b ∷ c ∷ src) = suc (suc (suc (suc (digits src))))

digits_shape : (src : List ℕ) → (digits src % 4 == 1) ≡ false
digits_shape [] = refl
digits_shape (a ∷ []) = refl
digits_shape (a ∷ b ∷ []) = refl
digits_shape (a ∷ b ∷ c ∷ src) = ground (arith, digits_shape src)

module _ (encode decode : List ℕ) (inverse : IsInverse encode decode) where
  -- the decoder's first loop counts `n` digits
  record HasDigits (n : ℕ) (xs : List ℕ) : Type 0 where
    counted : count_digits xs decode ≡ some n

  digit :
      (v : ℕ) {n : ℕ} {xs : List ℕ}
      → v < 64
      → HasDigits n xs
      → HasDigits (suc n) (nth encode v ∷ xs)
  unfolding count_digits
  digit v hv h = record {
    counted = ground (arith, h.counted, inverse.found v hv, inverse.not_pad v hv);
  }

  no_digit : (p : Bool) → HasDigits 0 (pad p [])
  unfolding count_digits
  no_digit true = record { counted = refl }
  no_digit false = record { counted = refl }

  no_digits : (p : Bool) → HasDigits 0 (pad p (pad p []))
  unfolding count_digits
  no_digits true = record { counted = refl }
  no_digits false = record { counted = refl }

  encode-HasDigits :
      (src : List ℕ) (p : Bool)
      → All IsByte src
      → HasDigits (digits src) (ngx_encode_base64_internal src encode p)
  unfolding ngx_encode_base64_internal count_digits
  encode-HasDigits [] p h = record { counted = refl }
  encode-HasDigits (a ∷ []) p (ha, _) =
      digit (digit0 a) (omega (arith, digit0_lem a ha))
        (digit (bit_and a 3 * 16) (omega (arith, low_two a ha)) (no_digits p))
  encode-HasDigits (a ∷ b ∷ []) p (ha, (hb, _)) =
      digit (digit0 a) (omega (arith, digit0_lem a ha)) (
        digit (digit1 a b) (omega (arith, digit1_lem a b ha hb))
          (digit (bit_and b 0x0f * 4) (omega (arith, low_four b hb)) (no_digit p)))
  encode-HasDigits (a ∷ b ∷ c ∷ src) p (ha, (hb, (hc, h))) =
      digit (digit0 a) (omega (arith, digit0_lem a ha)) (
        digit (digit1 a b) (omega (arith, digit1_lem a b ha hb)) (
          digit (digit2 b c) (omega (arith, digit2_lem b c hb hc))
            (digit (digit3 c) (omega (arith, low_six c hc)) (encode-HasDigits src p h))))

  take_encoded :
      (src : List ℕ) (p : Bool)
      → take (digits src) (ngx_encode_base64_internal src encode p)
        ≡ ngx_encode_base64_internal src encode false
  unfolding ngx_encode_base64_internal
  take_encoded [] p = refl
  take_encoded (a ∷ []) p = refl
  take_encoded (a ∷ b ∷ []) p = refl
  take_encoded (a ∷ b ∷ c ∷ src) p = simp (take_encoded src p)

  first_decoded :
      (a k x y : ℕ)
      → a < 256
      → k < 16
      → x ≡ a / 4
      → y ≡ a % 4 * 16 + k
      → byte0 (nth decode (nth encode x)) (nth decode (nth encode y)) ≡ a
  first_decoded a k x y ha hk hx hy = rw (inverse.found x (omega arith)) (
      rw (inverse.found y (omega arith)) (omega (arith, byte0_lem x y (omega arith) (omega arith))))

  second_decoded :
      (j b k y z : ℕ)
      → b < 256
      → j < 4
      → k < 4
      → y ≡ j * 16 + b / 16
      → z ≡ b % 16 * 4 + k
      → byte1 (nth decode (nth encode y)) (nth decode (nth encode z)) ≡ b
  second_decoded j b k y z hb hj hk hy hz = rw (inverse.found y (omega arith)) (
      rw (inverse.found z (omega arith)) (omega (arith, byte1_lem y z (omega arith) (omega arith))))

  third_decoded :
      (j c z w : ℕ)
      → c < 256
      → j < 16
      → z ≡ j * 4 + c / 64
      → w ≡ c % 64
      → byte2 (nth decode (nth encode z)) (nth decode (nth encode w)) ≡ c
  third_decoded j c z w hc hj hz hw = rw (inverse.found z (omega arith)) (
      rw (inverse.found w (omega arith)) (omega (arith, byte2_lem z w (omega arith) (omega arith))))

  decode-encoded :
      (src : List ℕ)
      → All IsByte src
      → decode_digits (ngx_encode_base64_internal src encode false) decode ≡ src
  unfolding ngx_encode_base64_internal decode_digits
  decode-encoded [] h = refl
  decode-encoded (a ∷ []) (ha, _) =
      ap (λ x. x ∷ [])
        (first_decoded a 0 (digit0 a) (bit_and a 3 * 16) ha (omega arith) (digit0_lem a ha)
          (omega (arith, low_two a ha)))
  decode-encoded (a ∷ b ∷ []) (ha, (hb, _)) =
      ap₂ (λ x y. x ∷ y ∷ [])
        (first_decoded a (b / 16) (digit0 a) (digit1 a b) ha (omega arith) (digit0_lem a ha)
          (digit1_lem a b ha hb))
        (second_decoded (a % 4) b 0 (digit1 a b) (bit_and b 0x0f * 4) hb (omega arith) (omega arith)
          (digit1_lem a b ha hb) (omega (arith, low_four b hb)))
  decode-encoded (a ∷ b ∷ c ∷ src) (ha, (hb, (hc, h))) =
      ap₂ (λ x xs. x ∷ xs)
        (first_decoded a (b / 16) (digit0 a) (digit1 a b) ha (omega arith) (digit0_lem a ha)
          (digit1_lem a b ha hb))
        (ap₂ (λ x xs. x ∷ xs)
          (second_decoded (a % 4) b (c / 64) (digit1 a b) (digit2 b c) hb (omega arith)
            (omega arith) (digit1_lem a b ha hb) (digit2_lem b c hb hc))
          (ap₂ (λ x xs. x ∷ xs)
            (third_decoded (b % 16) c (digit2 b c) (digit3 c) hc (omega arith)
              (digit2_lem b c hb hc) (low_six c hc))
            (decode-encoded src h)))

  pub decode-encode :
      (src : List ℕ) (p : Bool)
      → All IsByte src
      → ngx_decode_base64_internal (ngx_encode_base64_internal src encode p) decode ≡ some src
  unfolding ngx_decode_base64_internal decode_counted
  decode-encode src p h = simp (
    (encode-HasDigits src p h).counted,
    digits_shape src,
    take_encoded src p,
    decode-encoded src h,
  )
