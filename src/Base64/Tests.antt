-- ===== src/Base64/Tests.antt =====
-- "Man" and its shorter beginnings through both codecs, and the theorems on the codecs at them.
use cevent_sample.Prelude.{ℕ, ◌≡◌, refl, arith, List, [], ◌∷◌, Option, none, ret, fault, length}
use cevent_sample.Base64.{
  ngx_encode_base64, ngx_encode_base64url, ngx_decode_base64, ngx_decode_base64url,
  ngx_encode_base64_internal, ngx_decode_base64_internal, count_digits, decode_counted,
  decode_digits, fill, fill_decoded, ngx_base64_encoded_length,
}
use cevent_sample.Base64.Tables.{encode_basis, decode_basis}
use cevent_sample.Base64.Codecs.{ReadsBack, ngx_decode_base64-ngx_encode_base64, codecs_stay_inside}

-- "TWE=" for "Ma"
two_bytes : ngx_encode_base64 4 (77 ∷ 97 ∷ []) ≡ ret (84 ∷ 87 ∷ 69 ∷ 61 ∷ [])
unfolding ngx_encode_base64 ngx_encode_base64_internal encode_basis fill
two_bytes = refl

-- a block that is too small
no_room : ngx_encode_base64 3 (77 ∷ 97 ∷ []) ≡ fault
unfolding ngx_encode_base64 ngx_encode_base64_internal encode_basis fill
no_room = refl

-- a lone digit, and a byte of no digit
lone_digit : ngx_decode_base64 8 (84 ∷ []) ≡ ret none
unfolding ngx_decode_base64 ngx_decode_base64_internal count_digits decode_counted decode_digits
    decode_basis fill_decoded
lone_digit = refl

ngx_decode_base64-ngx_encode_base64_example :
    ReadsBack
      (ngx_encode_base64 8 (77 ∷ 97 ∷ 110 ∷ 255 ∷ []))
      (ngx_decode_base64 4)
      (77 ∷ 97 ∷ 110 ∷ 255 ∷ [])
    × ReadsBack
        (ngx_encode_base64url 8 (77 ∷ 97 ∷ 110 ∷ 255 ∷ []))
        (ngx_decode_base64url 4)
        (77 ∷ 97 ∷ 110 ∷ 255 ∷ [])
ngx_decode_base64-ngx_encode_base64_example =
    ngx_decode_base64-ngx_encode_base64 (77 ∷ 97 ∷ 110 ∷ 255 ∷ []) 8 4 (omega arith) (omega arith)
      (omega arith)

codecs_stay_inside_example :
    ((out : List ℕ) × (ngx_encode_base64 4 (77 ∷ 33 ∷ []) ≡ ret out)
      × (length out ≡ ngx_base64_encoded_length 2))
    × ((out : List ℕ) × (ngx_encode_base64url 4 (77 ∷ 33 ∷ []) ≡ ret out))
    × ((r : Option (List ℕ)) × (ngx_decode_base64 3 (77 ∷ 33 ∷ []) ≡ ret r))
    × ((r : Option (List ℕ)) × (ngx_decode_base64url 3 (77 ∷ 33 ∷ []) ≡ ret r))
codecs_stay_inside_example = codecs_stay_inside (77 ∷ 33 ∷ []) 4 3 (omega arith) (omega arith)
