-- ===== src/Base64/Codecs.antt =====
-- The sizes that the macros of base64.h name are enough for what is written, and the codecs over them.
use cevent_sample.Prelude.{
  ℕ, ◌%◌, ◌≤◌, ◌<◌, ◌≡◌, refl, ap, arith, List, [], ◌∷◌, Bool, true, false, Option, none, some,
  ◌==◌, leb_of_le, Run, ret, length, take, length-take, Bool-cases, Option-cases, inl, inr,
}
use cevent_sample.Base64.{
  nth, ngx_encode_base64_internal, count_digits, decode_digits, decode_counted,
  ngx_decode_base64_internal, fill, fill_decoded, ngx_encode_base64, ngx_encode_base64url,
  ngx_decode_base64, ngx_decode_base64url, ngx_base64_encoded_length, ngx_base64_decoded_length,
}
use cevent_sample.Base64.Tables.{encode_basis, encode_basis_url, decode_basis, decode_basis_url}
use cevent_sample.Prelude.Bits.{equal_below, equal_below-at}
use cevent_sample.Base64.RoundTrip.{All, IsByte, IsInverse, decode-encode}

length-encode :
    (src basis : List ℕ) (p : Bool)
    → length (ngx_encode_base64_internal src basis p) ≤ ngx_base64_encoded_length (length src)
unfolding ngx_encode_base64_internal
length-encode [] basis p = omega arith
length-encode (a ∷ []) basis true = omega arith
length-encode (a ∷ []) basis false = omega arith
length-encode (a ∷ b ∷ []) basis true = omega arith
length-encode (a ∷ b ∷ []) basis false = omega arith
length-encode (a ∷ b ∷ c ∷ src) basis p = omega (arith, length-encode src basis p)

-- With padding the size is exact.
length-encode_padded :
    (src basis : List ℕ)
    → length (ngx_encode_base64_internal src basis true) ≡ ngx_base64_encoded_length (length src)
unfolding ngx_encode_base64_internal
length-encode_padded [] basis = omega arith
length-encode_padded (a ∷ []) basis = omega arith
length-encode_padded (a ∷ b ∷ []) basis = omega arith
length-encode_padded (a ∷ b ∷ c ∷ src) basis = omega (arith, length-encode_padded src basis)

length-decode_digits :
    (src basis : List ℕ) → length (decode_digits src basis) ≤ ngx_base64_decoded_length (length src)
unfolding decode_digits
length-decode_digits [] basis = omega arith
length-decode_digits (p ∷ []) basis = omega arith
length-decode_digits (p ∷ q ∷ []) basis = omega arith
length-decode_digits (p ∷ q ∷ r ∷ []) basis = omega arith
length-decode_digits (p ∷ q ∷ r ∷ s ∷ src) basis = omega (arith, length-decode_digits src basis)

-- what the decoder answers is no longer than the macro says
abbrev IsWithin : ℕ → Option (List ℕ) → Type 0
IsWithin n none = Unit
IsWithin n (some out) = length out ≤ n

length-decode :
    (src basis : List ℕ)
    → IsWithin (ngx_base64_decoded_length (length src)) (ngx_decode_base64_internal src basis)
unfolding ngx_decode_base64_internal decode_counted
length-decode src basis = elim (Option-cases (count_digits src basis)) [
  | inl bad ↦ simp bad tt
  | inr (n, counted) ↦ elim (Bool-cases (n % 4 == 1)) [
    | inl odd ↦ simp (counted, odd) tt
    | inr even ↦
        simp (counted, even)
          (omega (arith, length-decode_digits (take n src) basis, length-take n src))
  ]
]

basis-IsInverse : IsInverse encode_basis decode_basis
unfolding encode_basis decode_basis equal_below
basis-IsInverse =
    let found : (v : ℕ) → v < 64 → nth decode_basis (nth encode_basis v) ≡ v =
      λ v hv. equal_below-at (λ v. nth decode_basis (nth encode_basis v)) (λ v. v) 64 v refl hv in
    record { found = found; not_pad = λ v hv e. omega (arith, found v hv, ap (nth decode_basis) e) }

basis_url-IsInverse : IsInverse encode_basis_url decode_basis_url
unfolding encode_basis_url decode_basis_url equal_below
basis_url-IsInverse =
    let found : (v : ℕ) → v < 64 → nth decode_basis_url (nth encode_basis_url v) ≡ v = λ v hv.
      equal_below-at (λ v. nth decode_basis_url (nth encode_basis_url v)) (λ v. v) 64 v refl hv in
    record {
      found = found;
      not_pad = λ v hv e. omega (arith, found v hv, ap (nth decode_basis_url) e);
    }

fill-ret : (size : ℕ) (out : List ℕ) → length out ≤ size → fill size out ≡ ret out
unfolding fill
fill-ret size out h = simp (leb_of_le (length out) size h)

fill_decoded-ret :
    (size n : ℕ) (r : Option (List ℕ)) → IsWithin n r → n ≤ size → fill_decoded size r ≡ ret r
unfolding fill_decoded
fill_decoded-ret size n none h le = refl
fill_decoded-ret size n (some out) h le = simp (leb_of_le (length out) size (omega arith))

-- what one call writes, another reads back
abbrev pub ReadsBack : Run (List ℕ) → (List ℕ → Run (Option (List ℕ))) → List ℕ → Type 0
ReadsBack written read src = (out : List ℕ) × (written ≡ ret out) × (read out ≡ ret (some src))

-- Bytes that are encoded into a block of at least `ngx_base64_encoded_length` bytes are read back from
-- what is written there, in a block that has room for them: in the plain alphabet with padding and in
-- that of URLs without.
pub ngx_decode_base64-ngx_encode_base64 :
    (src : List ℕ) (n m : ℕ)
    → All IsByte src
    → ngx_base64_encoded_length (length src) ≤ n
    → length src ≤ m
    → ReadsBack (ngx_encode_base64 n src) (ngx_decode_base64 m) src
      × ReadsBack (ngx_encode_base64url n src) (ngx_decode_base64url m) src
unfolding ngx_encode_base64 ngx_encode_base64url ngx_decode_base64 ngx_decode_base64url
ngx_decode_base64-ngx_encode_base64 src n m h room block =
    let plain = decode-encode encode_basis decode_basis basis-IsInverse src true h in
    let url = decode-encode encode_basis_url decode_basis_url basis_url-IsInverse src false h in
    (
      (
        ngx_encode_base64_internal src encode_basis true,
        fill-ret n _ (omega (arith, length-encode src encode_basis true)),
        simp plain (fill_decoded-ret m (length src) (some src) (omega arith) block),
      ),
      (
        ngx_encode_base64_internal src encode_basis_url false,
        fill-ret n _ (omega (arith, length-encode src encode_basis_url false)),
        simp url (fill_decoded-ret m (length src) (some src) (omega arith) block),
      ),
    )

-- On any string, well formed or not, neither decoder writes behind a block of
-- `ngx_base64_decoded_length` bytes, and neither encoder behind one of `ngx_base64_encoded_length`;
-- with padding, the encoder writes exactly that many.
pub codecs_stay_inside :
    (src : List ℕ) (n m : ℕ)
    → ngx_base64_encoded_length (length src) ≤ n
    → ngx_base64_decoded_length (length src) ≤ m
    → ((out : List ℕ) × (ngx_encode_base64 n src ≡ ret out)
        × (length out ≡ ngx_base64_encoded_length (length src)))
      × ((out : List ℕ) × (ngx_encode_base64url n src ≡ ret out))
      × ((r : Option (List ℕ)) × (ngx_decode_base64 m src ≡ ret r))
      × ((r : Option (List ℕ)) × (ngx_decode_base64url m src ≡ ret r))
unfolding ngx_encode_base64 ngx_encode_base64url ngx_decode_base64 ngx_decode_base64url
codecs_stay_inside src n m room block = (
  (
    ngx_encode_base64_internal src encode_basis true,
    fill-ret n _ (omega (arith, length-encode src encode_basis true)),
    length-encode_padded src encode_basis,
  ),
  (
    ngx_encode_base64_internal src encode_basis_url false,
    fill-ret n _ (omega (arith, length-encode src encode_basis_url false)),
  ),
  (
    ngx_decode_base64_internal src decode_basis,
    fill_decoded-ret m _ _ (length-decode src decode_basis) block,
  ),
  (
    ngx_decode_base64_internal src decode_basis_url,
    fill_decoded-ret m _ _ (length-decode src decode_basis_url) block,
  ),
)
