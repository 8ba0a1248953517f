-- ===== src/Base64.antt =====
-- The codec of src/cevent/util/base64.c. A string is the list of its bytes, which an encoder and a
-- decoder write one behind the other to `dst`; what is written behind the end of `dst` is a fault.
pub mod Tables
pub mod RoundTrip
pub mod Codecs
mod Tests
use cevent_sample.Prelude.{
  ℕ, zero, suc, ◌+◌, ◌*◌, ◌/◌, ◌%◌, bit_and, bit_or, List, [], ◌∷◌, Bool, true, false, Option, none,
  some, ◌==◌, leb, if◌then◌else◌, Run, ret, fault, length, take,
}
use cevent_sample.Base64.Tables.{encode_basis, encode_basis_url, decode_basis, decode_basis_url}

-- `basis[n]`; the index is masked or a byte, and the tables have 64 and 256 entries.
abbrev pub nth : List ℕ → ℕ → ℕ
nth [] n = 0
nth (x ∷ xs) n = elim n [ zero ↦ x | suc k ↦ nth xs k ]

-- the four digits of three bytes, and the last digits of one and of two
abbrev pub digit0 : ℕ → ℕ
digit0 a = bit_and (a / 4) 0x3f

abbrev pub digit1 : ℕ → ℕ → ℕ
digit1 a b = bit_or (bit_and a 3 * 16) (b / 16)

abbrev pub digit2 : ℕ → ℕ → ℕ
digit2 b c = bit_or (bit_and b 0x0f * 4) (c / 64)

abbrev pub digit3 : ℕ → ℕ
digit3 c = bit_and c 0x3f

-- '='
abbrev pub pad : Bool → List ℕ → List ℕ
pad true xs = 61 ∷ xs
pad false xs = xs

unfoldable pub ngx_encode_base64_internal : List ℕ → List ℕ → Bool → List ℕ
ngx_encode_base64_internal [] basis padding = []
ngx_encode_base64_internal (a ∷ []) basis padding =
    nth basis (digit0 a) ∷ nth basis (bit_and a 3 * 16) ∷ pad padding (pad padding [])
ngx_encode_base64_internal (a ∷ b ∷ []) basis padding =
    nth basis (digit0 a) ∷ nth basis (digit1 a b) ∷ nth basis (bit_and b 0x0f * 4) ∷ pad padding []
ngx_encode_base64_internal (a ∷ b ∷ c ∷ src) basis padding =
    nth basis (digit0 a)
    ∷ nth basis (digit1 a b)
    ∷ nth basis (digit2 b c)
    ∷ nth basis (digit3 c)
    ∷ ngx_encode_base64_internal src basis padding

-- The first loop of the decoder: the number of digits before a '=' or the end, or `none` for a byte of
-- no digit before it.
unfoldable pub count_digits : List ℕ → List ℕ → Option ℕ
count_digits [] basis = some 0
count_digits (x ∷ xs) basis =
    let rest = count_digits xs basis in
    if x == 61
    then some 0
    else if nth basis x == 77
    then none
    else elim rest [ none ↦ none | some n ↦ some (suc n) ]

-- the bytes of a group of four digits; `u_char` keeps eight bits
abbrev pub byte0 : ℕ → ℕ → ℕ
byte0 p q = bit_or (p * 4) (q / 16) % 256

abbrev pub byte1 : ℕ → ℕ → ℕ
byte1 q r = bit_or (q * 16) (r / 4) % 256

abbrev pub byte2 : ℕ → ℕ → ℕ
byte2 r s = bit_or (r * 64) s % 256

-- The loops that write, over as many digits as were counted.
unfoldable pub decode_digits : List ℕ → List ℕ → List ℕ
decode_digits (p ∷ q ∷ r ∷ s ∷ src) basis =
    byte0 (nth basis p) (nth basis q)
    ∷ byte1 (nth basis q) (nth basis r)
    ∷ byte2 (nth basis r) (nth basis s)
    ∷ decode_digits src basis
decode_digits (p ∷ q ∷ r ∷ []) basis =
    byte0 (nth basis p) (nth basis q) ∷ byte1 (nth basis q) (nth basis r) ∷ []
decode_digits (p ∷ q ∷ []) basis = byte0 (nth basis p) (nth basis q) ∷ []
decode_digits (p ∷ []) basis = []
decode_digits [] basis = []

-- `none` is `NGX_ERROR`.
unfoldable pub decode_counted : Option ℕ → List ℕ → List ℕ → Option (List ℕ)
decode_counted none src basis = none
decode_counted (some len) src basis =
    if len % 4 == 1 then none else some (decode_digits (take len src) basis)

unfoldable pub ngx_decode_base64_internal : List ℕ → List ℕ → Option (List ℕ)
ngx_decode_base64_internal src basis = decode_counted (count_digits src basis) src basis

-- a write of all of `out` to a block of some size
unfoldable pub fill : ℕ → List ℕ → Run (List ℕ)
fill size out = if leb (length out) size then ret out else fault

unfoldable pub fill_decoded : ℕ → Option (List ℕ) → Run (Option (List ℕ))
fill_decoded size none = ret none
fill_decoded size (some out) = if leb (length out) size then ret (some out) else fault

-- `size` is that of the block at `dst->data`.
unfoldable pub ngx_encode_base64 : ℕ → List ℕ → Run (List ℕ)
ngx_encode_base64 size src = fill size (ngx_encode_base64_internal src encode_basis true)

unfoldable pub ngx_encode_base64url : ℕ → List ℕ → Run (List ℕ)
ngx_encode_base64url size src = fill size (ngx_encode_base64_internal src encode_basis_url false)

unfoldable pub ngx_decode_base64 : ℕ → List ℕ → Run (Option (List ℕ))
ngx_decode_base64 size src = fill_decoded size (ngx_decode_base64_internal src decode_basis)

unfoldable pub ngx_decode_base64url : ℕ → List ℕ → Run (Option (List ℕ))
ngx_decode_base64url size src = fill_decoded size (ngx_decode_base64_internal src decode_basis_url)

-- the macros for the sizes of blocks
abbrev pub ngx_base64_encoded_length : ℕ → ℕ
ngx_base64_encoded_length len = (len + 2) / 3 * 4

abbrev pub ngx_base64_decoded_length : ℕ → ℕ
ngx_base64_decoded_length len = (len + 3) / 4 * 3
