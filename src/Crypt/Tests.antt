-- ===== src/Crypt/Tests.antt =====
-- A library whose calls keep what they are given, and the theorems on encryption at it.
use cevent_sample.Prelude.{
  ℕ, ◌+◌, ◌≤◌, ◌≡◌, refl, arith, List, [], ◌∷◌, true, false, Option, none, some, fault, length,
  take,
}
use cevent_sample.Crypt.{Ssl, ce_crypt_aes, Locks}
use cevent_sample.Crypt.Lengths.{ce_crypt_aes-overreads}

abbrev byte : Option (List ℕ)
byte = some (7 ∷ [])

length-byte : (key : ℕ) (out : List ℕ) → byte ≡ some out → length out ≤ key + 1
length-byte key out h = ground arith

-- the one key has a size of 2, and makes a byte of whatever it is given
abbrev ssl : Ssl
ssl = record {
  RsaKey = ℕ;
  md5 = take 16;
  cbc = λ enc key vec inp. inp;
  read_key = λ enc xs. some 1;
  rsa_size = λ key. key + 1;
  rsa = λ enc key inp. byte;
  length-cbc = λ enc key vec inp. refl;
  length-rsa = λ enc key inp out h. length-byte key out h;
}

ce_crypt_aes-overreads_example : ce_crypt_aes ssl (1 ∷ 2 ∷ []) 2 [] [] true ≡ fault
ce_crypt_aes-overreads_example = ce_crypt_aes-overreads ssl (1 ∷ 2 ∷ []) 2 (omega arith) [] [] true

abbrev off : Locks
off = record { inited = false; lock_array = none }
