-- ===== src/Crypt.antt =====
-- The encryption of src/cevent/cevent/ce_crypt.c. OpenSSL's calls are the parameter `Ssl`, with the
-- length that their results have.
pub mod Lengths
mod Tests
use cevent_sample.Prelude.{
  ℕ, ◌+◌, ◌*◌, ◌/◌, ◌%◌, ◌≤◌, ◌≡◌, List, [], ◌∷◌, Bool, true, false, ◌||◌, Option, none, some, ◌==◌,
  leb, ltb, if◌then◌else◌, ℤ, pos, negsuc, Run, ret, fault, ◌>>=◌, length, take,
}
use cevent_sample.Prelude.Slices.{slice}

-- A key of RSA that was read from a buffer has a size, and an operation with it either fails or makes
-- at most that many bytes. `enc` picks the public key and encryption.
pub record Ssl : Type 1 where
  pub RsaKey : Type 0
  pub md5 : List ℕ → List ℕ
  pub cbc : Bool → (key vec inp : List ℕ) → List ℕ
  pub read_key : Bool → List ℕ → Option RsaKey
  pub rsa_size : RsaKey → ℕ
  pub rsa : Bool → RsaKey → List ℕ → Option (List ℕ)
  pub length-cbc : (enc : Bool) (key vec inp : List ℕ) → length (cbc enc key vec inp) ≡ length inp
  pub length-rsa :
      (enc : Bool) (key : RsaKey) (inp out : List ℕ)
      → rsa enc key inp ≡ some out
      → length out ≤ rsa_size key

-- `none` is a buffer that is NULL; the assertion does nothing.
unfoldable pub ce_crypt_md5 : Ssl → Option (List ℕ) → ℕ → Run (List ℕ)
ce_crypt_md5 ssl none size = if size == 0 then ret (ssl.md5 []) else fault
ce_crypt_md5 ssl (some buffer) size = do bytes ← slice buffer 0 size; ret (ssl.md5 bytes)

-- `AES_BLOCK_SIZE`
abbrev pub block_size : ℕ
block_size = 16

unfoldable pub padded_len : ℕ → ℕ
padded_len in_size =
    if (in_size + 1) % block_size == 0
    then in_size + 1
    else ((in_size + 1) / block_size + 1) * block_size

-- `inp` is all that may be read behind `in`; the library reads `len` bytes of it.
unfoldable pub ce_crypt_aes : Ssl → List ℕ → ℕ → (key vec : List ℕ) → Bool → Run (List ℕ × ℕ)
ce_crypt_aes ssl inp in_size key vec enc = do
  data_in ← slice inp 0 (padded_len in_size)
  ret (ssl.cbc enc key vec data_in, padded_len in_size)

-- what `*out_buffer` and `*out_size` are behind the call; the guard has left them alone
pub data Output : Type 0 where
  not_set : Output
  cleared : Output
  filled : List ℕ → ℕ → Output

-- The buffer has `RSA_size` bytes; a result that is longer is written behind its end.
unfoldable pub rsa_result : (ssl : Ssl) → ssl.RsaKey → Option (List ℕ) → Run (Bool × Output)
rsa_result ssl key none = ret (false, cleared)
rsa_result ssl key (some out) =
    if leb (length out) (ssl.rsa_size key) then ret (true, filled out (length out)) else fault

-- `none` for a buffer is NULL; the sizes are those of the buffers.
unfoldable pub ce_crypt_rsa : Ssl → Option (List ℕ) → Option (List ℕ) → Bool → Run (Bool × Output)
ce_crypt_rsa ssl none inp enc = ret (false, not_set)
ce_crypt_rsa ssl (some key_buffer) none enc = ret (false, not_set)
ce_crypt_rsa ssl (some key_buffer) (some inp) enc =
    if length key_buffer == 0 || length inp == 0
    then ret (false, not_set)
    else elim (ssl.read_key enc key_buffer) [
      | none ↦ ret (false, not_set)
      | some key ↦ rsa_result ssl key (ssl.rsa enc key inp)
    ]

-- `lock_array` and `inited`; a lock that is destroyed twice, or used when it is not there, is a fault.
pub record Locks : Type 0 where
  pub inited : Bool
  pub lock_array : Option ℕ

unfoldable pub ce_crypt_safe_init : ℕ → Locks → Locks
ce_crypt_safe_init num_locks s =
    if s.inited then s else record { inited = true; lock_array = some num_locks }

unfoldable pub ce_crypt_safe_uninit : Locks → Run Locks
ce_crypt_safe_uninit s =
    if s.inited
    then elim s.lock_array [
      | none ↦ fault
      | some n ↦ ret (record { inited = false; lock_array = none })
    ]
    else ret s

-- what `lock_callback` does to the mutex of a type
pub data LockCall : Type 0 where
  locks unlocks : (type : ℕ) → LockCall

-- `lock` says whether the mode has `CRYPTO_LOCK`. The array must be there and have the type.
unfoldable pub lock_callback : Locks → Bool → ℕ → Run LockCall
lock_callback s lock type = elim s.lock_array [
  | none ↦ fault
  | some n ↦ if ltb type n then ret (if lock then locks type else unlocks type) else fault
]
