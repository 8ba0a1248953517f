-- ===== src/Crypt/Lengths.antt =====
-- The sizes of what is encrypted, and the start and end of the locks.
use cevent_sample.Prelude.{
  ℕ, ◌+◌, ◌%◌, ◌≤◌, ◌<◌, ◌≡◌, refl, List, [], ◌∷◌, Bool, true, false, Option, none, some, ◌==◌,
  leb_of_lt, leb_of_le, Option-cases, ◌||◌, if◌then◌else◌, Run, ret, fault, ◌>>=◌, arith, length,
  inl, inr, Bool-cases,
}
use cevent_sample.Prelude.Slices.{slice}
use cevent_sample.Crypt.{
  Ssl, padded_len, ce_crypt_aes, Locks, ce_crypt_safe_init, ce_crypt_safe_uninit, Output, not_set,
  cleared, filled, rsa_result, ce_crypt_rsa,
}

-- The length that is encrypted is a multiple of the block, more than the input and at most one block
-- more.
pub padded_len-bounds :
    (n : ℕ) → (padded_len n % 16 ≡ 0) × (n < padded_len n) × (padded_len n ≤ n + 16)
unfolding padded_len
padded_len-bounds n = elim (Bool-cases ((n + 1) % 16 == 0)) [
  | inl whole ↦ (ground arith, ground arith, ground arith)
  | inr part ↦ (ground arith, ground arith, ground arith)
]

-- Of an input buffer that holds no more than the bytes that the call names, `ce_crypt_aes` always reads
-- behind the end.
pub ce_crypt_aes-overreads :
    (ssl : Ssl) (inp : List ℕ) (in_size : ℕ)
    → length inp ≤ in_size
    → (key vec : List ℕ) (enc : Bool) → ce_crypt_aes ssl inp in_size key vec enc ≡ fault
unfolding ce_crypt_aes slice
ce_crypt_aes-overreads ssl inp in_size h key vec enc =
    let (whole, more, most) = padded_len-bounds in_size in
    simp (leb_of_lt (0 + padded_len in_size) (length inp) (omega arith))

-- Any number of starts and ends may follow one another, in any order.
pub data Call : Type 0 where
  init : Call
  uninit : Call

pub run : ℕ → Locks → List Call → Run Locks
run n s [] = ret s
run n s (init ∷ calls) = run n (ce_crypt_safe_init n s) calls
run n s (uninit ∷ calls) = ce_crypt_safe_uninit s >>= λ s'. run n s' calls

-- the locks are there exactly while they are started
abbrev pub IsStarted : ℕ → Locks → Type 0
IsStarted n s = s.lock_array ≡ (if s.inited then some n else none)

-- Any number of starts and ends, in any order, keeps the locks allocated exactly while they are
-- started, and none of them destroys locks that are not there.
pub run-IsStarted :
    (n : ℕ) (s : Locks) (calls : List Call)
    → IsStarted n s
    → (s' : Locks) × (run n s calls ≡ ret s') × IsStarted n s'
unfolding run ce_crypt_safe_init ce_crypt_safe_uninit
run-IsStarted n s [] h = (s, refl, h)
run-IsStarted n s (init ∷ calls) h = elim (Bool-cases s.inited) [
  | inl on ↦ simp on (run-IsStarted n s calls h)
  | inr off ↦ simp off (run-IsStarted n (record { inited = true; lock_array = some n }) calls refl)
]
run-IsStarted n s (uninit ∷ calls) h = elim (Bool-cases s.inited) [
  | inl on ↦
      let there = simp on at h in
      simp (on, there) (run-IsStarted n (record { inited = false; lock_array = none }) calls refl)
  | inr off ↦ simp off (run-IsStarted n s calls h)
]

-- whether a call left a result
abbrev pub has_result : Output → Bool
has_result (filled out n) = true
has_result _ = false

-- `ce_crypt_rsa` writes no byte behind its buffer, and returns true exactly if it leaves a result.
pub ce_crypt_rsa-returns :
    (ssl : Ssl) (key_buffer inp : Option (List ℕ)) (enc : Bool)
    → (r : Bool × Output) × (ce_crypt_rsa ssl key_buffer inp enc ≡ ret r) × (r.0 ≡ has_result r.1)
unfolding ce_crypt_rsa rsa_result
ce_crypt_rsa-returns ssl none inp enc = (_, refl, refl)
ce_crypt_rsa-returns ssl (some key_buffer) none enc = (_, refl, refl)
ce_crypt_rsa-returns ssl (some key_buffer) (some inp) enc =
    elim (Bool-cases (length key_buffer == 0 || length inp == 0)) [
      | inl bad ↦ ((false, not_set), simp bad, refl)
      | inr good ↦ elim (Option-cases (ssl.read_key enc key_buffer)) [
        | inl lost ↦ ((false, not_set), simp (good, lost), refl)
        | inr (key, found) ↦ elim (Option-cases (ssl.rsa enc key inp)) [
          | inl failed ↦ ((false, cleared), simp (good, found, failed), refl)
          | inr (out, made) ↦ (
            (true, filled out (length out)),
            simp (
              good,
              found,
              made,
              leb_of_le (length out) (ssl.rsa_size key) (ssl.length-rsa enc key inp out made),
            ),
            refl,
          )
        ]
      ]
    ]
