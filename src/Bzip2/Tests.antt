-- ===== src/Bzip2/Tests.antt =====
-- A library that keeps the bytes as they are, and the theorems on compression at it.
use cevent_sample.Prelude.{
  ℕ, ◌+◌, ◌/◌, ◌≤◌, ◌≡◌, arith, List, Option, none, some, length, leb, if◌then◌else◌, inl, inr,
  Bool-cases,
}
use cevent_sample.Bzip2.{Bz}

abbrev copy : List ℕ → ℕ → Option (List ℕ)
copy src n = if leb (length src) n then some src else none

length-copy : (src : List ℕ) (n : ℕ) (out : List ℕ) → copy src n ≡ some out → length out ≤ n
length-copy src n out h = elim (Bool-cases (leb (length src) n)) [
  | inl fits ↦ let h' = simp fits at h in ground arith
  | inr long ↦ absurd (let h' = simp long at h in cc)
]

abbrev bz : Bz
bz = record {
  scaled = λ n. n + n / 100;
  compress = λ level src n. copy src n;
  decompress = copy;
  length-decompress = length-copy;
  length-compress = λ level src n out h. length-copy src n out h;
}
