-- ===== src/Bzip2/Sizes.antt =====
-- The sizes of the blocks: what the library writes fits.
use cevent_sample.Prelude.{
  ℕ, ◌+◌, ◌%◌, ◌^◌, ◌≤◌, ◌<◌, ◌≡◌, refl, List, Option, none, some, ◌==◌, leb_of_le, ltb, ℤ, ret,
  length, arith, Bool-cases, Option-cases, inl, inr,
}
use cevent_sample.Bzip2.{
  Bz, ce_align_size, as_int, ce_malloc, write_block, compressed, decompressed, compress_into,
  ce_bzip2_compress, decompress_into, ce_bzip2_decompress,
}

ce_malloc_lem : (m block : ℕ) → ce_malloc (as_int m) ≡ some block → (block ≡ m) × (0 < m)
unfolding ce_malloc as_int
ce_malloc_lem m block h = elim (Bool-cases (ltb m (2 ^ 31))) [
  | inr large ↦ absurd (let no_block = simp large at h in cc)
  | inl small ↦
      let h' = simp small at h in
      elim (Bool-cases (m == 0)) [
        | inl empty ↦ absurd (let no_block = simp empty at h' in cc)
        | inr any ↦ let h'' = simp any at h' in (ground arith, ground arith)
      ]
]

ce_align_size_lem :
    (n : ℕ)
    → n < 2 ^ 32
    → 0 < ce_align_size n
    → (ce_align_size n % 16 ≡ 0) × (n ≤ ce_align_size n) × (ce_align_size n ≤ n + 15)
unfolding ce_align_size
ce_align_size_lem n small any = (omega arith, omega arith, omega arith)

-- An aligned size that can be allocated is a multiple of 16 and no less than the size asked for.
pub ce_malloc-ce_align_size :
    (n block : ℕ)
    → n < 2 ^ 32
    → ce_malloc (as_int (ce_align_size n)) ≡ some block
    → (block % 16 ≡ 0) × (n ≤ block)
ce_malloc-ce_align_size n block small h =
    let (same, any) = ce_malloc_lem (ce_align_size n) block h in
    let (aligned, enough, close) = ce_align_size_lem n small any in
    (omega (arith, same), omega (arith, same))

-- what a call that may end with NULL has written, or nothing
abbrev pub HasLength : ℕ → Option (List ℕ) → Type 0
HasLength n none = Unit
HasLength n (some out) = length out ≡ n

-- `ce_bzip2_decompress` writes no byte behind its block, and answers NULL or exactly as many bytes as
-- it was asked for.
pub ce_bzip2_decompress-returns :
    (bz : Bz) (src : List ℕ) (dest_len : ℕ)
    → dest_len < 2 ^ 32
    → (r : Option (List ℕ)) × (ce_bzip2_decompress bz src dest_len ≡ ret r) × HasLength dest_len r
unfolding ce_bzip2_decompress decompress_into decompressed write_block
ce_bzip2_decompress-returns bz src dest_len small =
    elim (Option-cases (ce_malloc (as_int (ce_align_size dest_len)))) [
      | inl no_block ↦ (none, simp no_block, tt)
      | inr (block, got) ↦ elim (Option-cases (bz.decompress src dest_len)) [
        | inl bad ↦ (none, simp (got, bad), tt)
        | inr (out, done) ↦ elim (Bool-cases (length out == dest_len)) [
          | inr other ↦ (none, simp (got, done, other), tt)
          | inl same ↦
              let fits = (ce_malloc-ce_align_size dest_len block small got).1 in
              (
                some out,
                simp (got, done, same, leb_of_le (length out) block (ground arith)),
                ground arith,
              )
        ]
      ]
    ]

compress_into-returns :
    (bz : Bz) (src : List ℕ) (level : ℤ) (block : Option ℕ)
    → (r : Option (List ℕ)) × (compress_into bz src level block ≡ ret r)
unfolding compress_into compressed write_block
compress_into-returns bz src level none = (none, refl)
compress_into-returns bz src level (some block) =
    elim (Option-cases (bz.compress level src block)) [
      | inl bad ↦ (none, simp bad)
      | inr (out, done) ↦ (
        some out,
        simp (done, leb_of_le (length out) block (bz.length-compress level src block out done)),
      )
    ]

-- `ce_bzip2_compress` writes no byte behind its block.
pub ce_bzip2_compress-returns :
    (bz : Bz) (src : Option (List ℕ)) (dest_len : Option (Unit {0})) (level : ℤ)
    → (r : Option (List ℕ)) × (ce_bzip2_compress bz src dest_len level ≡ ret r)
unfolding ce_bzip2_compress
ce_bzip2_compress-returns bz none dest_len level = (none, refl)
ce_bzip2_compress-returns bz (some src) none level = (none, refl)
ce_bzip2_compress-returns bz (some src) (some _) level = elim (Bool-cases (length src == 0)) [
  | inl empty ↦ (none, simp empty)
  | inr any ↦
      let (r, done) =
        compress_into-returns bz src level
          (ce_malloc (as_int (ce_align_size ((bz.scaled (length src) + 600) % 2 ^ 32)))) in
      (r, simp (any, done))
]
