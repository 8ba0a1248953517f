-- ===== src/Bzip2.antt =====
-- The compression of src/cevent/cevent/ce_bzip2.c, with `ce_align_size` and `ce_malloc` of
-- src/cevent/cevent/ce_alloctor.c. The calls of bzip2 and the product with 1.01 are the parameter `Bz`.
pub mod Sizes
mod Tests
use cevent_sample.Prelude.{
  ℕ, ◌+◌, ◌-◌, ◌*◌, ◌/◌, ◌%◌, ◌^◌, ◌≤◌, ◌≡◌, List, [], ◌∷◌, Bool, true, false, Option, none, some,
  ◌==◌, leb, ltb, if◌then◌else◌, ℤ, pos, negsuc, Run, ret, fault, length, take, is_nonpos,
}

-- `compress` and `decompress` are given the size of the buffer and answer with what they write there,
-- or with an error.
pub record Bz : Type 0 where
  pub scaled : ℕ → ℕ
  pub compress : ℤ → List ℕ → ℕ → Option (List ℕ)
  pub decompress : List ℕ → ℕ → Option (List ℕ)
  pub length-decompress :
      (src : List ℕ) (n : ℕ) (out : List ℕ) → decompress src n ≡ some out → length out ≤ n
  pub length-compress :
      (level : ℤ) (src : List ℕ) (n : ℕ) (out : List ℕ)
      → compress level src n ≡ some out
      → length out ≤ n

-- `ce_align_size(x, 16)` on a `uint32_t`
unfoldable pub ce_align_size : ℕ → ℕ
ce_align_size x = (x + 15) % 2 ^ 32 / 16 * 16

-- a `uint32_t` as the `int` of a parameter
unfoldable pub as_int : ℕ → ℤ
as_int n = if ltb n (2 ^ 31) then pos n else negsuc (2 ^ 32 - 1 - n)

-- The size of the block, or `none` for NULL; an allocation of a positive size succeeds.
unfoldable pub ce_malloc : ℤ → Option ℕ
ce_malloc (pos n) = if n == 0 then none else some n
ce_malloc (negsuc n) = none

-- what a call writes to a block: a fault behind its end
unfoldable pub write_block : ℕ → List ℕ → Run (Option (List ℕ))
write_block block out = if leb (length out) block then ret (some out) else fault

unfoldable pub compressed : ℕ → Option (List ℕ) → Run (Option (List ℕ))
compressed block none = ret none
compressed block (some out) = write_block block out

unfoldable pub compress_into : Bz → List ℕ → ℤ → Option ℕ → Run (Option (List ℕ))
compress_into bz src level none = ret none
compress_into bz src level (some block) = compressed block (bz.compress level src block)

-- The result is what `dest` holds, whose length is `*dest_len`; `none` for a pointer is NULL.
unfoldable pub ce_bzip2_compress :
    Bz → Option (List ℕ) → Option (Unit {0}) → ℤ → Run (Option (List ℕ))
ce_bzip2_compress bz none dest_len level = ret none
ce_bzip2_compress bz (some src) none level = ret none
ce_bzip2_compress bz (some src) (some _) level =
    if length src == 0
    then ret none
    else compress_into bz src level
        (ce_malloc (as_int (ce_align_size ((bz.scaled (length src) + 600) % 2 ^ 32))))

unfoldable pub decompressed : ℕ → ℕ → Option (List ℕ) → Run (Option (List ℕ))
decompressed dest_len block none = ret none
decompressed dest_len block (some out) =
    if length out == dest_len then write_block block out else ret none

unfoldable pub decompress_into : Bz → List ℕ → ℕ → Option ℕ → Run (Option (List ℕ))
decompress_into bz src dest_len none = ret none
decompress_into bz src dest_len (some block) =
    decompressed dest_len block (bz.decompress src dest_len)

unfoldable pub ce_bzip2_decompress : Bz → List ℕ → ℕ → Run (Option (List ℕ))
ce_bzip2_decompress bz src dest_len =
    decompress_into bz src dest_len (ce_malloc (as_int (ce_align_size dest_len)))
