-- ===== src/Prelude/Slices.antt =====
-- Reads and writes of a run of bytes inside an object, as `memcpy` makes them.
use Prim.Native.Nat.{ℕ, ◌+◌, ◌-◌, ◌≤◌}
use mathlib.Core.Path.{◌≡◌, ap, ◌∙◌}
use mathlib.Core.List.{List, ◌++◌}
use native.Mathlib.Omega.{arith}
use cevent_sample.Prelude.Tests.{leb, leb_of_le, if◌then◌else◌}
use cevent_sample.Prelude.Outcome.{Run, ret, fault}
use cevent_sample.Prelude.Lists.{
  length, take, drop, length-append, length-take, length-drop, take_all, take-append_le,
  take-append_ge, drop-append_ge, drop-drop, take_eq, drop_eq,
}

module _ {ℓ} {A : Type ℓ} where
  -- the `n` bytes from `off` on; a fault outside the object
  unfoldable pub slice : List A → ℕ → ℕ → Run (List A)
  slice xs off n = if leb (off + n) (length xs) then ret (take n (drop off xs)) else fault

  -- `dst` with `src` in place of its bytes from `off` on
  abbrev pub splice : ℕ → List A → List A → List A
  splice off src dst = take off dst ++ (src ++ drop (off + length src) dst)

  -- `memcpy(dst + off, src, length src)`
  unfoldable pub blit : List A → ℕ → List A → Run (List A)
  blit dst off src = if leb (off + length src) (length dst) then ret (splice off src dst) else fault

  pub slice-ret :
      (xs : List A) (off n : ℕ) → off + n ≤ length xs → slice xs off n ≡ ret (take n (drop off xs))
  unfolding slice
  slice-ret xs off n h = rw (leb_of_le (off + n) (length xs) h)

  pub blit-ret :
      (dst : List A) (off : ℕ) (src : List A)
      → off + length src ≤ length dst
      → blit dst off src ≡ ret (splice off src dst)
  unfolding blit
  blit-ret dst off src h = rw (leb_of_le (off + length src) (length dst) h)

  module _ (off : ℕ) (src dst : List A) (fits : off + length src ≤ length dst) where
    length-prefix : length (take off dst) ≡ off
    length-prefix = omega (arith, length-take off dst)

    pub length-splice : length (splice off src dst) ≡ length dst
    length-splice = omega (
      arith,
      length-append (take off dst) (src ++ drop (off + length src) dst),
      length-append src (drop (off + length src) dst),
      length-drop (off + length src) dst,
      length-prefix,
    )

    -- what lies before the written bytes, and those bytes
    pub take-splice : take (off + length src) (splice off src dst) ≡ take off dst ++ src
    take-splice =
        take-append_ge (off + length src) (take off dst) (src ++ drop (off + length src) dst)
          (omega (arith, length-prefix))
        ∙ ap (◌++◌ (take off dst)) (
            take_eq (src ++ drop (off + length src) dst) (omega (arith, length-prefix))
            ∙ take-append_le (length src) src (drop (off + length src) dst) (omega arith)
            ∙ take_all (length src) src (omega arith))

    -- what lies behind the written bytes
    pub drop-splice : (k : ℕ) → off + length src ≤ k → drop k (splice off src dst) ≡ drop k dst
    drop-splice k h =
        drop-append_ge k (take off dst) (src ++ drop (off + length src) dst)
          (omega (arith, length-prefix))
        ∙ drop-append_ge (k - length (take off dst)) src (drop (off + length src) dst)
            (omega (arith, length-prefix))
        ∙ drop-drop (k - length (take off dst) - length src) (off + length src) dst
        ∙ drop_eq dst (omega (arith, length-prefix))
