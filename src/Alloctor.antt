-- ===== src/Alloctor.antt =====
-- The allocator of src/cevent/cevent/ce_alloctor.c. The three functions that it calls are a parameter
-- over a heap of any kind; a pointer is a number, and `none` stands for NULL.
pub mod Guards
mod Tests
use cevent_sample.Prelude.{
  ℕ, ◌+◌, ◌*◌, ◌<◌, ◌≡◌, List, [], ◌∷◌, Bool, true, false, Option, none, some, ◌==◌, ◌||◌,
  if◌then◌else◌, ℤ, pos, negsuc, is_nonpos, pos_part,
}

module _ (H : Type 0) where
  -- `ce_alloctor_t` with its functions set
  pub record Functions : Type 0 where
    pub malloc : H → ℕ → Option ℕ × H
    pub calloc : H → ℕ → ℕ → Option ℕ × H
    pub free : H → ℕ → H

  -- a `ce_alloctor_t`, of which any function may be NULL
  pub record Custom : Type 0 where
    pub malloc : Option (H → ℕ → Option ℕ × H)
    pub calloc : Option (H → ℕ → ℕ → Option ℕ × H)
    pub free : Option (H → ℕ → H)

module _ {H : Type 0} where
  unfoldable pub functions : Custom H → Option (Functions H)
  functions c = elim c.malloc [
    | none ↦ none
    | some m ↦ elim c.calloc [
      | none ↦ none
      | some k ↦ elim c.free [
        | none ↦ none
        | some f ↦ some (record { malloc = m; calloc = k; free = f })
      ]
    ]
  ]

  unfoldable pub replace : Functions H → Option (Functions H) → Bool × Functions H
  replace s none = (false, s)
  replace s (some new) = (true, new)

  -- `s` is `s_alloctor`.
  unfoldable pub ce_custom_alloctor : Functions H → Option (Custom H) → Bool × Functions H
  ce_custom_alloctor s none = (false, s)
  ce_custom_alloctor s (some c) = replace s (functions c)

  unfoldable pub ce_malloc : Functions H → H → ℤ → Option ℕ × H
  ce_malloc s h size = if is_nonpos size then (none, h) else s.malloc h (pos_part size)

  unfoldable pub ce_calloc : Functions H → H → ℤ → ℤ → Option ℕ × H
  ce_calloc s h count size =
      if is_nonpos count || is_nonpos size
      then (none, h)
      else s.calloc h (pos_part count) (pos_part size)

  unfoldable pub ce_free : Functions H → H → Option ℕ → H
  ce_free s h none = h
  ce_free s h (some p) = s.free h p

  -- the macro: the variable is NULL behind it
  unfoldable pub ce_freep : Functions H → H → Option ℕ → Option ℕ × H
  ce_freep s h none = (none, h)
  ce_freep s h (some p) = (none, ce_free s h (some p))
