-- ===== src/Alloctor/Guards.antt =====
-- What reaches the functions of the allocator, whatever a client asks for.
use cevent_sample.Prelude.{
  ℕ, ◌<◌, ◌≡◌, refl, arith, List, [], ◌∷◌, false, Option, none, some, ℤ, pos, negsuc, is_nonpos,
  pos_part, Bool-cases, Option-cases, inl, inr,
}
use cevent_sample.Alloctor.{
  Functions, Custom, functions, replace, ce_custom_alloctor, ce_malloc, ce_calloc, ce_free,
}

positive : (z : ℤ) → is_nonpos z ≡ false → 0 < pos_part z
positive (pos n) h = ground arith
positive (negsuc n) h = absurd cc

module _ {H : Type 0} where
  -- a client's calls; the functions that a call of `ce_custom_alloctor` offers, if it offers all, have
  -- the property `P`
  pub data Call (P : Functions H → Type 0) : Type 0 where
    malloc : ℤ → Call P
    calloc : ℤ → ℤ → Call P
    free : Option ℕ → Call P
    custom :
        (c : Option (Custom H))
        → ((k : Custom H) (f : Functions H) → c ≡ some k → functions k ≡ some f → P f)
        → Call P

  unfoldable pub run : {P : Functions H → Type 0} → Functions H → H → List (Call P) → H
  run s h [] = h
  run s h (malloc size ∷ calls) = run s (ce_malloc s h size).1 calls
  run s h (calloc count size ∷ calls) = run s (ce_calloc s h count size).1 calls
  run s h (free p ∷ calls) = run s (ce_free s h p) calls
  run s h (custom c ok ∷ calls) = run (ce_custom_alloctor s c).1 h calls

  -- functions that keep `I` when they are called with positive sizes
  pub record Keeps (I : H → Type 0) (s : Functions H) : Type 0 where
    pub malloc : (h : H) (n : ℕ) → 0 < n → I h → I (s.malloc h n).1
    pub calloc : (h : H) (m n : ℕ) → 0 < m → 0 < n → I h → I (s.calloc h m n).1
    pub free : (h : H) (p : ℕ) → I h → I (s.free h p)

  malloc-keeps :
      (I : H → Type 0) (s : Functions H) (h : H) (size : ℤ)
      → Keeps I s
      → I h
      → I (ce_malloc s h size).1
  unfolding ce_malloc
  malloc-keeps I s h size k i = elim (Bool-cases (is_nonpos size)) [
    | inl bad ↦ rw bad i
    | inr good ↦ rw good (k.malloc h (pos_part size) (positive size good) i)
  ]

  calloc-keeps :
      (I : H → Type 0) (s : Functions H) (h : H) (count size : ℤ)
      → Keeps I s
      → I h
      → I (ce_calloc s h count size).1
  unfolding ce_calloc
  calloc-keeps I s h count size k i = elim (Bool-cases (is_nonpos count)) [
    | inl bad ↦ rw bad i
    | inr many ↦ elim (Bool-cases (is_nonpos size)) [
      | inl bad ↦ rw (many, bad) i
      | inr large ↦
          rw (many, large)
            (k.calloc h (pos_part count) (pos_part size) (positive count many) (positive size large)
              i)
    ]
  ]

  free-keeps :
      (I : H → Type 0) (s : Functions H) (h : H) (p : Option ℕ)
      → Keeps I s
      → I h
      → I (ce_free s h p)
  unfolding ce_free
  free-keeps I s h none k i = i
  free-keeps I s h (some p) k i = k.free h p i

  custom-keeps :
      (I : H → Type 0) (s : Functions H) (c : Option (Custom H))
      → ((k : Custom H) (f : Functions H) → c ≡ some k → functions k ≡ some f → Keeps I f)
      → Keeps I s
      → Keeps I (ce_custom_alloctor s c).1
  unfolding ce_custom_alloctor replace
  custom-keeps I s none offered k = k
  custom-keeps I s (some c) offered k = elim (Option-cases (functions c)) [
    | inl bad ↦ rw bad k
    | inr (f, all) ↦ rw all (offered c f refl all)
  ]

  -- Whatever sizes and pointers a client passes, in any order of calls and with any allocator set in
  -- between: what the allocator's functions keep for positive sizes and pointers that are not NULL
  -- is kept.
  pub run-keeps :
      (I : H → Type 0) (s : Functions H) (h : H) (calls : List (Call (Keeps I)))
      → Keeps I s
      → I h
      → I (run s h calls)
  unfolding run
  run-keeps I s h [] k i = i
  run-keeps I s h (malloc size ∷ calls) k i =
      run-keeps I s (ce_malloc s h size).1 calls k (malloc-keeps I s h size k i)
  run-keeps I s h (calloc count size ∷ calls) k i =
      run-keeps I s (ce_calloc s h count size).1 calls k (calloc-keeps I s h count size k i)
  run-keeps I s h (free p ∷ calls) k i =
      run-keeps I s (ce_free s h p) calls k (free-keeps I s h p k i)
  run-keeps I s h (custom c ok ∷ calls) k i =
      run-keeps I (ce_custom_alloctor s c).1 h calls (custom-keeps I s c ok k) i
