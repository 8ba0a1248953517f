-- ===== src/Alloctor/Tests.antt =====
-- A heap that counts its calls, and the theorem on the guards at it.
use cevent_sample.Prelude.{
  ℕ, ◌+◌, ◌*◌, ◌≤◌, ◌≡◌, refl, arith, List, [], ◌∷◌, none, some, pos, negsuc,
}
use cevent_sample.Alloctor.{Functions, ce_malloc, ce_calloc, ce_free}
use cevent_sample.Alloctor.Guards
use cevent_sample.Alloctor.Guards.{Keeps, run-keeps}

-- the sum of the sizes asked for, and the number of calls that asked
abbrev counting : Functions (ℕ × ℕ)
counting = record {
  malloc = λ (sum, calls) n. (some calls, (sum + n, calls + 1));
  calloc = λ (sum, calls) m n. (some calls, (sum + m * n, calls + 1));
  free = λ h p. h;
}

-- each call that reaches the heap asks for at least one byte
abbrev AtLeast : ℕ × ℕ → Type 0
AtLeast (sum, calls) = calls ≤ sum

product_positive : (m n : ℕ) → 1 ≤ m → 1 ≤ n → 1 ≤ m * n
product_positive m n hm hn = grind arith

counting-Keeps : Keeps AtLeast counting
counting-Keeps = record {
  malloc = λ h n any i. omega arith;
  calloc = λ h m n many large i. omega (arith, product_positive m n many large);
  free = λ h p i. i;
}

abbrev calls : List (Guards.Call (Keeps AtLeast))
calls =
    Guards.Call.malloc (pos 8)
    ∷ Guards.Call.malloc (negsuc 0)
    ∷ Guards.Call.calloc (pos 2) (pos 0)
    ∷ Guards.Call.free none
    ∷ []

run-counts : Guards.run counting (0, 0) calls ≡ (8, 1)
unfolding Guards.run ce_malloc ce_calloc ce_free
run-counts = refl

counting-AtLeast :
    (cs : List (Guards.Call (Keeps AtLeast))) → AtLeast (Guards.run counting (0, 0) cs)
counting-AtLeast cs = run-keeps AtLeast counting (0, 0) cs counting-Keeps (omega arith)
