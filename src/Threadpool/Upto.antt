-- ===== src/Threadpool/Upto.antt =====
-- The addresses of the workers that wait, one behind the other.
use cevent_sample.Prelude.{
  ℕ, zero, suc, ◌+◌, ◌-◌, ◌<◌, ◌≡◌, refl, ap, ◌∙◌, List, [], ◌∷◌, ◌++◌, arith,
}
use cevent_sample.Threadpool.{remove}

-- `k ∷ k + 1 ∷ …`, `n` numbers
abbrev pub upto : ℕ → ℕ → List ℕ
upto k zero = []
upto k (suc n) = k ∷ upto (suc k) n

pub upto-snoc : (k n : ℕ) → upto k n ++ ((k + n) ∷ []) ≡ upto k (n + 1)
upto-snoc k zero = ap (λ x. x ∷ []) {x = k + 0} {y = k} (omega arith)
upto-snoc k (suc n) =
    ap (◌∷◌ k) (
      ap (λ x. upto (suc k) n ++ (x ∷ [])) {x = k + suc n} {y = suc k + n} (omega arith)
      ∙ upto-snoc (suc k) n)
    ∙ ap (upto k) {x = suc (n + 1)} {y = suc n + 1} (omega arith)

pub upto-cons :
    (k n : ℕ) {w : ℕ} {ws : List ℕ}
    → w ∷ ws ≡ upto k n
    → (w ≡ k) × (0 < n) × (ws ≡ upto (suc k) (n - 1))
upto-cons k zero h = cc
upto-cons k (suc n) h = (
  ground arith,
  omega arith,
  (ground arith) ∙ ap (upto (suc k)) {x = n} {y = suc n - 1} (omega arith),
)

pub remove-upto : (w k n : ℕ) → w < k → remove w (upto k n) ≡ upto k n
unfolding remove
remove-upto w k zero h = refl
remove-upto w k (suc n) h = ground (arith, remove-upto w (suc k) n)
