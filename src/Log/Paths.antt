-- ===== src/Log/Paths.antt =====
-- The file's name in a line: what follows the last separator of its path.
use cevent_sample.Prelude.{ℕ, ◌≡◌, ap, ap₂, none, some, List, [], ◌∷◌, ◌++◌, arith}
use cevent_sample.Log.{strrchr, suffix_name, file_name}

abbrev pub Lacks : ℕ → List ℕ → Type 0
Lacks c xs = strrchr xs c ≡ none

strrchr-append :
    (c : ℕ) (xs ys zs : List ℕ) → strrchr ys c ≡ some zs → strrchr (xs ++ ys) c ≡ some zs
unfolding strrchr
strrchr-append c [] ys zs h = h
strrchr-append c (x ∷ xs) ys zs h = simp (strrchr-append c xs ys zs h)

strrchr-last : (c : ℕ) (xs : List ℕ) → strrchr xs c ≡ none → strrchr (c ∷ xs) c ≡ some (c ∷ xs)
unfolding strrchr
strrchr-last c xs h = simp h (ground arith)

-- Of a path with a '/', what follows the last one is the name.
pub file_name-slash : (dir base : List ℕ) → Lacks 47 base → file_name (dir ++ (47 ∷ base)) ≡ base
unfolding file_name suffix_name
file_name-slash dir base h =
    ap (λ o. suffix_name o (strrchr (dir ++ (47 ∷ base)) 92) (dir ++ (47 ∷ base)))
      (strrchr-append 47 dir (47 ∷ base) (47 ∷ base) (strrchr-last 47 base h))

-- Of a path with no '/' but with a '\', what follows the last '\' is the name.
pub file_name-backslash :
    (dir base : List ℕ)
    → Lacks 47 (dir ++ (92 ∷ base))
    → Lacks 92 base
    → file_name (dir ++ (92 ∷ base)) ≡ base
unfolding file_name suffix_name
file_name-backslash dir base unix h =
    ap₂ (λ slash back. suffix_name slash back (dir ++ (92 ∷ base))) unix
      (strrchr-append 92 dir (92 ∷ base) (92 ∷ base) (strrchr-last 92 base h))
