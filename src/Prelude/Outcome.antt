-- ===== src/Prelude/Outcome.antt =====
-- The outcome of a piece of C: a value, a fault such as an access outside an object, or no return.
use mathlib.Core.Path.{◌≡◌, refl}
use mathlib.Core.Logic.{◌⊎◌, inl, inr}
use mathlib.Core.Bool.{Bool, true, false}
use cevent_sample.Prelude.Tests.{if◌then◌else◌}
use mathlib.Core.Option.{Option, none, some}

pub data Run {ℓ} (A : Type ℓ) : Type ℓ where
  ret : A → Run A
  fault : Run A
  hangs : Run A

infixl 5 ◌>>=◌ ◌>>◌
abbrev pub ◌>>=◌ {ℓ κ} : {A : Type ℓ} {B : Type κ} → Run A → (A → Run B) → Run B
ret a >>= f = f a
fault >>= f = fault
hangs >>= f = hangs

abbrev pub ◌>>◌ {ℓ κ} : {A : Type ℓ} {B : Type κ} → Run A → Run B → Run B
m >> k = m >>= λ _. k

pub Option-cases {ℓ} : {A : Type ℓ} (o : Option A) → (o ≡ none) ⊎ ((a : A) × (o ≡ some a))
Option-cases none = inl refl
Option-cases (some a) = inr (a, refl)

pub fault≢ret {ℓ} : {A : Type ℓ} {a : A} → fault ≡ ret a → ⊥
fault≢ret h = cc

-- `P` of the value, if there is one
abbrev pub After {ℓ κ} : {A : Type ℓ} → (A → Type κ) → Run A → Type κ
After P (ret a) = P a
After P fault = Unit
After P hangs = Unit

pub After-bind {ℓ κ μ} :
    {A : Type ℓ} {B : Type κ} (P : B → Type μ) (m : Run A) (k : A → Run B)
    → ((a : A) → After P (k a))
    → After P (m >>= k)
After-bind P (ret a) k h = h a
After-bind P fault k h = tt
After-bind P hangs k h = tt

pub After-if {ℓ κ} :
    {A : Type ℓ} (P : A → Type κ) (b : Bool) (x y : Run A)
    → (b ≡ true → After P x)
    → (b ≡ false → After P y)
    → After P (if b then x else y)
After-if P true x y then_lem else_lem = then_lem refl
After-if P false x y then_lem else_lem = else_lem refl

-- what is known of the value of `m` is known of what `k` goes on with
pub After-then {ℓ κ μ ν} :
    {A : Type ℓ} {B : Type κ} (Q : A → Type μ) (P : B → Type ν) (m : Run A) (k : A → Run B)
    → After Q m
    → ((a : A) → Q a → After P (k a))
    → After P (m >>= k)
After-then Q P (ret a) k h f = f a h
After-then Q P fault k h f = tt
After-then Q P hangs k h f = tt

pub After-of {ℓ κ} :
    {A : Type ℓ} (P : A → Type κ) (m : Run A) → ((a : A) → m ≡ ret a → P a) → After P m
After-of P (ret a) h = h a refl
After-of P fault h = tt
After-of P hangs h = tt

pub After-map {ℓ κ μ} :
    {A : Type ℓ} {P : A → Type κ} {Q : A → Type μ} (m : Run A)
    → ((a : A) → P a → Q a)
    → After P m
    → After Q m
After-map (ret a) f h = f a h
After-map fault f h = tt
After-map hangs f h = tt
