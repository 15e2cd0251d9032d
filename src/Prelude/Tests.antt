-- ===== src/Prelude/Tests.antt =====
-- Boolean tests on the native numbers, the conditional, and functions updated at one index.
use Prim.Native.Nat.{ℕ, compare, Ordering}
use mathlib.Core.Path.{◌≡◌, refl, fun_ext}
use mathlib.Core.Logic.{◌≢◌, ◌⊎◌, inl, inr}
use mathlib.Core.Bool.{Bool, true, false}
use native.Mathlib.Decide.{ℕ_discrete}
use native.Mathlib.Omega.{arith}

abbrev pub ltb : ℕ → ℕ → Bool
ltb a b = elim (compare a b) [ Ordering.lt ↦ true | _ ↦ false ]

abbrev pub leb : ℕ → ℕ → Bool
leb a b = elim (compare a b) [ Ordering.gt ↦ false | _ ↦ true ]

infix 50 ◌==◌
abbrev pub ◌==◌ : ℕ → ℕ → Bool
a == b = elim (compare a b) [ Ordering.eq ↦ true | _ ↦ false ]

infix 1 if◌then◌else◌
abbrev pub if◌then◌else◌ {ℓ} : {A : Type ℓ} → Bool → A → A → A
if true then x else y = x
if false then x else y = y

pub Bool-cases : (b : Bool) → (b ≡ true) ⊎ (b ≡ false)
Bool-cases true = inl refl
Bool-cases false = inr refl

-- What holds of either branch, each under its test, holds of the conditional.
pub if-cases {ℓ κ} :
    {A : Type ℓ} (b : Bool) (P : A → Type κ) {x y : A}
    → (b ≡ true → P x)
    → (b ≡ false → P y)
    → P (if b then x else y)
if-cases true P f g = f refl
if-cases false P f g = g refl

-- The state of thread `i` becomes `a`; the other threads keep theirs.
abbrev pub update {ℓ} : {A : Type ℓ} → (ℕ → A) → ℕ → A → ℕ → A
update f i a j = if i == j then a else f j

-- To prove something of the state of thread `j` after thread `i` has moved.
pub update-cases {ℓ κ} :
    {A : Type ℓ} (P : A → Type κ) (f : ℕ → A) (i : ℕ) (a : A) (j : ℕ)
    → (i ≡ j → P a)
    → (i ≢ j → P (f j))
    → P (update f i a j)
update-cases P f i a j here there = elim (ℕ_discrete i j) [
  | yes e ↦ let b : (i == j) ≡ true = ground arith in rw b (here e)
  | no n ↦ let b : (i == j) ≡ false = ground arith in rw b (there n)
]

pub update_same {ℓ} : {A : Type ℓ} (f : ℕ → A) (i : ℕ) → update f i (f i) ≡ f
update_same f i = fun_ext λ j. update-cases (λ a. a ≡ f j) f i (f i) j (λ e. rw e) (λ _. refl)

pub update-map {ℓ κ} :
    {A : Type ℓ} {B : Type κ} (g : A → B) (f : ℕ → A) (i : ℕ) (a : A)
    → (λ j. g (update f i a j)) ≡ update (λ j. g (f j)) i (g a)
update-map g f i a = fun_ext λ j. ground arith
