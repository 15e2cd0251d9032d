-- ===== src/Prelude/Sums.antt =====
-- Sums over the first `n` threads.
use Prim.Native.Nat.{ℕ, zero, suc, ◌+◌, ◌*◌, ◌≤◌, ◌<◌}
use mathlib.Core.Path.{◌≡◌, refl}
use mathlib.Core.Logic.{◌≢◌}
use native.Mathlib.Decide.{ℕ_discrete, dec_lt}
use native.Mathlib.Omega.{arith}

pub sum : (ℕ → ℕ) → ℕ → ℕ
sum f zero = 0
sum f (suc n) = f n + sum f n

pub sum-zero : (f : ℕ → ℕ) (n : ℕ) → ((j : ℕ) → f j ≡ 0) → sum f n ≡ 0
unfolding sum
sum-zero f zero z = refl
sum-zero f (suc n) z = omega (arith, z n, sum-zero f n z)

sum-same : (f g : ℕ → ℕ) (n i : ℕ) → n ≤ i → ((j : ℕ) → i ≢ j → f j ≡ g j) → sum f n ≡ sum g n
unfolding sum
sum-same f g zero i b same = refl
sum-same f g (suc n) i b same =
    omega (arith, sum-same f g n i (omega arith) same, same n (λ e. omega arith))

-- Two families that differ at one index.
pub sum-change :
    (f g : ℕ → ℕ) (n i : ℕ) → i < n → ((j : ℕ) → i ≢ j → f j ≡ g j) → sum f n + g i ≡ sum g n + f i
unfolding sum
sum-change f g zero i b same = absurd (omega arith)
sum-change f g (suc n) i b same = elim (ℕ_discrete i n) [
  | yes e ↦ rw e (omega (arith, sum-same f g n i (omega arith) same))
  | no ne ↦ omega (arith, sum-change f g n i (omega arith) same, same n ne)
]

pub le-sum : (f : ℕ → ℕ) (n i : ℕ) → i < n → f i ≤ sum f n
unfolding sum
le-sum f zero i b = absurd (omega arith)
le-sum f (suc n) i b = elim (ℕ_discrete i n) [
  | yes e ↦ rw e (omega arith)
  | no ne ↦ omega (arith, le-sum f n i (omega arith))
]

pub two-le-sum : (f : ℕ → ℕ) (n i j : ℕ) → i < n → j < n → i ≢ j → f i + f j ≤ sum f n
unfolding sum
two-le-sum f zero i j bi bj ne = absurd (omega arith)
two-le-sum f (suc n) i j bi bj ne = elim (ℕ_discrete i n) [
  | yes e ↦ rw e (omega (arith, le-sum f n j (omega arith)))
  | no ni ↦ elim (ℕ_discrete j n) [
    | yes e ↦ rw e (omega (arith, le-sum f n i (omega arith)))
    | no nj ↦ omega (arith, two-le-sum f n i j (omega arith) (omega arith) ne)
  ]
]

pub sum-positive : (f : ℕ → ℕ) (n : ℕ) → 0 < sum f n → (i : ℕ) × (i < n) × (0 < f i)
unfolding sum
sum-positive f zero h = absurd (omega arith)
sum-positive f (suc n) h = elim (dec_lt 0 (f n)) [
  | yes b ↦ (n, omega arith, b)
  | no nb ↦ let (i, bi, bf) = sum-positive f n (omega arith) in (i, omega arith, bf)
]

pub sum-constant : (k n : ℕ) → sum (λ _. k) n ≡ n * k
unfolding sum
sum-constant k zero = omega arith
sum-constant k (suc n) = omega (arith, sum-constant k n)

pub sum-zero_below : (f : ℕ → ℕ) (n : ℕ) → ((j : ℕ) → j < n → f j ≡ 0) → sum f n ≡ 0
unfolding sum
sum-zero_below f zero z = refl
sum-zero_below f (suc n) z =
    omega (arith, z n (omega arith), sum-zero_below f n (λ j b. z j (omega arith)))
