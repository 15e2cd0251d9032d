-- ===== src/Examples/Ring.antt =====
-- What the rings of the examples hold: the items of a log, each at its number modulo the capacity.
use ccthread.Prelude.{
  ℕ, zero, suc, ◌+◌, ◌%◌, ◌≤◌, ◌<◌, ◌≡◌, refl, sym, List, [], ◌∷◌, arith, update, update-cases,
}

-- `BUFSIZE` of ccsem_producer_consumer.c and `QUEUE_CAPACITY` of cccondvar_basic.c
abbrev pub capacity : ℕ
capacity = 4

-- The first `k` items of a log, the last one first.
pub first : (ℕ → ℕ) → ℕ → List ℕ
first log zero = []
first log (suc k) = log k ∷ first log k

pub first-zero : (log : ℕ → ℕ) → first log 0 ≡ []
unfolding first
first-zero log = refl

pub first-add : (log : ℕ → ℕ) (k : ℕ) → first log (k + 1) ≡ log k ∷ first log k
unfolding first
first-add log k = let e : k + 1 ≡ suc k = omega arith in rw e

-- The first items do not depend on the later ones.
pub first-update : (log : ℕ → ℕ) (k n x : ℕ) → k ≤ n → first (update log n x) k ≡ first log k
unfolding first
first-update log zero n x h = refl
first-update log (suc k) n x h = ground (arith, first-update log k n x)

-- The items from number `low` up to `high` stand in their slots.
abbrev pub Holds : (ℕ → ℕ) → (ℕ → ℕ) → ℕ → ℕ → Type 0
Holds log buffer low high = (j : ℕ) → low ≤ j → j < high → buffer (j % capacity) ≡ log j

-- Writing the next item overwrites none that is still to be read.
pub put-Holds :
    (log buffer : ℕ → ℕ) (low i x : ℕ)
    → log i ≡ x
    → i < capacity + low
    → Holds log buffer low i
    → Holds log (update buffer (i % capacity) x) low (i + 1)
put-Holds log buffer low i x new room h j a b =
    update-cases (λ v. v ≡ log j) buffer (i % capacity) x (j % capacity)
      (λ e. let same : i ≡ j = omega arith in rw (← same) (sym new)) (λ ne. h j a (omega arith))

-- The slots do not depend on the later items.
pub Holds-update :
    (log buffer : ℕ → ℕ) (low high x : ℕ)
    → Holds log buffer low high
    → Holds (update log high x) buffer low high
Holds-update log buffer low high x h j a b =
    update-cases (λ v. buffer (j % capacity) ≡ v) log high x j (λ e. absurd (omega arith))
      (λ ne. h j a b)
