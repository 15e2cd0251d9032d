-- ===== src/Once/Invariant.antt =====
-- Who initialises, and who restores the value 2: true at the start and kept by every access.
use ccthread.Prelude.{
  ℕ, ◌≤◌, ◌≡◌, refl, ◌≢◌, ◌⊎◌, inl, inr, Bool, true, false, List, arith, update, update-cases,
  run-keeps,
}
use ccthread.Once.Threads.{
  Block, Pc, idle, restore, enter, running, mark, returned, step, init, after,
}

-- The thread that the exchange chose to run `func`.
abbrev pub runs : Pc → Bool
runs enter = true
runs running = true
runs mark = true
runs _ = false

-- A thread that is going to store 2.
abbrev pub wakes : Pc → Bool
wakes restore = true
wakes p = runs p

abbrev pub Fact : Block → Pc → Type 0
Fact m enter = (m.started ≡ 0) × (m.finished ≡ 0) × (m.once ≢ 0)
Fact m running = (m.started ≡ 1) × (m.finished ≡ 0) × (m.once ≢ 0)
Fact m mark = (m.started ≡ 1) × (m.finished ≡ 1) × (m.once ≢ 0)
Fact m restore = (m.started ≡ 1) × (m.finished ≡ 1) × (m.once ≢ 0)
Fact m returned = (m.started ≡ 1) × (m.finished ≡ 1) × (m.once ≢ 0)
Fact m _ = Unit

pub record Counts (m : Block) : Type 0 where
  pub three : m.once ≤ 2
  pub few : m.started ≤ 1
  pub fresh : m.once ≡ 0 → (m.started ≡ 0) × (m.finished ≡ 0)
  pub done : m.once ≡ 2 → (m.started ≡ 1) × (m.finished ≡ 1)

pub record Inv (m : Block) (pc : ℕ → Pc) : Type 0 where
  pub counts : Counts m
  pub unique : (i j : ℕ) → runs (pc i) ≡ true → runs (pc j) ≡ true → i ≡ j
  pub waker : m.once ≡ 1 → (i : ℕ) × (wakes (pc i) ≡ true)
  pub fact : (i : ℕ) → Fact m (pc i)

Counts-step : (i : ℕ) (m : Block) (p : Pc) → Counts m → Fact m p → Counts (step i tt m p).0
unfolding step
Counts-step i m idle k f = k
Counts-step i m p k f = ground arith

Fact-self :
    (i : ℕ) (m : Block) (p : Pc) → Counts m → Fact m p → Fact (step i tt m p).0 (step i tt m p).1
unfolding step
Fact-self i m idle k f = tt
Fact-self i m p k f = ground arith

Fact-other :
    (i : ℕ) (m : Block) (p q : Pc)
    → (runs p ≡ true → runs q ≡ false)
    → Fact m p
    → Fact m q
    → Fact (step i tt m p).0 q
unfolding step
Fact-other i m idle q o f g = g
Fact-other i m p q o f g = ground arith

runs-step :
    (i : ℕ) (m : Block) (p : Pc) → runs (step i tt m p).1 ≡ true → (runs p ≡ true) ⊎ (m.once ≡ 0)
unfolding step
runs-step i m idle o = ground arith
runs-step i m p o = ground arith

-- A thread that runs `func` has set the block.
runs-Fact : (m : Block) (p : Pc) → Fact m p → runs p ≡ true → m.once ≢ 0
runs-Fact m idle f o = ground arith
runs-Fact m p f o = ground arith

wakes-step :
    (i : ℕ) (m : Block) (p : Pc)
    → Counts m
    → (step i tt m p).0.once ≡ 1
    → (wakes (step i tt m p).1 ≡ true) ⊎ ((m.once ≡ 1) × (wakes p ≡ false))
unfolding step
wakes-step i m idle k e = ground arith
wakes-step i m p k e = ground arith

module _ {m : Block} {pc : ℕ → Pc} (inv : Inv m pc) (i : ℕ) where
  open inv use {counts, unique, waker, fact}

  abbrev after_move : Block × Pc
  after_move = step i tt m (pc i)

  move-Fact : (j : ℕ) → Fact after_move.0 (update pc i after_move.1 j)
  move-Fact j =
      update-cases (λ p. Fact after_move.0 p) pc i after_move.1 j
        (λ e. Fact-self i m (pc i) counts (fact i))
        (λ n. Fact-other i m (pc i) (pc j) (λ o. ground (arith, unique i j)) (fact i) (fact j))

  move-alone : (j : ℕ) → runs after_move.1 ≡ true → runs (pc j) ≡ true → i ≡ j
  move-alone j o q = elim (runs-step i m (pc i) o) [
    | inl mine ↦ unique i j mine q
    | inr clear ↦ absurd (runs-Fact m (pc j) (fact j) q clear)
  ]

  move_unique :
      (j k : ℕ)
      → runs (update pc i after_move.1 j) ≡ true
      → runs (update pc i after_move.1 k) ≡ true
      → j ≡ k
  move_unique j k =
      update-cases (λ p. runs p ≡ true → runs (update pc i after_move.1 k) ≡ true → j ≡ k) pc i
        after_move.1 j
        (λ e o.
          update-cases (λ p. runs p ≡ true → j ≡ k) pc i after_move.1 k (λ e' o'. omega arith)
            (λ n o'. omega (arith, move-alone k o o')))
        (λ n o.
          update-cases (λ p. runs p ≡ true → j ≡ k) pc i after_move.1 k
            (λ e' o'. omega (arith, move-alone j o' o)) (λ n' o'. unique j k o o'))

  move-waker : after_move.0.once ≡ 1 → (j : ℕ) × (wakes (update pc i after_move.1 j) ≡ true)
  move-waker h = elim (wakes-step i m (pc i) counts h) [
    | inl mine ↦ (
      i,
      update-cases (λ p. wakes p ≡ true) pc i after_move.1 i (λ e. mine) (λ n. absurd (n refl)),
    )
    | inr (was, not_mine) ↦
        let (j, o) = waker was in
        (j, update-cases (λ p. wakes p ≡ true) pc i after_move.1 j (λ e. ground arith) (λ n. o))
  ]

  pub move-Inv : Inv after_move.0 (update pc i after_move.1)
  move-Inv = record {
    counts = Counts-step i m (pc i) counts (fact i);
    unique = move_unique;
    waker = move-waker;
    fact = move-Fact;
  }

pub Inv-init : Inv init.mem init.pc
Inv-init = record {
  counts = ground arith;
  unique = λ i j o o'. ground arith;
  waker = λ h. absurd (omega arith);
  fact = λ i. tt;
}

pub after-Inv : (ts : List (ℕ × Unit {0})) → Inv (after ts).mem (after ts).pc
after-Inv ts = run-keeps step (λ s. Inv s.mem s.pc) (λ t s inv. move-Inv inv t.0) ts init Inv-init
