-- ===== src/Once/Safety.antt =====
-- What holds of ccthread_once after every schedule.
use ccthread.Prelude.{ℕ, zero, suc, ◌≤◌, ◌≡◌, refl, true, List, [], ◌∷◌, arith, System, run}
use ccthread.Once.Threads.{
  Block, Pc, idle, look, swap, pause, restore, enter, running, mark, returned, step, after,
}
use ccthread.Once.Invariant.{Fact, wakes, after-Inv}

-- Exactly once: after every schedule `func` was entered at most once, and in any thread whose call
-- has returned, `func` was entered once and has returned.
pub exactly_once :
    (ts : List (ℕ × Unit {0}))
    → ((after ts).mem.started ≤ 1)
      × ((i : ℕ)
          → (after ts).pc i ≡ returned
          → ((after ts).mem.started ≡ 1) × ((after ts).mem.finished ≡ 1))
exactly_once ts = ((after-Inv ts).counts.few, λ i e. ground (arith, (after-Inv ts).fact i))

-- `n` turns of thread `j`.
unfoldable pub turns : ℕ → ℕ → List (ℕ × Unit {0})
turns zero j = []
turns (suc n) j = (j, tt) ∷ turns n j

wake-at :
    (j : ℕ) (s : System Block Pc) (p : Pc)
    → s.pc j ≡ p
    → wakes p ≡ true
    → (n : ℕ) × (n ≤ 3) × ((run step (turns n j) s).mem.once ≡ 2)
unfolding run turns step
wake-at j s restore e h = (1, omega arith, ground arith)
wake-at j s enter e h = (3, omega arith, ground arith)
wake-at j s running e h = (2, omega arith, ground arith)
wake-at j s mark e h = (1, omega arith, ground arith)
wake-at j s p e h = cc

-- No deadlock: whenever the block says "in progress" there is a thread whose own next accesses, at
-- most three, set it to "done", whatever the others wait for.
pub no_deadlock :
    (ts : List (ℕ × Unit {0}))
    → (after ts).mem.once ≡ 1
    → (j : ℕ) × (n : ℕ) × (n ≤ 3) × ((run step (turns n j) (after ts)).mem.once ≡ 2)
no_deadlock ts h =
    let (j, w) = (after-Inv ts).waker h in
    let (n, b, e) = wake-at j (after ts) ((after ts).pc j) refl w in (j, n, b, e)

return-at :
    (i : ℕ) (s : System Block Pc) (p : Pc)
    → s.pc i ≡ p
    → s.mem.once ≡ 2
    → s.mem.finished ≡ 1
    → Fact s.mem p
    → (n : ℕ) × (n ≤ 3) × ((run step (turns n i) s).pc i ≡ returned)
unfolding run turns step
return-at i s idle e d k f = (2, omega arith, ground arith)
return-at i s look e d k f = (1, omega arith, ground arith)
return-at i s swap e d k f = (2, omega arith, ground arith)
return-at i s restore e d k f = (1, omega arith, ground arith)
return-at i s pause e d k f = (2, omega arith, ground arith)
return-at i s mark e d k f = (2, omega arith, ground arith)
return-at i s returned e d k f = (0, omega arith, e)
return-at i s p e d k f = absurd (omega arith)

-- Once the block says "done", any thread needs at most three accesses of its own to return, wherever
-- it stands: the exchange that overwrites 2 by 1 is undone by the thread that made it.
pub returns_when_done :
    (ts : List (ℕ × Unit {0})) (i : ℕ)
    → (after ts).mem.once ≡ 2
    → (n : ℕ) × (n ≤ 3) × ((run step (turns n i) (after ts)).pc i ≡ returned)
returns_when_done ts i h =
    return-at i (after ts) ((after ts).pc i) refl h ((after-Inv ts).counts.done h).1
      ((after-Inv ts).fact i)
