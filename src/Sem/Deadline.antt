-- ===== src/Sem/Deadline.antt =====
-- The sleeps of ccsem_timedwait on POSIX: all of them end at one deadline, read once from the clock.
use ccthread.Prelude.{
  ℕ, zero, suc, ◌+◌, ◌*◌, ◌≤◌, ◌<◌, ◌≡◌, ◌↔◌, some, List, [], ◌∷◌, length, arith, ℕ_discrete,
}
use ccthread.Types.{Status, timeout}
use ccthread.External.{
  Timespec, Env, World, Call, call, count, mutex_lock, mutex_unlock, cond_timedwait,
  clock_gettime_sec, clock_gettime_nsec,
}
use ccthread.Clock.{clock_id}
use ccthread.Deadline.{deadline, IsNormal, nanoseconds, deadline_exact}
use ccthread.Sem.Posix.{timedwait_loop, timedwait_posix, etimedout}

-- The history after sleeps until `ts` that returned the codes of the list, the first one first.
abbrev pub slept : ℕ → Timespec → List ℕ → List (Call × ℕ) → List (Call × ℕ)
slept p ts [] h = h
slept p ts (rc ∷ rcs) h = slept p ts rcs ((cond_timedwait p p ts, rc) ∷ h)

-- The last code, 0 if there is none.
abbrev pub last : List ℕ → ℕ
last [] = 0
last (rc ∷ []) = rc
last (_ ∷ rcs) = last rcs

-- A sleep that ended with 0 is not the last one.
last-woken :
    (rc : ℕ) (rcs : List ℕ) (s : Status)
    → rc ≡ 0
    → (s ≡ timeout) ↔ (last rcs ≡ etimedout)
    → (s ≡ timeout) ↔ (last (rc ∷ rcs) ≡ etimedout)
last-woken rc [] s z h = rw z h
last-woken rc (c ∷ rcs) s z h = h

-- What a wait makes of a history and how it ends.
abbrev pub Waited : ℕ → Timespec → ℕ → List (Call × ℕ) → List (Call × ℕ) → Status → Type 0
Waited p ts fuel h h' s =
    (rcs : List ℕ) × (a : ℕ) × (h' ≡ (mutex_unlock p, a) ∷ slept p ts rcs h)
    × (length rcs ≤ fuel)
    × ((s ≡ timeout) ↔ (last rcs ≡ etimedout))

timedwait_loop-slept :
    (fuel p : ℕ) (ts : Timespec) (env : Env) (w : World) (s : Status)
    → (timedwait_loop fuel p ts env w).0 ≡ some s
    → Waited p ts fuel w.history (timedwait_loop fuel p ts env w).1.history s
unfolding timedwait_loop
timedwait_loop-slept zero p ts env w s e = cc
timedwait_loop-slept (suc fuel) p ts env w s e = elim (ℕ_discrete (w.heap p count) 0) [
  | yes empty ↦
      let rc = env.answer w.time (cond_timedwait p p ts) in
      let w' = (call (cond_timedwait p p ts) env w).1 in
      elim (ℕ_discrete rc etimedout) [
        | yes late ↦ (
          rc ∷ [],
          env.answer w'.time (mutex_unlock p),
          ground arith,
          omega arith,
          (λ k. late, λ k. ground arith),
        )
        | no other ↦ elim (ℕ_discrete rc 0) [
          | yes fine ↦
              let (rcs, a, same, short, end) =
                timedwait_loop-slept fuel p ts env w' s (ground arith) in
              (rc ∷ rcs, a, ground (arith, same), omega arith, last-woken rc rcs s fine end)
          | no failed ↦ (
            rc ∷ [],
            env.answer w'.time (mutex_unlock p),
            ground arith,
            omega arith,
            (λ k. ground arith, λ k. absurd (other k)),
          )
        ]
      ]
  | no permits ↦ (
    [],
    env.answer w.time (mutex_unlock p),
    ground arith,
    omega arith,
    (λ k. ground arith, λ k. ground arith),
  )
]

-- A timed wait that finds no permit reads the clock once and sleeps until one deadline, however often
-- it is woken: the deadline is in normal form and lies exactly `timeout_ms` after the time that was
-- read, the wait reports a timeout exactly if its last sleep ran into the deadline, and it unlocks the
-- mutex at the end. The mutex was locked, and the clock gave a time in normal form.
pub timedwait_posix-deadline :
    (fuel p timeout_ms : ℕ) (env : Env) (w : World) (s : Status)
    → (timedwait_posix fuel p timeout_ms env w).0 ≡ some s
    → env.answer w.time (mutex_lock p) ≡ 0
    → (call (mutex_lock p) env w).1.heap p count ≡ 0
    → env.answer (suc (suc w.time)) (clock_gettime_nsec (clock_id env.clocks)) < 1000000000
    → let sec = env.answer (suc w.time) (clock_gettime_sec (clock_id env.clocks)) in
      let nsec = env.answer (suc (suc w.time)) (clock_gettime_nsec (clock_id env.clocks)) in
      (ts : Timespec) × IsNormal ts
      × (nanoseconds ts ≡ sec * 1000000000 + nsec + timeout_ms * 1000000)
      × Waited p ts fuel
          ((clock_gettime_nsec (clock_id env.clocks), nsec)
            ∷ (clock_gettime_sec (clock_id env.clocks), sec)
            ∷ (mutex_lock p, env.answer w.time (mutex_lock p))
            ∷ w.history)
          (timedwait_posix fuel p timeout_ms env w).1.history
          s
unfolding timedwait_posix
timedwait_posix-deadline fuel p ms env w s e locked empty normal =
    let w₁ = (call (mutex_lock p) env w).1 in
    let w₂ = (call (clock_gettime_sec (clock_id env.clocks)) env w₁).1 in
    let w₃ = (call (clock_gettime_nsec (clock_id env.clocks)) env w₂).1 in
    let now : Timespec = record {
      tv_sec = env.answer w₁.time (clock_gettime_sec (clock_id env.clocks));
      tv_nsec = env.answer w₂.time (clock_gettime_nsec (clock_id env.clocks));
    } in
    let exact = deadline_exact now ms normal in
    let (rcs, a, same, short, end) =
      timedwait_loop-slept fuel p (deadline now ms) env w₃ s (ground (arith, e)) in
    (deadline now ms, exact.0, exact.1, (rcs, a, ground (arith, same), short, end))
