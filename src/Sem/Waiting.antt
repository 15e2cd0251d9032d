-- ===== src/Sem/Waiting.antt =====
-- The waiting loops of ccsem.c: when they return, and what they have taken.
use ccthread.Prelude.{ℕ, zero, suc, ◌-◌, ◌<◌, ◌≡◌, ◌≢◌, ◌⊎◌, some, arith, ℕ_discrete}
use ccthread.Types.{Status, success, error, timeout}
use ccthread.External.{
  Timespec, Env, World, Field, write, call, count, mutex_lock, mutex_unlock, cond_wait,
  cond_timedwait,
}
use ccthread.Sem.Posix.{wait_loop, wait_posix, timedwait_loop, etimedout}

-- The world after `k` returns of `pthread_cond_wait`.
unfoldable pub woken : ℕ → ℕ → Env → World → World
woken zero p env w = w
woken (suc k) p env w = woken k p env (call (cond_wait p p) env w).1

wait_loop-returns :
    (k fuel p : ℕ) (env : Env) (w : World)
    → k < fuel
    → (woken k p env w).heap p count ≢ 0
    → (s : Status) × ((wait_loop fuel p env w).0 ≡ some s)
unfolding woken wait_loop
wait_loop-returns k zero p env w b h = absurd (omega arith)
wait_loop-returns zero (suc fuel) p env w b h = (success, ground arith)
wait_loop-returns (suc k) (suc fuel) p env w b h = elim (ℕ_discrete (w.heap p count) 0) [
  | yes empty ↦ elim (ℕ_discrete (env.answer w.time (cond_wait p p)) 0) [
    | yes fine ↦
        let (s, e) =
          wait_loop-returns k fuel p env (call (cond_wait p p) env w).1 (omega arith) h in
        (s, ground (arith, e))
    | no failed ↦ (error, ground arith)
  ]
  | no permits ↦ (success, ground arith)
]

-- Termination: if the count is not 0 when some wake-up of `pthread_cond_wait`, the `k`-th, returns,
-- then ccsem_wait returns, with at most `k` waits: fuel `k + 1` is enough.
pub wait_posix-returns :
    (k fuel p : ℕ) (env : Env) (w : World)
    → k < fuel
    → (woken k p env (call (mutex_lock p) env w).1).heap p count ≢ 0
    → (s : Status) × ((wait_posix fuel p env w).0 ≡ some s)
unfolding wait_posix
wait_posix-returns k fuel p env w b h = elim (ℕ_discrete (env.answer w.time (mutex_lock p)) 0) [
  | yes fine ↦
      let (s, e) = wait_loop-returns k fuel p env (call (mutex_lock p) env w).1 b h in
      (s, ground (arith, e))
  | no failed ↦ (error, ground arith)
]

-- No other thread changes the count before the call that unlocks the mutex has returned.
abbrev pub UnlocksLast : Env → ℕ → Type 0
UnlocksLast env p =
    (n : ℕ) (h : ℕ → Field → ℕ) → env.meddle n (mutex_unlock p) h p count ≡ h p count

wait_loop-takes :
    (fuel p : ℕ) (env : Env) (w : World)
    → UnlocksLast env p
    → (wait_loop fuel p env w).0 ≡ some success
    → (k : ℕ) × (k < fuel)
      × ((woken k p env w).heap p count ≡ suc ((wait_loop fuel p env w).1.heap p count))
unfolding woken wait_loop
wait_loop-takes zero p env w u e = cc
wait_loop-takes (suc fuel) p env w u e = elim (ℕ_discrete (w.heap p count) 0) [
  | yes empty ↦ elim (ℕ_discrete (env.answer w.time (cond_wait p p)) 0) [
    | yes fine ↦
        let (k, b, t) =
          wait_loop-takes fuel p env (call (cond_wait p p) env w).1 u (ground arith) in
        (suc k, omega arith, ground (arith, t))
    | no failed ↦ absurd (ground arith)
  ]
  | no permits ↦
      (0, omega arith, ground (arith, u w.time (write w.heap p count (w.heap p count - 1))))
]

-- No permit from nothing: if ccsem_wait returns success, then some wake-up found a count that is one
-- more than the count it leaves, as long as no other thread changes the count during the unlock.
pub wait_posix-takes :
    (fuel p : ℕ) (env : Env) (w : World)
    → UnlocksLast env p
    → (wait_posix fuel p env w).0 ≡ some success
    → (k : ℕ) × (k < fuel)
      × ((woken k p env (call (mutex_lock p) env w).1).heap p count
          ≡ suc ((wait_posix fuel p env w).1.heap p count))
unfolding wait_posix
wait_posix-takes fuel p env w u e = elim (ℕ_discrete (env.answer w.time (mutex_lock p)) 0) [
  | yes fine ↦
      let (k, b, t) = wait_loop-takes fuel p env (call (mutex_lock p) env w).1 u (ground arith) in
      (k, b, ground (arith, t))
  | no failed ↦ absurd (ground arith)
]

-- The world after `k` returns of `pthread_cond_timedwait`.
unfoldable pub woken_until : ℕ → ℕ → Timespec → Env → World → World
woken_until zero p ts env w = w
woken_until (suc k) p ts env w = woken_until k p ts env (call (cond_timedwait p p ts) env w).1

-- The timed wait returns once some wake-up, the `k`-th, finds a count that is not 0 or answers other
-- than 0: in particular once the deadline has passed, with fuel `k + 1`.
pub timedwait_loop-returns :
    (k fuel p : ℕ) (ts : Timespec) (env : Env) (w : World)
    → k < fuel
    → ((woken_until k p ts env w).heap p count ≢ 0)
      ⊎ (env.answer (woken_until k p ts env w).time (cond_timedwait p p ts) ≢ 0)
    → (s : Status) × ((timedwait_loop fuel p ts env w).0 ≡ some s)
unfolding woken_until timedwait_loop
timedwait_loop-returns k zero p ts env w b h = absurd (omega arith)
timedwait_loop-returns zero (suc fuel) p ts env w b h = elim (ℕ_discrete (w.heap p count) 0) [
  | yes empty ↦ elim (ℕ_discrete (env.answer w.time (cond_timedwait p p ts)) etimedout) [
    | yes late ↦ (timeout, ground arith)
    | no other ↦ (error, ground arith)
  ]
  | no permits ↦ (success, ground arith)
]
timedwait_loop-returns (suc k) (suc fuel) p ts env w b h = elim (ℕ_discrete (w.heap p count) 0) [
  | yes empty ↦ elim (ℕ_discrete (env.answer w.time (cond_timedwait p p ts)) etimedout) [
    | yes late ↦ (timeout, ground arith)
    | no other ↦ elim (ℕ_discrete (env.answer w.time (cond_timedwait p p ts)) 0) [
      | yes fine ↦
          let next = (call (cond_timedwait p p ts) env w).1 in
          let (s, e) = timedwait_loop-returns k fuel p ts env next (omega arith) h in
          (s, ground (arith, e))
      | no failed ↦ (error, ground arith)
    ]
  ]
  | no permits ↦ (success, ground arith)
]
