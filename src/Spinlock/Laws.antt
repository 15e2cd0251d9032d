-- ===== src/Spinlock/Laws.antt =====
-- What the calls of ccspinlock.c do, and how they relate to the shared accesses of `Threads`.
use ccthread.Prelude.{
  ℕ, zero, suc, ◌+◌, ◌^◌, ◌≤◌, ◌<◌, ◌≡◌, refl, ◌≢◌, true, Option, none, some, arith, ℕ_discrete,
}
use ccthread.Types.{Status, success, error, RecursionType}
use ccthread.Atomic.{Toolchain, unknown}
use ccthread.Spinlock.Threads.{Spin, zeroed, Pc, idle, Choice, lock, step}
use ccthread.Spinlock.Calls.{trylock, spin_until, ccspinlock_create, unlock}

-- `n` more shared accesses of one thread, while no other thread moves.
unfoldable pub solo : ℕ → ℕ → Choice → Spin × Pc → Spin × Pc
solo zero t c s = s
solo (suc n) t c s = solo n t c (step t c s.0 s.1)

-- Where a thread that held `d` stands after an attempt.
abbrev pub returned : ℕ → Status → Pc
returned d success = idle (suc d)
returned d _ = idle d

-- Refinement: with working atomics, a thread that starts `trylock` and runs alone is outside the
-- call again after at least one and at most six accesses, and has left the struct as the whole call does, with one
-- acquisition more exactly when the call succeeds.
pub solo-trylock :
    (tc : Toolchain) (t d : ℕ) (m : Spin) {s : Status} {m' : Spin}
    → tc ≢ unknown
    → trylock tc t m ≡ some (s, m')
    → (n : ℕ) × (0 < n) × (n ≤ 6) × (solo n t lock (m, idle d) ≡ (m', returned d s))
unfolding solo trylock step
solo-trylock tc t d m k e = elim (ℕ_discrete m.owner_tid 0) [
  | yes free ↦ elim (ℕ_discrete m.flag 0) [
    | yes clear ↦ (5, omega arith, omega arith, ground arith)
    | no set ↦ (3, omega arith, omega arith, ground arith)
  ]
  | no held ↦ elim (ℕ_discrete m.owner_tid t) [
    | yes mine ↦ (5, omega arith, omega arith, ground arith)
    | no other ↦ elim (ℕ_discrete m.flag 0) [
      | yes clear ↦ (6, omega arith, omega arith, ground arith)
      | no set ↦ (4, omega arith, omega arith, ground arith)
    ]
  ]
]

-- `n` attempts of one thread, all of which succeed; `n` releases.
unfoldable pub lock_times : Toolchain → ℕ → ℕ → Spin → Option Spin
lock_times tc t zero m = some m
lock_times tc t (suc n) m = elim (trylock tc t m) [
  | some (success, m') ↦ lock_times tc t n m'
  | _ ↦ none
]

unfoldable pub unlock_times : ℕ → Spin → Spin
unlock_times zero m = m
unlock_times (suc n) m = unlock_times n (unlock m)

lock_times-held :
    (tc : Toolchain) (t n r : ℕ)
    → t ≢ 0
    → r + n < 2 ^ 31
    → lock_times tc t n (record { flag = 1; owner_tid = t; recursion = r })
      ≡ some (record { flag = 1; owner_tid = t; recursion = r + n })
unfolding lock_times trylock
lock_times-held tc t zero r h b = ground arith
lock_times-held tc t (suc n) r h b = ground (arith, lock_times-held tc t n (r + 1))

unlock_times-held :
    (t n r : ℕ)
    → unlock_times n (record { flag = 1; owner_tid = t; recursion = suc r + n })
      ≡ record { flag = 1; owner_tid = t; recursion = suc r }
unfolding unlock_times unlock
unlock_times-held t zero r = ground arith
unlock_times-held t (suc n) r = ground (arith, unlock_times-held t n r)

unlock_times-all :
    (t n : ℕ)
    → unlock_times (suc n) (record { flag = 1; owner_tid = t; recursion = suc n })
      ≡ record { flag = 0; owner_tid = 0; recursion = 0 }
unfolding unlock_times unlock
unlock_times-all t zero = refl
unlock_times-all t (suc n) = ground (arith, unlock_times-all t n)

-- Re-entry and release match: with working atomics and a thread id that is not 0, a thread that
-- takes a fresh lock `n + 1` times, `n + 1` below 2^31, finds `recursion` at `n + 1`; `n` releases
-- leave it the owner at depth 1, and all `n + 1` leave the struct as `calloc` gave it.
pub nested_locking :
    (tc : Toolchain) (t n : ℕ)
    → tc ≢ unknown
    → t ≢ 0
    → suc n < 2 ^ 31
    → (m : Spin) × (lock_times tc t (suc n) zeroed ≡ some m)
      × (m.recursion ≡ suc n)
      × (unlock_times n m ≡ record { flag = 1; owner_tid = t; recursion = 1 })
      × (unlock_times (suc n) m ≡ zeroed)
unfolding lock_times trylock
nested_locking tc t n k h b = (
  record { flag = 1; owner_tid = t; recursion = suc n },
  ground (arith, lock_times-held tc t n 1),
  refl,
  ground (arith, unlock_times-held t n 0),
  unlock_times-all t n,
)

-- A lock of either type that a thread has taken refuses every other thread and is entered again by
-- its owner: `ccspinlock_create` ignores the type.
pub trylock-taken :
    (tc : Toolchain) (type : RecursionType) (t u : ℕ) {m m' : Spin}
    → tc ≢ unknown
    → t ≢ 0
    → u ≢ t
    → ccspinlock_create true type ≡ some m
    → trylock tc t m ≡ some (success, m')
    → (trylock tc u m' ≡ some (error, m'))
      × (trylock tc t m' ≡ some (success, record m' { recursion = 2 }))
unfolding ccspinlock_create trylock
trylock-taken tc type t u k h n c e = ground arith

-- With the header's last branch no thread ever takes a lock that no thread owns, and the loop of
-- `ccspinlock_lock` runs out of any fuel.
pub unknown_never_locks :
    (t fuel : ℕ) (m : Spin)
    → m.owner_tid ≡ 0
    → (trylock unknown t m ≡ some (error, record m { flag = 1 }))
      × (spin_until fuel unknown t m ≡ none)
unfolding spin_until trylock
unknown_never_locks t zero m h = (ground arith, refl)
unknown_never_locks t (suc fuel) m h =
    (ground arith, ground (arith, unknown_never_locks t fuel (record m { flag = 1 }) h))

attempt-error :
    (tc : Toolchain) (t : ℕ) (m m' : Spin)
    → tc ≢ unknown
    → m.flag ≤ 1
    → trylock tc t m ≡ some (error, m')
    → m' ≡ m
unfolding trylock
attempt-error tc t m m' k b e = ground arith

spin_until-error :
    (tc : Toolchain) (t fuel : ℕ) (m : Spin)
    → trylock tc t m ≡ some (error, m)
    → spin_until fuel tc t m ≡ none
unfolding spin_until
spin_until-error tc t zero m e = refl
spin_until-error tc t (suc fuel) m e = ground (arith, spin_until-error tc t fuel m e)

-- With working atomics and no other thread moving, the loop of `ccspinlock_lock` returns at its first
-- attempt, with no pause, if that attempt succeeds; if it fails, the loop uses up any fuel.
pub spin_until_alone :
    (tc : Toolchain) (t fuel : ℕ) (m m' : Spin)
    → tc ≢ unknown
    → m.flag ≤ 1
    → (trylock tc t m ≡ some (success, m') → spin_until (suc fuel) tc t m ≡ some (0, m'))
      × (trylock tc t m ≡ some (error, m') → spin_until fuel tc t m ≡ none)
unfolding spin_until
spin_until_alone tc t fuel m m' k b =
    (λ e. ground arith, λ e. spin_until-error tc t fuel m (rw (attempt-error tc t m m' k b e) at e))
