-- ===== src/Clock/Tests.antt =====
-- The theorems on clocks at inputs that meet their hypotheses.
use ccthread.Prelude.{ℕ, ◌-◌, ◌^◌, ◌≡◌, refl, ◌⊎◌, ◌↔◌, arith}
use ccthread.Types.{linux, mingw}
use ccthread.External.{
  Env, monotonic, realtime, Call, condattr_setclock, calloc, call, get_last_error,
}
use ccthread.External.Samples.{quiet, clock, filled}
use ccthread.Clock.{cond_clock}
use ccthread.Clock.Laws.{ccsem_create-clock}
use ccthread.Clock.Infinite.{timedwait_infinite}
use ccthread.Sem.Create.{ccsem_create}
use ccthread.Sem.Native.{ccsem_wait, ccsem_timedwait}
use ccthread.Condvar.Calls.{cccondvar_wait, cccondvar_timedwait}

-- The clock of the attribute cannot be set.
abbrev refusing : ℕ → Call → ℕ
refusing n calloc = 8
refusing n (condattr_setclock c) = 22
refusing n c = 0

abbrev no_clock : Env
no_clock = record quiet { answer = refusing }

ccsem_create-clock_example :
    ((ccsem_create linux 3 no_clock (filled 0)).0 ≡ 8)
    × ((cond_clock
            (ccsem_create linux 3 no_clock (filled 0)).0
            (ccsem_create linux 3 no_clock (filled 0)).1.history
          ≡ monotonic)
        ↔ ((◌≡◌ {A = ℕ} 22 0) ⊎ (monotonic ≡ realtime)))
ccsem_create-clock_example =
    ccsem_create-clock linux no_clock (filled 0) 3 refl refl (λ e. omega arith) refl refl

timedwait_infinite_example :
    ((ccsem_timedwait 1 mingw 8 (2 ^ 32 - 1) clock (filled 0)).1
      ≡ (ccsem_wait 1 mingw 8 clock (filled 0)).1)
    × (let waited = (cccondvar_wait mingw 4 6 clock (filled 0)).1 in
        let timed = (cccondvar_timedwait mingw 4 6 (2 ^ 32 - 1) clock (filled 0)).1 in
        (timed ≡ waited) ⊎ (timed ≡ (call get_last_error clock waited).1))
timedwait_infinite_example = timedwait_infinite mingw 1 8 4 6 clock (filled 0) refl
