-- ===== src/Sem/Tests.antt =====
-- Runs of the semaphore, and the theorems at inputs that meet their hypotheses.
use ccthread.Prelude.{
  ◌+◌, ◌*◌, ◌==◌, if◌then◌else◌, ◌-◌, ◌^◌, ◌≡◌, refl, some, List, [], ◌∷◌, arith,
}
use ccthread.Types.{Status, success, timeout}
use ccthread.External.{
  Env, monotonic, clock_gettime_sec, clock_gettime_nsec, Timespec, held, count, mutex_lock,
}
use ccthread.External.Samples.{quiet, posting, filled}
use ccthread.Deadline.{deadline, IsNormal, nanoseconds}
use ccthread.Sem.Deadline.{Waited, timedwait_posix-deadline}
use ccthread.Sem.Posix.{wait_posix, trywait_posix, timedwait_posix, post_posix}
use ccthread.Sem.Locking.{operations_unlock}
use ccthread.Sem.Waiting.{woken, wait_posix-returns}
use ccthread.Sem.Permits.{
  Op, try, post, spec_all, perform_all, IsSerial, perform_all-spec, post_overflows,
}

abbrev late : Timespec
late = record { tv_sec = 41; tv_nsec = 900000000 }

deadline_carries : deadline late 250 ≡ record { tv_sec = 42; tv_nsec = 150000000 }
unfolding deadline
deadline_carries = refl

operations_unlock_example :
    ((wait_posix 3 8 quiet (filled 2)).0 ≡ some success
      → held (wait_posix 3 8 quiet (filled 2)).1.history ≡ [])
    × (held (trywait_posix 8 quiet (filled 2)).1.history ≡ [])
    × ((timedwait_posix 3 8 250 quiet (filled 2)).0 ≡ some success
        → held (timedwait_posix 3 8 250 quiet (filled 2)).1.history ≡ [])
    × (held (post_posix 8 quiet (filled 2)).1.history ≡ [])
operations_unlock_example = operations_unlock 3 8 250 quiet (filled 2) success

-- The first wake-up finds a permit.
wait_posix-returns_example : (s : Status) × ((wait_posix 2 8 posting (filled 0)).0 ≡ some s)
unfolding woken
wait_posix-returns_example = wait_posix-returns 1 2 8 posting (filled 0) (omega arith) (omega arith)

quiet-IsSerial : IsSerial quiet 8
quiet-IsSerial = record {
  locks = λ n. refl;
  signals = λ n. refl;
  lock_keeps = λ n h. refl;
  unlock_keeps = λ n h. refl;
  signal_keeps = λ n h. refl;
}

abbrev some_ops : List Op
some_ops = try ∷ try ∷ post ∷ try ∷ try ∷ []

perform_some_ops :
    (perform_all some_ops 8 quiet (filled 1)).0
    ≡ success ∷ timeout ∷ success ∷ success ∷ timeout ∷ []
unfolding perform_all trywait_posix post_posix
perform_some_ops = refl

perform_all-spec_example :
    ((perform_all some_ops 8 quiet (filled 1)).0 ≡ (spec_all some_ops 1).0)
    × ((perform_all some_ops 8 quiet (filled 1)).1.heap 8 count ≡ (spec_all some_ops 1).1)
perform_all-spec_example = perform_all-spec some_ops 8 quiet (filled 1) quiet-IsSerial

post_overflows_example :
    (perform_all (post ∷ try ∷ []) 8 quiet (filled (2 ^ 32 - 1))).0 ≡ success ∷ timeout ∷ []
post_overflows_example = post_overflows 8 quiet (filled (2 ^ 32 - 1)) quiet-IsSerial refl

-- The first sleep is woken for nothing, and the second one runs into the deadline.
abbrev woken_then_late : Env
woken_then_late = record quiet { answer = λ n c. if n == 4 then 110 else 0 }

waited_in_vain : (timedwait_posix 2 8 250 woken_then_late (filled 0)).0 ≡ some timeout
unfolding timedwait_posix
waited_in_vain = refl

timedwait_posix-deadline_example :
    (ts : Timespec) × IsNormal ts
    × (nanoseconds ts ≡ 0 * 1000000000 + 0 + 250 * 1000000)
    × Waited 8 ts 2
        ((clock_gettime_nsec monotonic, 0)
          ∷ (clock_gettime_sec monotonic, 0)
          ∷ (mutex_lock 8, 0)
          ∷ [])
        (timedwait_posix 2 8 250 woken_then_late (filled 0)).1.history
        timeout
timedwait_posix-deadline_example =
    timedwait_posix-deadline 2 8 250 woken_then_late (filled 0) timeout waited_in_vain refl refl
      (omega arith)
