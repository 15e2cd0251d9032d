-- ===== src/Examples/Polling/Tests.antt =====
-- poll_demo and periodic_demo on concrete systems, and the theorem at inputs that meet its hypotheses.
use ccthread.Prelude.{ℕ, ◌≡◌, refl, some, arith}
use ccthread.Types.{linux, success, timeout}
use ccthread.External.{Env, Call, calloc, cond_timedwait, held}
use ccthread.External.Samples.{quiet, filled}
use ccthread.Sem.Create.{ccsem_create, ccsem_destroy}
use ccthread.Sem.Posix.{timedwait_loop, timedwait_posix, etimedout}
use ccthread.Sem.Native.{ccsem_timedwait}
use ccthread.Sem.Permits.{IsSerial}
use ccthread.Examples.Polling.{poll_demo, periodic_loop, periodic_demo}
use ccthread.Examples.Polling.Laws.{poll_demo-trywait}

-- Memory is there, and every sleep ends by its deadline.
abbrev answers : ℕ → Call → ℕ
answers n calloc = 8
answers n (cond_timedwait c m ts) = etimedout
answers n c = 0

abbrev lonely : Env
lonely = record quiet { answer = answers }

lonely-IsSerial : IsSerial lonely 8
lonely-IsSerial = record {
  locks = λ n. refl;
  signals = λ n. refl;
  lock_keeps = λ n h. refl;
  unlock_keeps = λ n h. refl;
  signal_keeps = λ n h. refl;
}

poll_demo-trywait_example :
    ((poll_demo linux lonely (filled 0)).0 ≡ (timeout, success))
    × (held (poll_demo linux lonely (filled 0)).1.history ≡ held (filled 0).history)
unfolding ccsem_create
poll_demo-trywait_example =
    poll_demo-trywait linux lonely refl refl (filled 0) (λ e. omega arith) lonely-IsSerial

gives_up : (periodic_demo 5 1 linux lonely (filled 0)).0 ≡ some 5
unfolding periodic_demo periodic_loop ccsem_create ccsem_timedwait timedwait_posix timedwait_loop
    ccsem_destroy
gives_up = refl
