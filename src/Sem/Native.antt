-- ===== src/Sem/Native.antt =====
-- The operations of ccsem.c on a Win32 semaphore and on a dispatch semaphore, and the calls that
-- choose between them and the pthread ones.
use ccthread.Prelude.{ℕ, ◌-◌, ◌*◌, ◌^◌, Option, some, ◌==◌, if◌then◌else◌}
use ccthread.Types.{Platform, is_windows, is_apple, Status, success, error, timeout}
use ccthread.External.{
  Prog, pure, ◌>>=◌, ◌>>◌, call, load, handle, sem, wait_for_single_object, release_semaphore,
  dispatch_wait_forever, dispatch_wait_now, dispatch_wait_until, dispatch_time, dispatch_signal,
}
use ccthread.Sem.Posix.{wait_posix, trywait_posix, timedwait_posix, post_posix}

-- `INFINITE`, `WAIT_TIMEOUT` and `NSEC_PER_MSEC`; `WAIT_OBJECT_0` is 0.
abbrev pub infinite : ℕ
infinite = 2 ^ 32 - 1

abbrev pub wait_timeout : ℕ
wait_timeout = 0x102

abbrev nsec_per_msec : ℕ
nsec_per_msec = 1000000

abbrev pub zero_is_success : Status → ℕ → Status
zero_is_success s rc = if rc == 0 then success else s

wait_windows : ℕ → Prog Status
wait_windows p = do
  h ← load p handle
  rc ← call (wait_for_single_object h infinite)
  pure (zero_is_success error rc)

-- ccsem_trywait and ccsem_timedwait on Windows differ in the time they pass.
timedwait_windows : ℕ → ℕ → Prog Status
timedwait_windows p ms = do
  h ← load p handle
  rc ← call (wait_for_single_object h ms)
  pure (if rc == 0 then success else if rc == wait_timeout then timeout else error)

wait_apple : ℕ → Prog Status
wait_apple p = do
  s ← load p sem
  rc ← call (dispatch_wait_forever s)
  pure (zero_is_success error rc)

trywait_apple : ℕ → Prog Status
trywait_apple p = do
  s ← load p sem
  rc ← call (dispatch_wait_now s)
  pure (zero_is_success timeout rc)

timedwait_apple : ℕ → ℕ → Prog Status
timedwait_apple p ms = do
  until ← call (dispatch_time (ms * nsec_per_msec))
  s ← load p sem
  rc ← call (dispatch_wait_until s until)
  pure (zero_is_success timeout rc)

post_windows : ℕ → Prog Status
post_windows p = do
  h ← load p handle
  ok ← call (release_semaphore h)
  pure (if ok == 0 then error else success)

post_apple : ℕ → Prog Status
post_apple p = do s ← load p sem; call (dispatch_signal s); pure success

abbrev total : Prog Status → Prog (Option Status)
total m = do s ← m; pure (some s)

unfoldable pub ccsem_wait : ℕ → Platform → ℕ → Prog (Option Status)
unfolding wait_windows wait_apple wait_posix
ccsem_wait fuel platform p =
    if p == 0
    then pure (some error)
    else if is_windows platform
    then total (wait_windows p)
    else if is_apple platform
    then total (wait_apple p)
    else wait_posix fuel p

unfoldable pub ccsem_trywait : Platform → ℕ → Prog Status
unfolding timedwait_windows trywait_apple trywait_posix
ccsem_trywait platform p =
    if p == 0
    then pure error
    else if is_windows platform
    then timedwait_windows p 0
    else if is_apple platform
    then trywait_apple p
    else trywait_posix p

unfoldable pub ccsem_timedwait : ℕ → Platform → ℕ → ℕ → Prog (Option Status)
unfolding timedwait_windows timedwait_apple timedwait_posix
ccsem_timedwait fuel platform p timeout_ms =
    if p == 0
    then pure (some error)
    else if is_windows platform
    then total (timedwait_windows p timeout_ms)
    else if is_apple platform
    then total (timedwait_apple p timeout_ms)
    else timedwait_posix fuel p timeout_ms

unfoldable pub ccsem_post : Platform → ℕ → Prog Status
unfolding post_windows post_apple post_posix
ccsem_post platform p =
    if p == 0
    then pure error
    else if is_windows platform
    then post_windows p
    else if is_apple platform
    then post_apple p
    else post_posix p
