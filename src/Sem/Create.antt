-- ===== src/Sem/Create.antt =====
-- ccsem_create and ccsem_destroy (ccsem.c).
use ccthread.Prelude.{ℕ, ◌-◌, ◌^◌, ltb, ◌==◌, if◌then◌else◌}
use ccthread.Types.{Platform, plain, is_windows, is_apple}
use ccthread.Clock.{own_clock}
use ccthread.External.{
  Prog, pure, ◌>>=◌, ◌>>◌, call, load, store, alloc, count, handle, sem, free, mutex_init,
  mutex_destroy, condattr_init, condattr_setclock, condattr_destroy, cond_init, cond_destroy,
  create_semaphore, close_handle, dispatch_create, dispatch_release,
}

-- `LONG_MAX` of Win32, and the literal that stands for it on macOS.
abbrev pub long_max : ℕ
long_max = 2 ^ 31 - 1

abbrev pub clamp : ℕ → ℕ
clamp n = if ltb long_max n then long_max else n

create_windows : ℕ → ℕ → Prog ℕ
create_windows p initial_count = do
  h ← call (create_semaphore (clamp initial_count) long_max)
  store p handle h
  if h == 0 then (do call (free p); pure 0) else pure p

create_apple : ℕ → ℕ → Prog ℕ
create_apple p initial_count = do
  s ← call (dispatch_create (clamp initial_count))
  store p sem s
  if s == 0 then (do call (free p); pure 0) else pure p

create_posix : ℕ → ℕ → Prog ℕ
create_posix p initial_count = do
  rc ← call (mutex_init plain p)
  if rc == 0
      then (do
        call condattr_init
        clock ← own_clock
        call (condattr_setclock clock)
        rc' ← call (cond_init p)
        call condattr_destroy
        if rc' == 0
            then (do store p count initial_count; pure p)
            else (do call (mutex_destroy p); call (free p); pure 0))
      else (do call (free p); pure 0)

-- The address of the new semaphore, or 0.
unfoldable pub ccsem_create : Platform → ℕ → Prog ℕ
unfolding create_windows create_apple create_posix
ccsem_create platform initial_count = do
  p ← alloc
  if p == 0
      then pure 0
      else (if is_windows platform
          then create_windows p initial_count
          else if is_apple platform
          then create_apple p initial_count
          else create_posix p initial_count)

destroy_windows : ℕ → Prog ℕ
destroy_windows p = do h ← load p handle; if h == 0 then pure 0 else call (close_handle h)

destroy_apple : ℕ → Prog ℕ
destroy_apple p = do s ← load p sem; call (dispatch_release s)

destroy_posix : ℕ → Prog ℕ
destroy_posix p = do call (mutex_destroy p); call (cond_destroy p)

unfoldable pub ccsem_destroy : Platform → ℕ → Prog ℕ
unfolding destroy_windows destroy_apple destroy_posix
ccsem_destroy platform p = if p == 0 then pure 0 else (do
  if is_windows platform
      then destroy_windows p
      else if is_apple platform
      then destroy_apple p
      else destroy_posix p
  call (free p))
