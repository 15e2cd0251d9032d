-- ===== src/Thread/Name.antt =====
-- ccthread_set_name of ccthread.c. A C string is the list of its bytes before the terminating NUL;
-- `none` is NULL.
use ccthread.Prelude.{
  ℕ, zero, suc, ◌*◌, ◌^◌, ◌-◌, ◌&&◌, not, Option, none, some, List, [], ◌∷◌, ltb, ◌==◌,
  if◌then◌else◌,
}
use ccthread.Types.{Platform, msvc, apple, linux, bsd, netbsd, solaris, Code, ok, failed}
use ccthread.Atomic.{Toolchain}
use ccthread.Once.Calls.{ccthread_once}
use ccthread.External.{
  Env, World, Prog, pure, ◌>>=◌, ◌>>◌, call, load, handle, tid, pthread_self, pthread_equal,
  pthread_setname, pthread_setname_self, get_module_handle, get_proc_address, get_current_thread,
  raise_name_exception, multi_byte_length, malloc, free, multi_byte_convert, set_thread_description,
}
use ccthread.Thread.Create.{ccthread_gettid}

-- `CCTHREAD_NAME_MAX`
abbrev pub name_max : ℕ
name_max = 16

-- The copying loop, with room for `room` bytes more: it stops at a NUL byte of `name`, and what stands
-- in `name` past its bytes is the NUL.
unfoldable pub copy : ℕ → List ℕ → List ℕ
copy zero name = []
copy (suc room) [] = []
copy (suc room) (c ∷ name) = if c == 0 then [] else c ∷ copy room name

-- What `buf` holds before its NUL.
unfoldable pub truncate : List ℕ → List ℕ
unfolding copy
truncate name = copy (name_max - 1) name

-- The static variables of the file on Windows: `once_desc` and `pSetThreadDesc`.
pub record Statics : Type 0 where
  pub once_desc : ℕ
  pub set_thread_desc : ℕ

-- `init_pSetThreadDesc`: the new `pSetThreadDesc`.
unfoldable pub init_set_thread_desc : ℕ → Prog ℕ
init_set_thread_desc old = do
  m ← call get_module_handle
  if m == 0
      then pure old
      else (do fp ← call (get_proc_address m); pure (if fp == 0 then old else fp))

-- `ccthread_once(&once_desc, init_pSetThreadDesc, NULL)`; `none` if its loop runs out of fuel.
unfoldable pub load_description : ℕ → Toolchain → Statics → Env → World → Option (Statics × World)
unfolding init_set_thread_desc
load_description fuel tc s env w =
    elim (ccthread_once fuel tc (some s.once_desc)
      (some (λ (v : ℕ × World). init_set_thread_desc v.0 env v.1)) (s.set_thread_desc, w)) [
        | some (code, some once, (fp, w')) ↦
            some (record { once_desc = once; set_thread_desc = fp }, w')
        | some (code, none, v) ↦ none
        | none ↦ none
      ]

code_of : ℕ → Code
code_of rc = if rc == 0 then ok else failed

-- The older way of naming, compiled under MSVC only.
unfoldable pub name_by_exception : Platform → ℕ → List ℕ → Prog Code
name_by_exception msvc p buf = do
  t ← if p == 0 then ccthread_gettid msvc 0 else load p tid
  call (raise_name_exception t buf)
  pure ok
name_by_exception _ p buf = pure failed

-- Conversion and naming by `SetThreadDescription`. Its result is an HRESULT: a 32-bit pattern that
-- stands for success if its top bit is clear. `wlen` is positive if it is below 2^31 and not 0.
unfoldable pub describe : ℕ → List ℕ → Prog Code
describe h buf = do
  wlen ← call (multi_byte_length buf)
  if not (wlen == 0) && ltb wlen (2 ^ 31)
      then (do
        wname ← call (malloc (wlen * 2))
        if wname == 0 then pure failed else (do
          call (multi_byte_convert buf wname)
          hr ← call (set_thread_description h wname)
          call (free wname)
          pure (if ltb hr (2 ^ 31) then ok else failed)))
      else pure failed

-- The thread to name: the caller's own for NULL, and none if the handle was closed already.
unfoldable pub name_windows : Platform → ℕ → ℕ → List ℕ → Prog Code
unfolding name_by_exception describe ccthread_gettid
name_windows platform description p buf =
    if description == 0
    then name_by_exception platform p buf
    else if p == 0
    then (do h ← call get_current_thread; describe h buf)
    else (do
      h ← load p handle
      if h == 0 then pure failed else (do again ← load p handle; describe again buf))

target : ℕ → Prog ℕ
target p = if p == 0 then call pthread_self else load p handle

unfoldable pub name_posix : Platform → ℕ → List ℕ → Prog Code
unfolding code_of target
name_posix apple p buf = do
  mine ←
      (if p == 0
        then pure 1
        else (do self ← call pthread_self; h ← load p handle; call (pthread_equal h self)))
  if mine == 0 then pure failed else (do rc ← call (pthread_setname_self buf); pure (code_of rc))
name_posix bsd p buf = do t ← target p; call (pthread_setname t buf); pure ok
name_posix linux p buf = do t ← target p; rc ← call (pthread_setname t buf); pure (code_of rc)
name_posix netbsd p buf = do t ← target p; rc ← call (pthread_setname t buf); pure (code_of rc)
name_posix solaris p buf = do t ← target p; rc ← call (pthread_setname t buf); pure (code_of rc)
name_posix _ p buf = pure failed

unfoldable pub set_name_posix : Platform → ℕ → Option (List ℕ) → Prog Code
unfolding name_posix
set_name_posix platform p none = pure failed
set_name_posix platform p (some name) = name_posix platform p (truncate name)

unfoldable pub set_name_windows :
    ℕ
    → Toolchain
    → Platform
    → Statics
    → ℕ
    → Option (List ℕ)
    → Env
    → World
    → Option (Code × Statics × World)
unfolding name_windows
set_name_windows fuel tc platform s p none env w = some (failed, s, w)
set_name_windows fuel tc platform s p (some name) env w = elim (load_description fuel tc s env w) [
  | none ↦ none
  | some (s', w') ↦
      let (code, w'') = name_windows platform s'.set_thread_desc p (truncate name) env w' in
      some (code, s', w'')
]
