-- ===== src/Thread/NameCalls.antt =====
-- The names that ccthread_set_name passes to the system: to pthread_setname_np and its relatives, to the
-- exception of the debugger, and to the conversion for SetThreadDescription.
use ccthread.Prelude.{
  ℕ, suc, ◌+◌, ◌≤◌, ◌≡◌, refl, ◌≢◌, ◌⊎◌, inl, inr, some, List, [], ◌∷◌, ◌++◌, arith, length, take,
}
use ccthread.Types.{Platform, msvc, apple, linux, bsd, netbsd, solaris, Code, failed}
use ccthread.Atomic.{Toolchain, unknown}
use ccthread.External.{
  Env, World, Call, pthread_setname, pthread_setname_self, raise_name_exception, multi_byte_length,
  multi_byte_convert, call, load, handle, get_current_thread,
}
use ccthread.Thread.Name.{
  truncate, Statics, describe, name_by_exception, name_windows, set_name_windows, name_posix,
  set_name_posix,
}
use ccthread.Thread.Create.{ccthread_gettid}
use ccthread.Thread.NameLaws.{NoNul, truncate-take, loaded}

-- The names in a history, the latest first.
abbrev pub names : List (Call × ℕ) → List (List ℕ)
names [] = []
names ((pthread_setname t buf, _) ∷ h) = buf ∷ names h
names ((pthread_setname_self buf, _) ∷ h) = buf ∷ names h
names ((raise_name_exception t buf, _) ∷ h) = buf ∷ names h
names ((multi_byte_length buf, _) ∷ h) = buf ∷ names h
names ((multi_byte_convert buf wname, _) ∷ h) = buf ∷ names h
names (_ ∷ h) = names h

-- `buf` fits the buffer of 16 bytes with its NUL and holds no NUL itself; if `name` holds no NUL, `buf`
-- is its first 15 bytes, all of them if there are fewer.
abbrev pub IsCut : List ℕ → List ℕ → Type 0
IsCut name buf = (length buf + 1 ≤ 16) × NoNul buf × (NoNul name → buf ≡ take 15 name)

abbrev pub AllCut : List ℕ → List (List ℕ) → Type 0
AllCut name [] = Unit {0}
AllCut name (buf ∷ bufs) = IsCut name buf × AllCut name bufs

-- The call passed the system the names `bufs`, all cut from `name`, and at least one unless it failed.
abbrev pub PassesCut : List ℕ → Code → World → World → Type 0
PassesCut name code w w' =
    (bufs : List (List ℕ)) × (names w'.history ≡ bufs ++ names w.history)
    × AllCut name bufs
    × ((code ≡ failed) ⊎ (bufs ≢ []))

-- What a call does that passes on only the name it was given.
abbrev Passes : List ℕ → Code → World → World → Type 0
Passes buf code w w' =
    ((names w'.history ≡ names w.history) × (code ≡ failed))
    ⊎ ((names w'.history ≡ buf ∷ names w.history)
        ⊎ (names w'.history ≡ buf ∷ buf ∷ names w.history))

name_posix-Passes :
    (platform : Platform) (p : ℕ) (buf : List ℕ) (env : Env) (w : World)
    → let (code, w') = name_posix platform p buf env w in Passes buf code w w'
unfolding name_posix
name_posix-Passes apple p buf env w = ground arith
name_posix-Passes bsd p buf env w = ground arith
name_posix-Passes linux p buf env w = ground arith
name_posix-Passes netbsd p buf env w = ground arith
name_posix-Passes solaris p buf env w = ground arith
name_posix-Passes _ p buf env w = inl (refl, refl)

describe-Passes :
    (h : ℕ) (buf : List ℕ) (env : Env) (w : World)
    → let (code, w') = describe h buf env w in Passes buf code w w'
unfolding describe
describe-Passes h buf env w = ground arith

exception-Passes :
    (platform : Platform) (p : ℕ) (buf : List ℕ) (env : Env) (w : World)
    → let (code, w') = name_by_exception platform p buf env w in Passes buf code w w'
unfolding name_by_exception ccthread_gettid
exception-Passes msvc p buf env w = ground arith
exception-Passes _ p buf env w = inl (refl, refl)

name_windows-Passes :
    (platform : Platform) (d p : ℕ) (buf : List ℕ) (env : Env) (w : World)
    → let (code, w') = name_windows platform d p buf env w in Passes buf code w w'
unfolding name_windows
name_windows-Passes platform d p buf env w = ground (
  arith,
  describe-Passes (call get_current_thread env w).0 buf env (call get_current_thread env w).1,
  describe-Passes (load p handle env (load p handle env w).1).0 buf env
      (load p handle env (load p handle env w).1).1,
  exception-Passes platform p buf env w,
)

Passes-PassesCut :
    (name : List ℕ) (code : Code) (w w' : World)
    → Passes (truncate name) code w w'
    → PassesCut name code w w'
Passes-PassesCut name code w w' (inl (same, fails)) = ([], same, tt, inl fails)
Passes-PassesCut name code w w' (inr (inl one)) =
    (truncate name ∷ [], one, (truncate-take name, tt), inr (λ f. ground (arith, f)))
Passes-PassesCut name code w w' (inr (inr two)) = (
  truncate name ∷ truncate name ∷ [],
  two,
  (truncate-take name, (truncate-take name, tt)),
  inr (λ f. ground (arith, f)),
)

-- Every name that ccthread_set_name passes to the system, on each platform and in any world, fits the
-- buffer of 16 bytes with its NUL and holds no NUL itself; for a name without NUL bytes it is the first
-- 15 bytes of it, or all of them if there are fewer. A call that does not fail has passed at least one.
-- On Windows this is stated of a working compiler and a call after the look-up of
-- SetThreadDescription, which returns with one round of fuel for ccthread_once.
pub set_name-PassesCut :
    (platform : Platform) (tc : Toolchain) (fuel p : ℕ) (s : Statics) (name : List ℕ) (env : Env)
    (w : World)
    → tc ≢ unknown
    → s.once_desc ≡ 2
    → (let (code, w') = set_name_posix platform p (some name) env w in PassesCut name code w w')
      × ((code : Code) × (w' : World) × (set_name_windows
              (suc fuel)
              tc
              platform
              s
              p
              (some name)
              env
              w
            ≡ some (code, s, w'))
          × PassesCut name code w w')
unfolding set_name_posix set_name_windows
set_name-PassesCut platform tc fuel p s name env w k d =
    let posix = name_posix platform p (truncate name) env w in
    let windows = name_windows platform s.set_thread_desc p (truncate name) env w in
    (
      Passes-PassesCut name posix.0 w posix.1 (name_posix-Passes platform p (truncate name) env w),
      (
        windows.0,
        windows.1,
        ground (arith, loaded tc fuel s env w k d),
        Passes-PassesCut name windows.0 w windows.1
            (name_windows-Passes platform s.set_thread_desc p (truncate name) env w),
      ),
    )
