-- ===== src/Thread/NameLaws.antt =====
-- What ccthread_set_name does with the name and with the system.
use ccthread.Prelude.{
  ℕ, zero, suc, ◌+◌, ◌≤◌, ◌≡◌, refl, ◌≢◌, Option, none, some, List, [], ◌∷◌, arith, length, take,
  ℕ_discrete,
}
use ccthread.Types.{Platform, msvc, mingw, Code, ok, failed}
use ccthread.Atomic.{Toolchain, unknown}
use ccthread.External.{Env, World, held}
use ccthread.Once.Laws.{once-once}
use ccthread.Thread.Name.{
  copy, truncate, Statics, init_set_thread_desc, load_description, name_windows, set_name_windows,
}

-- No byte of the name is NUL.
abbrev pub NoNul : List ℕ → Type 0
NoNul [] = Unit {0}
NoNul (c ∷ name) = (c ≢ 0) × NoNul name

copy_lem :
    (room : ℕ) (name : List ℕ)
    → (length (copy room name) ≤ room)
      × NoNul (copy room name)
      × (NoNul name → copy room name ≡ take room name)
unfolding copy
copy_lem zero name = (omega arith, tt, λ h. refl)
copy_lem (suc room) [] = (omega arith, tt, λ h. refl)
copy_lem (suc room) (c ∷ name) =
    let (short, clean, same) = copy_lem room name in
    elim (ℕ_discrete c 0) [
      | yes nul ↦ (ground arith, ground arith, λ h. absurd (h.0 nul))
      | no byte ↦ (ground arith, ground (arith, clean), λ h. ground (arith, same h.1))
    ]

-- The truncated name fits the buffer of 16 bytes with its NUL and holds no NUL itself, and if the given
-- bytes hold no NUL, it is the first 15 of them.
pub truncate-take :
    (name : List ℕ)
    → (length (truncate name) + 1 ≤ 16)
      × NoNul (truncate name)
      × (NoNul name → truncate name ≡ take 15 name)
unfolding truncate
truncate-take name = let (short, clean, same) = copy_lem 15 name in (omega arith, clean, same)

copy-copy : (room : ℕ) (name : List ℕ) → copy room (copy room name) ≡ copy room name
unfolding copy
copy-copy zero name = refl
copy-copy (suc room) [] = refl
copy-copy (suc room) (c ∷ name) = ground (arith, copy-copy room name)

-- Truncating twice is truncating once.
pub truncate-truncate : (name : List ℕ) → truncate (truncate name) ≡ truncate name
unfolding truncate
truncate-truncate name = copy-copy 15 name

-- `SetThreadDescription` is looked up by the first call only: with a working compiler and a fresh
-- flag, two rounds of fuel are enough for it, and any later lookup changes nothing and calls nothing.
pub looked_up_once :
    (tc : Toolchain) (fuel old : ℕ) (env env' : Env) (w v : World)
    → tc ≢ unknown
    → let start : Statics = record { once_desc = 0; set_thread_desc = old } in
      (s : Statics) × (w' : World) × (load_description (suc (suc fuel)) tc start env w
        ≡ some (s, w'))
      × (s.set_thread_desc ≡ (init_set_thread_desc old env w).0)
      × (load_description (suc fuel) tc s env' v ≡ some (s, v))
unfolding load_description
looked_up_once tc fuel old env env' w v k = (
  record { once_desc = 2; set_thread_desc = (init_set_thread_desc old env w).0 },
  (init_set_thread_desc old env w).1,
  ground (
    arith,
    (once-once tc (λ (x : ℕ × World). init_set_thread_desc x.0 env x.1)
        (λ (x : ℕ × World). init_set_thread_desc x.0 env x.1) fuel (old, w) k).0,
  ),
  refl,
  ground (
    arith,
    (once-once tc (λ (x : ℕ × World). x) (λ (x : ℕ × World). init_set_thread_desc x.0 env' x.1) fuel
        ((init_set_thread_desc old env w).0, v) k).1,
  ),
)

pub loaded :
    (tc : Toolchain) (fuel : ℕ) (s : Statics) (env : Env) (w : World)
    → tc ≢ unknown
    → s.once_desc ≡ 2
    → load_description (suc fuel) tc s env w ≡ some (s, w)
unfolding load_description
loaded tc fuel s env w k d = ground (
  arith,
  (once-once tc (λ (x : ℕ × World). x) (λ (x : ℕ × World). init_set_thread_desc x.0 env x.1) fuel
      (s.set_thread_desc, w) k).1,
)

name_windows-held :
    (platform : Platform) (d p : ℕ) (buf : List ℕ) (env : Env) (w : World)
    → held (name_windows platform d p buf env w).1.history ≡ held w.history
unfolding name_windows
name_windows-held platform d p buf env w = ground arith

-- On Windows ccthread_set_name leaves nothing held that was not held before: the converted name is
-- freed on every path.
pub set_name_held :
    (platform : Platform) (tc : Toolchain) (fuel p : ℕ) (s s' : Statics) (name : Option (List ℕ))
    (env : Env) (w w' : World) (code : Code)
    → tc ≢ unknown
    → s.once_desc ≡ 2
    → set_name_windows (suc fuel) tc platform s p name env w ≡ some (code, s', w')
    → held w'.history ≡ held w.history
unfolding set_name_windows
set_name_held platform tc fuel p s s' none env w w' code k d e = cc
set_name_held platform tc fuel p s s' (some name) env w w' code k d e = ground (
  arith,
  loaded tc fuel s env w k d,
  name_windows-held platform s.set_thread_desc p (truncate name) env w,
)

-- Where `SetThreadDescription` is not available, naming reports success under MSVC and failure under
-- MinGW, for every thread and every name that is not NULL.
pub set_name_unavailable :
    (tc : Toolchain) (fuel p : ℕ) (name : List ℕ) (env : Env) (w : World)
    → tc ≢ unknown
    → let s : Statics = record { once_desc = 2; set_thread_desc = 0 } in
      ((w' : World) × (set_name_windows (suc fuel) tc msvc s p (some name) env w
          ≡ some (ok, s, w')))
      × ((w' : World) × (set_name_windows (suc fuel) tc mingw s p (some name) env w
            ≡ some (failed, s, w')))
unfolding set_name_windows
set_name_unavailable tc fuel p name env w k =
    let s : Statics = record { once_desc = 2; set_thread_desc = 0 } in
    let e = loaded tc fuel s env w k refl in
    (
      ((name_windows msvc 0 p (truncate name) env w).1, ground (arith, e)),
      ((name_windows mingw 0 p (truncate name) env w).1, ground (arith, e)),
    )
