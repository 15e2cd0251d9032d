-- ===== src/Examples/Mutexes/Laws.antt =====
-- What examples/ccmutex_basic.c leaves held.
use ccthread.Prelude.{
  ℕ, ◌≡◌, refl, ap, ◌∙◌, ◌≢◌, false, Option, none, some, List, [], ◌∷◌, ◌++◌, arith, ◌==◌,
  if◌then◌else◌, ℕ_discrete,
}
use ccthread.Types.{Platform, is_windows, Status, success, plain, recursive}
use ccthread.External.{Env, World, Resource, held, block, mutex, lock}
use ccthread.Mutex.Calls.{
  ccmutex_create, ccmutex_lock, ccmutex_trylock, ccmutex_unlock, ccmutex_destroy,
}
use ccthread.Mutex.Laws.{parts, held-ccmutex_create, trylock-held, trylock-unlock, lock_loop-held}
use ccthread.Examples.Mutexes.{
  Outcome, goes_on, try_and_unlock, plain_locked, plain_half, recursive_locked, recursive_half,
}

-- The lock that is left if the first call of ccmutex_trylock took the mutex that its thread has locked.
abbrev pub left_by : ℕ → Status → List Resource
left_by mtx success = (lock, mtx) ∷ []
left_by mtx other = []

abbrev pub left_locked : ℕ → Outcome → List Resource
left_locked mtx (goes_on (locked ∷ _)) = left_by mtx locked
left_locked mtx other = []

module _ (platform : Platform) (env : Env) (posix : is_windows platform ≡ false) (p : ℕ)
    (made : p ≢ 0) where
  unlock-held :
      (w : World) (rest : List Resource)
      → held w.history ≡ (lock, p) ∷ rest
      → held (ccmutex_unlock platform p env w).1.history ≡ rest
  unfolding ccmutex_unlock
  unlock-held w rest h = ground arith

  destroy-held :
      (w : World) (rest : List Resource)
      → held w.history ≡ (mutex, p) ∷ (block, p) ∷ rest
      → held (ccmutex_destroy platform p env w).1.history ≡ rest
  unfolding ccmutex_destroy
  destroy-held w rest h = ground arith

  destroy_locked-held :
      (w : World) (rest : List Resource)
      → held w.history ≡ (lock, p) ∷ (mutex, p) ∷ (block, p) ∷ rest
      → held (ccmutex_destroy platform p env w).1.history ≡ (lock, p) ∷ rest
  unfolding ccmutex_destroy
  destroy_locked-held w rest h = ground arith

  try_and_unlock-held :
      (w : World) → held (try_and_unlock platform p env w).1.history ≡ held w.history
  unfolding try_and_unlock
  try_and_unlock-held w =
      ground (arith, trylock-held platform p env w, trylock-unlock platform p env w)

  module _ (w : World) (rest : List Resource)
      (h : held w.history ≡ (lock, p) ∷ (mutex, p) ∷ (block, p) ∷ rest) where
    abbrev w₁ : World
    w₁ = (ccmutex_trylock platform p env w).1

    abbrev w₂ : World
    w₂ = (ccmutex_unlock platform p env w₁).1

    abbrev w₃ : World
    w₃ = (try_and_unlock platform p env w₂).1

    destroyed :
        (s : Status)
        → (ccmutex_trylock platform p env w).0 ≡ s
        → held (ccmutex_destroy platform p env w₃).1.history ≡ left_by p s ++ rest
    destroyed success e =
        let t : held w₁.history ≡ (lock, p) ∷ held w.history =
          trylock-held platform p env w ∙ rw e refl in
        destroy_locked-held w₃ rest (try_and_unlock-held w₂ ∙ unlock-held w₁ (held w.history) t ∙ h)
    destroyed s e =
        let t : held w₁.history ≡ held w.history = trylock-held platform p env w ∙ rw e refl in
        destroy-held w₃ rest
          (try_and_unlock-held w₂ ∙ unlock-held w₁ ((mutex, p) ∷ (block, p) ∷ rest) (t ∙ h))

    plain_locked-held :
        (o : Outcome)
        → (plain_locked platform p (some success) env w).0 ≡ some o
        → held (plain_locked platform p (some success) env w).1.history ≡ left_locked p o ++ rest
    unfolding plain_locked
    plain_locked-held o e =
        let d = destroyed (ccmutex_trylock platform p env w).0 refl in ground (arith, e, d)

    recursive_locked-held : held (recursive_locked platform p (some success) env w).1.history ≡ rest
    unfolding recursive_locked
    recursive_locked-held =
        let v = (try_and_unlock platform p env w).1 in
        destroy-held (ccmutex_unlock platform p env v).1 rest
          (unlock-held v ((mutex, p) ∷ (block, p) ∷ rest) (try_and_unlock-held w ∙ h))

  lock-held :
      (fuel : ℕ) (w : World) (s : Status)
      → (ccmutex_lock fuel platform p env w).0 ≡ some s
      → (s ≡ success)
        × (held (ccmutex_lock fuel platform p env w).1.history ≡ (lock, p) ∷ held w.history)
  unfolding ccmutex_lock
  lock-held fuel w s e = ground (arith, lock_loop-held fuel platform p env w s)

module _ (platform : Platform) (env : Env) (fuel : ℕ) (w : World)
    (posix : is_windows platform ≡ false) where
  abbrev mtx : ℕ
  mtx = (ccmutex_create platform plain env w).0

  abbrev made_plain : World
  made_plain = (ccmutex_create platform plain env w).1

  abbrev locked_plain : World
  locked_plain = (ccmutex_lock fuel platform mtx env made_plain).1

  -- What ccmutex_create leaves held on POSIX.
  parts_of :
      (n : ℕ) (rest : List Resource)
      → n ≢ 0
      → (if n == 0 then [] else parts platform plain n) ++ rest ≡ (mutex, n) ∷ (block, n) ∷ rest
  parts_of n rest d = ground arith

  after_lock :
      (rc : Option Status) (o : Outcome)
      → mtx ≢ 0
      → (ccmutex_lock fuel platform mtx env made_plain).0 ≡ rc
      → (plain_locked platform mtx rc env locked_plain).0 ≡ some o
      → held (plain_locked platform mtx rc env locked_plain).1.history
        ≡ left_locked mtx o ++ held w.history
  unfolding plain_locked
  after_lock none o d c e = absurd (ground arith)
  after_lock (some success) o d c e =
      let (s, l) = lock-held platform env posix mtx d fuel made_plain success c in
      plain_locked-held platform env posix mtx d locked_plain (held w.history)
        (l
          ∙ ap (λ r. (lock, mtx) ∷ r)
              (held-ccmutex_create platform plain env w ∙ parts_of mtx (held w.history) d))
        o e
  after_lock (some rc) o d c e =
      let (s, l) = lock-held platform env posix mtx d fuel made_plain rc c in absurd (ground arith)

  -- On POSIX, whatever the system answers: when the first half of main ends, it has given back all that
  -- it acquired, the mutex included, except for the lock itself if the first call of ccmutex_trylock
  -- took the mutex that its own thread had locked.
  pub plain_half-held :
      (o : Outcome)
      → (plain_half fuel platform env w).0 ≡ some o
      → held (plain_half fuel platform env w).1.history ≡ left_locked mtx o ++ held w.history
  unfolding plain_half
  plain_half-held o e = elim (ℕ_discrete mtx 0) [
    | yes z ↦ ground (arith, held-ccmutex_create platform plain env w, e)
    | no d ↦
        let b : (mtx == 0) ≡ false = ground arith in
        let next = after_lock (ccmutex_lock fuel platform mtx env made_plain).0 o d refl in
        ground (arith, e, next)
  ]

-- On POSIX the second half of main gives back all that it acquired, whatever the system answers, when it
-- ends.
module _ (platform : Platform) (env : Env) (fuel : ℕ) (w : World)
    (posix : is_windows platform ≡ false) where
  abbrev recursive_mtx : ℕ
  recursive_mtx = (ccmutex_create platform recursive env w).0

  abbrev made_recursive : World
  made_recursive = (ccmutex_create platform recursive env w).1

  recursive_parts :
      (n : ℕ) (rest : List Resource)
      → n ≢ 0
      → (if n == 0 then [] else parts platform recursive n) ++ rest ≡ (mutex, n) ∷ (block, n) ∷ rest
  recursive_parts n rest d = ground arith

  after_recursive_lock :
      (rc : Option Status) (o : Outcome)
      → recursive_mtx ≢ 0
      → (ccmutex_lock fuel platform recursive_mtx env made_recursive).0 ≡ rc
      → let w' = (ccmutex_lock fuel platform recursive_mtx env made_recursive).1 in
        (recursive_locked platform recursive_mtx rc env w').0 ≡ some o
        → held (recursive_locked platform recursive_mtx rc env w').1.history ≡ held w.history
  unfolding recursive_locked
  after_recursive_lock none o d c e = absurd (ground arith)
  after_recursive_lock (some success) o d c e =
      let (s, l) = lock-held platform env posix recursive_mtx d fuel made_recursive success c in
      recursive_locked-held platform env posix recursive_mtx d
        (ccmutex_lock fuel platform recursive_mtx env made_recursive).1 (held w.history)
        (l
          ∙ ap (λ r. (lock, recursive_mtx) ∷ r)
              (held-ccmutex_create platform recursive env w
                ∙ recursive_parts recursive_mtx (held w.history) d))
  after_recursive_lock (some rc) o d c e =
      let (s, l) = lock-held platform env posix recursive_mtx d fuel made_recursive rc c in
      absurd (ground arith)

  pub recursive_half-held :
      (o : Outcome)
      → (recursive_half fuel platform env w).0 ≡ some o
      → held (recursive_half fuel platform env w).1.history ≡ held w.history
  unfolding recursive_half
  recursive_half-held o e = elim (ℕ_discrete recursive_mtx 0) [
    | yes z ↦ ground (arith, held-ccmutex_create platform recursive env w, e)
    | no d ↦
        let b : (recursive_mtx == 0) ≡ false = ground arith in
        let next =
          after_recursive_lock (ccmutex_lock fuel platform recursive_mtx env made_recursive).0 o d
            refl in
        ground (arith, e, next)
  ]
