-- ===== src/Sem/Permits.antt =====
-- The count of ccsem.c on POSIX as an abstract number of permits, for operations that the mutex puts
-- one after the other.
use ccthread.Prelude.{ℕ, zero, suc, ◌+◌, ◌-◌, ◌^◌, ◌%◌, ◌<◌, ◌≡◌, refl, ◌∙◌, List, [], ◌∷◌, arith}
use ccthread.Types.{Status, success, timeout}
use ccthread.External.{
  Env, World, Field, Prog, pure, ◌>>=◌, write, count, mutex_lock, mutex_unlock, cond_signal,
}
use ccthread.Sem.Posix.{trywait_posix, post_posix}

pub data Op : Type 0 where
  try post : Op

-- What an operation does to the number of permits; a permit count is a 32-bit unsigned number.
abbrev pub spec : Op → ℕ → Status × ℕ
spec try zero = (timeout, 0)
spec try (suc n) = (success, n)
spec post n = (success, (n + 1) % 2 ^ 32)

abbrev pub perform : Op → ℕ → Prog Status
perform try p = trywait_posix p
perform post p = post_posix p

-- Locking, unlocking and signalling succeed, and the count changes only by the operation itself.
pub record IsSerial (env : Env) (p : ℕ) : Type 0 where
  pub locks : (n : ℕ) → env.answer n (mutex_lock p) ≡ 0
  pub signals : (n : ℕ) → env.answer n (cond_signal p) ≡ 0
  pub lock_keeps : (n : ℕ) (h : ℕ → Field → ℕ) → env.meddle n (mutex_lock p) h p count ≡ h p count
  pub unlock_keeps :
      (n : ℕ) (h : ℕ → Field → ℕ) → env.meddle n (mutex_unlock p) h p count ≡ h p count
  pub signal_keeps :
      (n : ℕ) (h : ℕ → Field → ℕ) → env.meddle n (cond_signal p) h p count ≡ h p count

perform-spec :
    (op : Op) (p : ℕ) (env : Env) (w : World)
    → IsSerial env p
    → ((perform op p env w).0 ≡ (spec op (w.heap p count)).0)
      × ((perform op p env w).1.heap p count ≡ (spec op (w.heap p count)).1)
unfolding trywait_posix post_posix
perform-spec try p env w s =
    let h = env.meddle w.time (mutex_lock p) w.heap in
    ground (
      arith,
      s.locks w.time,
      s.lock_keeps w.time w.heap,
      s.unlock_keeps (suc w.time) h,
      s.unlock_keeps (suc w.time) (write h p count (h p count - 1)),
    )
perform-spec post p env w s =
    let h = env.meddle w.time (mutex_lock p) w.heap in
    let h' = write h p count ((h p count + 1) % 2 ^ 32) in
    ground (
      arith,
      s.locks w.time,
      s.lock_keeps w.time w.heap,
      s.signals (suc w.time),
      s.signal_keeps (suc w.time) h',
      s.unlock_keeps (suc (suc w.time)) (env.meddle (suc w.time) (cond_signal p) h'),
    )

-- Several operations in turn, with their results.
unfoldable pub perform_all : List Op → ℕ → Prog (List Status)
perform_all [] p = pure []
perform_all (op ∷ ops) p = do s ← perform op p; rest ← perform_all ops p; pure (s ∷ rest)

unfoldable pub spec_all : List Op → ℕ → List Status × ℕ
spec_all [] n = ([], n)
spec_all (op ∷ ops) n = let (s, m) = spec op n in let (rest, k) = spec_all ops m in (s ∷ rest, k)

-- Refinement: any sequence of ccsem_trywait and ccsem_post, by any threads one after the other, gives
-- the results of the abstract permit counter and leaves its number in `sem->count`.
pub perform_all-spec :
    (ops : List Op) (p : ℕ) (env : Env) (w : World)
    → IsSerial env p
    → ((perform_all ops p env w).0 ≡ (spec_all ops (w.heap p count)).0)
      × ((perform_all ops p env w).1.heap p count ≡ (spec_all ops (w.heap p count)).1)
unfolding perform_all spec_all
perform_all-spec [] p env w s = (refl, refl)
perform_all-spec (op ∷ ops) p env w s =
    let next = (perform op p env w).1 in
    let (same_status, same_count) = perform-spec op p env w s in
    let (same_rest, same_final) = perform_all-spec ops p env next s in
    (
      ground (arith, same_status, same_count, same_rest),
      ground (arith, same_status, same_count, same_final),
    )

abbrev pub posts : List Op → ℕ
posts [] = 0
posts (try ∷ ops) = posts ops
posts (post ∷ ops) = suc (posts ops)

-- The successful attempts among the results.
abbrev pub takes : List Op → List Status → ℕ
takes (try ∷ ops) (success ∷ ss) = suc (takes ops ss)
takes (_ ∷ ops) (_ ∷ ss) = takes ops ss
takes _ _ = 0

spec_all-conserves :
    (ops : List Op) (n : ℕ)
    → n + posts ops < 2 ^ 32
    → (spec_all ops n).1 + takes ops (spec_all ops n).0 ≡ n + posts ops
unfolding spec_all
spec_all-conserves [] n b = omega arith
spec_all-conserves (try ∷ ops) zero b = spec_all-conserves ops zero b
spec_all-conserves (try ∷ ops) (suc n) b = omega (arith, spec_all-conserves ops n (omega arith))
spec_all-conserves (post ∷ ops) n b =
    let e : (n + 1) % 2 ^ 32 ≡ n + 1 = omega arith in
    rw e (omega (arith, spec_all-conserves ops (n + 1) (omega arith)))

-- Permits are neither lost nor invented: the final count and the successful attempts together are the
-- initial count and the posts, unless the count could reach 2^32.
pub permits_conserved :
    (ops : List Op) (p : ℕ) (env : Env) (w : World)
    → IsSerial env p
    → w.heap p count + posts ops < 2 ^ 32
    → (perform_all ops p env w).1.heap p count + takes ops (perform_all ops p env w).0
      ≡ w.heap p count + posts ops
permits_conserved ops p env w s b =
    let (results, final) = perform_all-spec ops p env w s in
    rw (results, final) (spec_all-conserves ops (w.heap p count) b)

-- At a count of 2^32 - 1 a post reports success and the next attempt times out: all permits are gone.
pub post_overflows :
    (p : ℕ) (env : Env) (w : World)
    → IsSerial env p
    → w.heap p count ≡ 2 ^ 32 - 1
    → (perform_all (post ∷ try ∷ []) p env w).0 ≡ success ∷ timeout ∷ []
unfolding spec_all
post_overflows p env w s full = (perform_all-spec (post ∷ try ∷ []) p env w s).0 ∙ rw full
