-- ===== src/Examples/Polling/Laws.antt =====
-- What the demonstrations of examples/ccsem_timeout.c find and what they leave behind.
use ccthread.Prelude.{
  ℕ, zero, suc, ◌+◌, ◌≤◌, ◌<◌, ◌≡◌, refl, ap, ◌∙◌, ◌≢◌, false, some, [], ◌∷◌, ◌++◌, arith, dec_lt,
  ◌==◌, if◌then◌else◌,
}
use ccthread.Types.{Platform, is_windows, is_apple, Status, success, error, timeout}
use ccthread.External.{Env, World, Heap, held, count}
use ccthread.Sem.Create.{ccsem_create}
use ccthread.Sem.Native.{ccsem_trywait, ccsem_timedwait, ccsem_post}
use ccthread.Sem.Posix.{trywait_posix, post_posix}
use ccthread.Sem.Permits.{IsSerial, perform_all, perform_all-spec, try, post, spec_all}
use ccthread.Sem.Balance.{parts, held-ccsem_create, held-ccsem_destroy}
use ccthread.Examples.Polling.{poll_demo, periodic_loop}

module _ (platform : Platform) (env : Env) (no_win : is_windows platform ≡ false)
    (no_apple : is_apple platform ≡ false) where
  empty :
      (w : World)
      → (ccsem_create platform 0 env w).0 ≢ 0
      → (ccsem_create platform 0 env w).1.heap (ccsem_create platform 0 env w).0 count ≡ 0
  unfolding ccsem_create
  empty w made = ground arith

  trywait-held :
      (p : ℕ) (w : World) → held (ccsem_trywait platform p env w).1.history ≡ held w.history
  unfolding ccsem_trywait trywait_posix
  trywait-held p w = ground arith

  post-held : (p : ℕ) (w : World) → held (ccsem_post platform p env w).1.history ≡ held w.history
  unfolding ccsem_post post_posix
  post-held p w = ground arith

  parts-same : (h h' : Heap) (p : ℕ) → parts platform h p ≡ parts platform h' p
  parts-same h h' p = ground arith

  poll_demo-held : (w : World) → held (poll_demo platform env w).1.history ≡ held w.history
  unfolding poll_demo
  poll_demo-held w =
      let p = (ccsem_create platform 0 env w).0 in
      let w₁ = (ccsem_create platform 0 env w).1 in
      let w₂ = (ccsem_trywait platform p env w₁).1 in
      let w₃ = (ccsem_post platform p env w₂).1 in
      let w₄ = (ccsem_trywait platform p env w₃).1 in
      let as_made : held w₄.history
          ≡ (if p == 0 then [] else parts platform w₁.heap p) ++ held w.history =
        trywait-held p w₃
        ∙ post-held p w₂
        ∙ trywait-held p w₁
        ∙ held-ccsem_create platform 0 env w in
      held-ccsem_destroy platform p env w₄ (held w.history) (λ win. absurd (ground arith))
        (as_made
          ∙ ap (λ l. (if p == 0 then [] else l) ++ held w.history) (parts-same w₁.heap w₄.heap p))

  on_posix : (p : ℕ) → p ≢ 0 → ccsem_trywait platform p ≡ trywait_posix p
  unfolding ccsem_trywait
  on_posix p made = let e : (p == 0) ≡ false = ground arith in rw (e, no_win, no_apple) refl

  post_on_posix : (p : ℕ) → p ≢ 0 → ccsem_post platform p ≡ post_posix p
  unfolding ccsem_post
  post_on_posix p made = let e : (p == 0) ≡ false = ground arith in rw (e, no_win, no_apple) refl

  results :
      (w : World)
      → (ccsem_create platform 0 env w).0 ≢ 0
      → IsSerial env (ccsem_create platform 0 env w).0
      → (poll_demo platform env w).0 ≡ (timeout, success)
  unfolding poll_demo spec_all perform_all
  results w made serial =
      let p = (ccsem_create platform 0 env w).0 in
      let w₁ = (ccsem_create platform 0 env w).1 in
      let h = (perform_all-spec (try ∷ post ∷ try ∷ []) p env w₁ serial).0 in
      rw (on_posix p made, post_on_posix p made) (ground (arith, h, empty w made))

  -- On POSIX, if ccsem_create returns a semaphore on which locking, unlocking and signalling succeed and
  -- keep the count: the first ccsem_trywait of poll_demo reports a timeout and the second one, after
  -- the post, a success, and the demonstration leaves nothing held that was not held before.
  pub poll_demo-trywait :
      (w : World)
      → (ccsem_create platform 0 env w).0 ≢ 0
      → IsSerial env (ccsem_create platform 0 env w).0
      → ((poll_demo platform env w).0 ≡ (timeout, success))
        × (held (poll_demo platform env w).1.history ≡ held w.history)
  poll_demo-trywait w made serial = (results w made serial, poll_demo-held w)

module _ (platform : Platform) (fuel sem : ℕ) (env : Env)
    (ends : (w : World)
      → (s : Status) × ((ccsem_timedwait fuel platform sem 10 env w).0 ≡ some s)) where
  rest_ends :
      (rounds attempts : ℕ) (w : World) (s : Status)
      → (ccsem_timedwait fuel platform sem 10 env w).0 ≡ some s
      → ((w' : World)
          → attempts + 1 < 5
          → (k : ℕ) × (k ≤ 5)
            × ((periodic_loop rounds fuel platform sem (attempts + 1) env w').0 ≡ some k))
      → attempts < 5
      → (k : ℕ) × (k ≤ 5)
        × ((periodic_loop (suc rounds) fuel platform sem attempts env w).0 ≡ some k)
  unfolding periodic_loop
  rest_ends rounds attempts w success e h b = (attempts, omega arith, ground (arith, e))
  rest_ends rounds attempts w error e h b = (attempts, omega arith, ground (arith, e))
  rest_ends rounds attempts w timeout e h b = elim (dec_lt (attempts + 1) 5) [
    | yes more ↦
        let (k, l, same) = h (ccsem_timedwait fuel platform sem 10 env w).1 more in
        (k, l, ground (arith, e, same))
    | no last ↦ (attempts + 1, omega arith, ground (arith, e))
  ]

  -- If each wait ends, periodic_demo ends after at most five attempts.
  pub periodic_loop-ends :
      (rounds attempts : ℕ) (w : World)
      → attempts + rounds ≡ 5
      → attempts < 5
      → (k : ℕ) × (k ≤ 5) × ((periodic_loop rounds fuel platform sem attempts env w).0 ≡ some k)
  periodic_loop-ends zero attempts w size b = absurd (omega arith)
  periodic_loop-ends (suc rounds) attempts w size b =
      let (s, e) = ends w in
      rest_ends rounds attempts w s e
        (λ w' l. periodic_loop-ends rounds (attempts + 1) w' (omega arith) l) b
