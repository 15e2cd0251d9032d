-- ===== src/Lifecycle/Refinement.antt =====
-- ccthread_detach and ccthread_join as calls of Thread.Create, against the accesses of Race: the same
-- accesses, made by the owner alone.
use ccthread.Prelude.{
  ℕ, ◌≡◌, ◌≢◌, Bool, true, false, ap, refl, ◌∙◌, ℕ_discrete, Bool-cases, inl, inr, arith, ◌==◌,
  if◌then◌else◌,
}
use ccthread.Types.{Platform, is_windows}
use ccthread.External.{
  Env, World, Heap, Call, free, close_handle, pthread_detach, pthread_join, wait_for_single_object,
}
use ccthread.External
use ccthread.Sem.Native.{infinite}
use ccthread.Thread.Create.{ccthread_join, ccthread_detach}
use ccthread.Lifecycle.Race.{join, detach, ChildPc, ended, touch, owner_step, step, run}
use ccthread.Lifecycle.Alone.{
  alone, seen, eight_turns, owners, finds, config, Agrees, IsConsumable, guard-cases,
  refused-Agrees, consumed_both,
}
use ccthread.Lifecycle.Stages.{guard-run, windows_tell-run, posix_tell-run, tell-failed}

module _ (platform : Platform) (value p : ℕ) (wants_result : Bool) (child : ChildPc)
    (answer : ℕ → Call → ℕ) (w : World) where
  windows_detach-Agrees :
      p ≢ 0
      → IsConsumable p w
      → is_windows platform ≡ true
      → let cf =
          config platform detach value wants_result (answer w.time (pthread_detach p) == 0) p w in
        Agrees p (run cf eight_turns (seen child p w)) (ccthread_detach platform p (alone answer) w)
  unfolding ccthread_detach run step owner_step
  windows_detach-Agrees n c windows =
      let cf =
        config platform detach value wants_result (answer w.time (pthread_detach p) == 0) p w in
      rw
        (ap (run cf (owners 5)) (guard-run cf child p w (λ o i. finds p w o) c)
          ∙ windows_tell-run cf (touch (touch (touch (seen child p w)))) windows refl refl)
        (elim (ℕ_discrete (w.heap p External.finished) 0) [
          | yes runs ↦ ground arith
          | no ended_first ↦ elim (ℕ_discrete (w.heap p External.cleanup_claimed) 0) [
            | yes unclaimed ↦ ground arith
            | no claimed ↦ ground arith
          ]
        ])

  posix_detach-Agrees :
      p ≢ 0
      → IsConsumable p w
      → is_windows platform ≡ false
      → let cf =
          config platform detach value wants_result (answer w.time (pthread_detach p) == 0) p w in
        Agrees p (run cf eight_turns (seen child p w)) (ccthread_detach platform p (alone answer) w)
  unfolding ccthread_detach run step owner_step
  posix_detach-Agrees n c posix =
      let cf =
        config platform detach value wants_result (answer w.time (pthread_detach p) == 0) p w in
      let guarded = ap (run cf (owners 5)) (guard-run cf child p w (λ o i. finds p w o) c) in
      let s = touch (touch (touch (seen child p w))) in
      elim (ℕ_discrete (answer w.time (pthread_detach p)) 0) [
        | no fails ↦ rw (guarded ∙ tell-failed cf s posix (ground arith)) (ground arith)
        | yes works ↦
            rw (guarded ∙ posix_tell-run cf s posix (ground arith) refl refl)
              (elim (ℕ_discrete (w.heap p External.finished) 0) [
                | yes runs ↦ ground arith
                | no ended_first ↦ elim (ℕ_discrete (w.heap p External.cleanup_claimed) 0) [
                  | yes unclaimed ↦ ground arith
                  | no claimed ↦ ground arith
                ]
              ])
      ]

  -- Refinement: the accesses that Race lets the owner make in ccthread_detach, made with no access of
  -- the thread in between, are over after at most eight, return what the call returns, and leave the
  -- struct, the frees and the closed handles as the call does.
  pub run-ccthread_detach :
      p ≢ 0
      → let cf =
          config platform detach value wants_result (answer w.time (pthread_detach p) == 0) p w in
        Agrees p (run cf eight_turns (seen child p w)) (ccthread_detach platform p (alone answer) w)
  run-ccthread_detach n = elim (guard-cases p w) [
    | inl c ↦
        rw (consumed_both platform p false (alone answer) w c).1
          (refused-Agrees _ child p w (λ o i. finds p w o) c).0
    | inr c ↦ elim (Bool-cases (is_windows platform)) [
      | inl windows ↦ windows_detach-Agrees n c windows
      | inr posix ↦ posix_detach-Agrees n c posix
    ]
  ]

  -- The answer that lets the wait of ccthread_join succeed.
  abbrev pub waits : Bool
  waits =
      if is_windows platform
      then answer w.time (wait_for_single_object (w.heap p External.handle) infinite) == 0
      else answer w.time (pthread_join p) == 0

  abbrev JoinAgrees : Type 0
  JoinAgrees =
      let cf = config platform join value wants_result waits p w in
      let s = run cf eight_turns (seen ended p w) in
      let ((code, r), w') = ccthread_join platform p wants_result (alone answer) w in
      Agrees p s (code, w') × (s.got ≡ r)

  windows_join-Agrees : p ≢ 0 → IsConsumable p w → is_windows platform ≡ true → JoinAgrees
  unfolding ccthread_join run step owner_step
  windows_join-Agrees n (d, j, s) windows =
      let answered = answer w.time (wait_for_single_object (w.heap p External.handle) infinite) in
      elim (ℕ_discrete answered 0) [ no fails ↦ ground arith | yes works ↦ ground arith ]

  posix_join-Agrees : p ≢ 0 → IsConsumable p w → is_windows platform ≡ false → JoinAgrees
  unfolding ccthread_join run step owner_step
  posix_join-Agrees n (d, j, s) posix = elim (ℕ_discrete (answer w.time (pthread_join p)) 0) [
    | no fails ↦ ground arith
    | yes works ↦ ground arith
  ]

  -- Refinement: once the thread has ended, the accesses that Race lets the owner make in ccthread_join
  -- are over after at most eight, return what the call returns, with the same value if one is wanted,
  -- and leave the struct, the frees and the closed handles as the call does.
  pub run-ccthread_join :
      p ≢ 0
      → let cf = config platform join value wants_result waits p w in
        let s = run cf eight_turns (seen ended p w) in
        let ((code, r), w') = ccthread_join platform p wants_result (alone answer) w in
        Agrees p s (code, w') × (s.got ≡ r)
  run-ccthread_join n = elim (guard-cases p w) [
    | inl c ↦
        rw (consumed_both platform p wants_result (alone answer) w c).0
          (refused-Agrees _ ended p w (λ o i. finds p w o) c)
    | inr c ↦ elim (Bool-cases (is_windows platform)) [
      | inl windows ↦ windows_join-Agrees n c windows
      | inr posix ↦ posix_join-Agrees n c posix
    ]
  ]
