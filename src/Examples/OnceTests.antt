-- ===== src/Examples/OnceTests.antt =====
-- The sequential tests of examples/ccthread_once.c. A result is `none` if a call does not return, and
-- otherwise what the test returns, with the static variables.
pub mod Laws
pub mod Concurrent
mod Tests
use ccthread.Prelude.{ℕ, ◌+◌, Bool, true, false, ◌&&◌, Option, none, some, ◌==◌, if◌then◌else◌}
use ccthread.Types.{Code, ok, failed, is_ok}
use ccthread.Atomic.{Toolchain}
use ccthread.Once.Calls.{ccthread_once}

-- `s_init_count` and `s_arg_value`
pub record Statics : Type 0 where
  pub s_init_count : ℕ
  pub s_arg_value : ℕ

abbrev pub init_marker : Statics → Statics
init_marker s = record s { s_init_count = s.s_init_count + 1 }

-- `*(int*)arg` is `v`.
abbrev pub init_with_arg : ℕ → Statics → Statics
init_with_arg v s = record s { s_arg_value = v }

abbrev return_0 : Statics → Option (Bool × Statics)
return_0 s = some (false, s)

abbrev return_1 : Statics → Option (Bool × Statics)
return_1 s = some (true, s)

module _ (fuel : ℕ) (tc : Toolchain) where
  -- `if (ccthread_once(&once, init_marker, NULL) != CCTHREAD_SUCCESS) return 0;`, then
  -- `if (s_init_count != expected) return 0;`, then the rest of the test with the control block.
  unfoldable pub expect_count :
      ℕ → ℕ → Statics → (ℕ → Statics → Option (Bool × Statics)) → Option (Bool × Statics)
  expect_count once expected s rest =
      elim (ccthread_once fuel tc (some once) (some init_marker) s) [
        | none ↦ none
        | some (code, none, s') ↦ return_0 s'
        | some (code, some once', s') ↦
            if is_ok code && (s'.s_init_count == expected) then rest once' s' else return_0 s'
      ]

  unfoldable pub test_basic : Statics → Option (Bool × Statics)
  unfolding expect_count
  test_basic s =
      expect_count 0 1 s
        (λ once s. expect_count once 1 s (λ once s. expect_count once 1 s (λ once s. return_1 s)))

  unfoldable pub test_reset : Statics → Option (Bool × Statics)
  unfolding expect_count
  test_reset s =
      let prev_count = s.s_init_count in
      expect_count 0 (prev_count + 1) s
        (λ once s. expect_count 0 (prev_count + 2) s (λ once s. return_1 s))

  unfoldable pub test_guards : Statics → Option (Bool × Statics)
  test_guards s = elim (ccthread_once fuel tc none (some init_marker) s) [
    | none ↦ none
    | some (ok, block, s') ↦ return_0 s'
    | some (failed, block, s') ↦ elim (ccthread_once fuel tc (some 0) none s') [
      | none ↦ none
      | some (ok, block', s'') ↦ return_0 s''
      | some (failed, block', s'') ↦ return_1 s''
    ]
  ]

  unfoldable pub test_arg : Statics → Option (Bool × Statics)
  test_arg s =
      elim (ccthread_once fuel tc (some 0) (some (init_with_arg 42))
        (record s { s_arg_value = 0 })) [
          | none ↦ none
          | some (code, block, s') ↦
              if is_ok code && (s'.s_arg_value == 42) then return_1 s' else return_0 s'
        ]
