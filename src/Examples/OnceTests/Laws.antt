-- ===== src/Examples/OnceTests/Laws.antt =====
-- What the tests of examples/ccthread_once.c return.
use ccthread.Prelude.{ℕ, suc, ◌+◌, ◌≡◌, ◌≢◌, true, some, arith}
use ccthread.Atomic.{Toolchain, unknown}
use ccthread.Once.Calls.{ccthread_once}
use ccthread.Examples.OnceTests.{Statics, test_basic, test_reset, test_guards, test_arg}

-- With a working compiler the four sequential tests return, with fuel 2, and return 1: test_basic
-- from a count of 0, the others from any static variables; the callback has run exactly as often as
-- each test expects.
pub once_tests_pass :
    (tc : Toolchain) (fuel : ℕ) (s : Statics)
    → tc ≢ unknown
    → (test_basic (suc (suc fuel)) tc (record s { s_init_count = 0 })
        ≡ some (true, record s { s_init_count = 1 }))
      × (test_reset (suc (suc fuel)) tc s
          ≡ some (true, record s { s_init_count = s.s_init_count + 2 }))
      × (test_guards (suc (suc fuel)) tc s ≡ some (true, s))
      × (test_arg (suc (suc fuel)) tc s ≡ some (true, record s { s_arg_value = 42 }))
unfolding test_basic test_reset test_guards test_arg ccthread_once
once_tests_pass tc fuel s k = (ground arith, ground arith, ground arith, ground arith)
