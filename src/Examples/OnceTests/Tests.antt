-- ===== src/Examples/OnceTests/Tests.antt =====
-- Runs of the tests of examples/ccthread_once.c.
use ccthread.Prelude.{◌≡◌, true, some}
use ccthread.Atomic.{gcc}
use ccthread.Examples.OnceTests.{test_basic, test_reset, test_guards, test_arg}
use ccthread.Examples.OnceTests.Laws.{once_tests_pass}

once_tests_pass_example :
    (test_basic 2 gcc (record { s_init_count = 0; s_arg_value = 7 })
      ≡ some (true, record { s_init_count = 1; s_arg_value = 7 }))
    × (test_reset 2 gcc (record { s_init_count = 3; s_arg_value = 7 })
        ≡ some (true, record { s_init_count = 5; s_arg_value = 7 }))
    × (test_guards 2 gcc (record { s_init_count = 3; s_arg_value = 7 })
        ≡ some (true, record { s_init_count = 3; s_arg_value = 7 }))
    × (test_arg 2 gcc (record { s_init_count = 3; s_arg_value = 7 })
        ≡ some (true, record { s_init_count = 3; s_arg_value = 42 }))
once_tests_pass_example =
    once_tests_pass gcc 0 (record { s_init_count = 3; s_arg_value = 7 }) (λ e. cc)
