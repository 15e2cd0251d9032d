-- ===== src/Examples/LifecycleTests/Tests.antt =====
-- The theorems on examples/ccthread_lifecycle.c at inputs that meet their hypotheses.
use ccthread.Prelude.{◌≡◌, List, arith}
use ccthread.Types.{linux}
use ccthread.External.Samples.{quiet, filled}
use ccthread.Thread.Identity.{ccthread_equal}
use ccthread.Examples.LifecycleTests.{Actor, check, start, run}
use ccthread.Examples.LifecycleTests.Laws.{identity_undecided}

identity_undecided_example :
    ((ts : List Actor) × ((run linux quiet (filled 0) 8 ts (start linux quiet (filled 0) 8)).main
        ≡ check)
      × ((run linux quiet (filled 0) 8 ts (start linux quiet (filled 0) 8)).done ≡ 1)
      × ((run linux quiet (filled 0) 8 ts (start linux quiet (filled 0) 8)).equal ≡ 0))
    × ((ts : List Actor) × ((run linux quiet (filled 0) 8 ts (start linux quiet (filled 0) 8)).main
          ≡ check)
        × ((run linux quiet (filled 0) 8 ts (start linux quiet (filled 0) 8)).done ≡ 1)
        × ((run linux quiet (filled 0) 8 ts (start linux quiet (filled 0) 8)).equal
            ≡ (ccthread_equal linux 8 8 quiet (filled 0)).0))
identity_undecided_example = identity_undecided linux quiet (filled 0) 8 (λ e. omega arith)
