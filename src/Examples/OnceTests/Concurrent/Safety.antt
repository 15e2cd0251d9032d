-- ===== src/Examples/OnceTests/Concurrent/Safety.antt =====
-- What test_concurrent returns, after every schedule.
use ccthread.Prelude.{ℕ, ◌+◌, ◌<◌, ◌≡◌, ◌⊎◌, Bool, true, List, arith}
use ccthread.Examples.OnceTests.Concurrent.{answered, after}
use ccthread.Examples.OnceTests.Concurrent.Moves.{At}
use ccthread.Examples.OnceTests.Concurrent.Invariant.{after-Inv}

-- Whatever the order of the accesses of the `n` threads, which is not 0: when test_concurrent has
-- returned, it has returned 1 with `s_init_count` one larger than before, unless it could not create
-- one of the threads.
pub concurrent_passes :
    (n prev_count : ℕ) (ts : List (ℕ × Bool)) (result : Bool)
    → 0 < n
    → (after n prev_count ts).pc n ≡ answered result
    → ((after n prev_count ts).mem.created < n)
      ⊎ ((result ≡ true) × ((after n prev_count ts).mem.s_init_count ≡ prev_count + 1))
concurrent_passes n prev_count ts result positive e =
    let inv = after-Inv n prev_count ts positive in
    let a : At n prev_count n (after n prev_count ts).mem (answered result) = rw e at (inv.at n) in
    ground (arith, a, inv.counted)
