-- ===== src/Examples/Buffer/Tests.antt =====
-- Runs of examples/ccsem_producer_consumer.c.
use ccthread.Prelude.{ℕ, zero, suc, ◌*◌, ◌≤◌, ◌≡◌, refl, List, [], ◌∷◌, ◌++◌, length}
use ccthread.Examples.Buffer.{Actor, produce, consume, init, step, run}
use ccthread.Examples.Buffer.Safety.{completes, Complete}

abbrev turns : ℕ → Actor → List Actor
turns zero a = []
turns (suc k) a = a ∷ turns k a

-- The producer fills the ring and waits; then the consumer takes two items.
abbrev filled_up : List Actor
filled_up = turns 20 produce ++ turns 8 consume

-- The producer is at its write and the consumer at its read.
abbrev both_inside : List Actor
both_inside = turns 5 produce ++ turns 1 consume

filled_up_result : (run 6 1 filled_up (init 6 1)).got ≡ 101 ∷ 100 ∷ []
unfolding run step
filled_up_result = refl

completes_example :
    (us : List Actor) × (length us ≤ 8 * 6)
    × Complete 6 1 (run 6 1 us (run 6 1 filled_up (init 6 1)))
completes_example = completes 6 1 filled_up
