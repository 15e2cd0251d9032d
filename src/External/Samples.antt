-- ===== src/External/Samples.antt =====
-- Concrete environments for the tests.
use ccthread.Prelude.{ℕ, true, false, ◌+◌, [], ◌==◌, if◌then◌else◌}
use ccthread.External.Calls.{Clocks}
use ccthread.External.Program.{Env, World}

-- A <time.h> with CLOCK_MONOTONIC.
abbrev pub posix_clocks : Clocks
posix_clocks = record { has_monotonic = true; has_highres = false }

-- Every call answers 0, and no other thread writes.
abbrev pub quiet : Env
quiet = record { answer = λ n c. 0; meddle = λ n c h. h; clocks = posix_clocks }

-- Every call answers with its time, plus 5.
abbrev pub clock : Env
clock = record { answer = λ n c. n + 5; meddle = λ n c h. h; clocks = posix_clocks }

-- The first call answers 8, the others 0.
abbrev pub allocating : Env
allocating = record {
  answer = λ n c. if n == 0 then 8 else 0;
  meddle = λ n c h. h;
  clocks = posix_clocks;
}

-- As `quiet`, but during the second call other threads set every field to 1.
abbrev pub posting : Env
posting = record {
  answer = λ n c. 0;
  meddle = λ n c h. if n == 1 then (λ p f. 1) else h;
  clocks = posix_clocks;
}

-- All memory holds `v`.
abbrev pub filled : ℕ → World
filled v = record { time = 0; heap = λ p f. v; history = [] }
