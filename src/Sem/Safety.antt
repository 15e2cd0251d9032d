-- ===== src/Sem/Safety.antt =====
-- What holds of the semaphore on POSIX after every schedule of `n` threads in its operations.
use ccthread.Prelude.{ℕ, ◌+◌, ◌^◌, ◌<◌, ◌≡◌, List}
use ccthread.Sem.Threads.{Monitor, take, Choice, after}
use ccthread.Sem.Invariant.{after-Inv}

module _ (monitor : Monitor) (initial n : ℕ) (ts : List (ℕ × Choice)) where
  -- In every interleaving permits are neither lost nor invented: the count and the permits taken add
  -- up to the initial count and the posts, unless these reach 2^32; and no thread takes a permit at a
  -- count of 0.
  pub permits_exact :
      (initial + (after monitor initial n ts).mem.posted < 2 ^ 32
        → (after monitor initial n ts).mem.count + (after monitor initial n ts).mem.taken
          ≡ initial + (after monitor initial n ts).mem.posted)
      × ((i : ℕ)
          → (after monitor initial n ts).pc i ≡ take
          → 0 < (after monitor initial n ts).mem.count)
  permits_exact =
      let inv = after-Inv monitor initial n ts in
      (inv.exact, λ i e. let f = inv.fact i in rw e at f)
