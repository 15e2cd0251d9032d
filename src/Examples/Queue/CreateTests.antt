-- ===== src/Examples/Queue/CreateTests.antt =====
-- A queue that is made and destroyed, and one whose second condition variable cannot be made.
use ccthread.Prelude.{ℕ, ◌+◌, ◌≡◌, refl, none, some, [], ◌==◌, if◌then◌else◌}
use ccthread.Types.{linux}
use ccthread.External.{Env, Call, calloc, held, mutex}
use ccthread.External.Samples.{posix_clocks, filled}
use ccthread.External.Amounts.{amount}
use ccthread.Examples.Queue.Create.{Handles, queue_create, queue_destroy, give_up, fill, checked}
use ccthread.Mutex.Calls.{ccmutex_create}
use ccthread.Condvar.Calls.{cccondvar_create}
use ccthread.Examples.Queue.Destroy.{queue_parts, held-queue_create, queue_create-destroy}

-- Every allocation gives a new address until the time `last`, and everything else succeeds.
abbrev answers : ℕ → ℕ → Call → ℕ
answers last n calloc = if n == last then 0 else n + 5
answers last n c = 0

abbrev working : ℕ → Env
working last = record { answer = answers last; meddle = λ n c h. h; clocks = posix_clocks }

abbrev made : Handles
made = record { address = 5; mtx = 6; not_full = 8; not_empty = 13 }

queue_create-some : (queue_create linux (working 100) (filled 1)).0 ≡ some made
unfolding queue_create fill checked give_up ccmutex_create cccondvar_create
queue_create-some = refl

queue_create-none : (queue_create linux (working 8) (filled 1)).0 ≡ none
unfolding queue_create fill checked give_up ccmutex_create cccondvar_create
queue_create-none = refl

held-queue_create_example :
    let (q, w') = queue_create linux (working 8) (filled 1) in
    amount (mutex, 6) (held w'.history)
    ≡ amount (mutex, 6) (queue_parts linux q) + amount (mutex, 6) []
held-queue_create_example =
    held-queue_create linux (working 8) (filled 1) (λ n c h p. refl) (mutex, 6)

queue_create-destroy_example :
    amount
      (mutex, 6)
      (held
        (queue_destroy linux made
          (working 100)
          (queue_create linux (working 100) (filled 1)).1).1.history)
    ≡ amount (mutex, 6) []
queue_create-destroy_example =
    queue_create-destroy linux (working 100) (filled 1) made (λ n c h p. refl) queue_create-some
      (mutex, 6)
