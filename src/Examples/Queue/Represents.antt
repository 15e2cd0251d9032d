-- ===== src/Examples/Queue/Represents.antt =====
-- The ring of examples/cccondvar_basic.c as a window on the log of what was pushed.
use ccthread.Prelude.{ℕ, ◌+◌, ◌%◌, ◌≤◌, ◌<◌, ◌≡◌, arith, update}
use ccthread.Examples.Ring.{capacity, Holds, put-Holds, Holds-update}
use ccthread.Examples.Queue.{Ring, enqueue, dequeue}

-- The ring holds the items of the log from number `popped` up to `pushed`.
pub record Represents (log : ℕ → ℕ) (popped pushed : ℕ) (q : Ring) : Type 0 where
  pub counted : q.count + popped ≡ pushed
  pub fits : q.count ≤ capacity
  pub head_at : q.head ≡ popped % capacity
  pub tail_at : q.tail ≡ pushed % capacity
  pub slots : Holds log q.buf popped pushed

-- A push into a ring with a free slot appends to the items.
pub enqueue-Represents :
    (log : ℕ → ℕ) (popped pushed item : ℕ) (q : Ring)
    → q.count < capacity
    → Represents log popped pushed q
    → Represents (update log pushed item) popped (pushed + 1) (enqueue item q)
unfolding enqueue
enqueue-Represents log popped pushed item q room r = record {
  counted = omega (arith, r.counted);
  fits = omega arith;
  head_at = r.head_at;
  tail_at = omega (arith, r.tail_at);
  slots =
      let last : update log pushed item pushed ≡ item = ground arith in
      rw r.tail_at (
        put-Holds (update log pushed item) q.buf popped pushed item last (omega (arith, r.counted))
          (Holds-update log q.buf popped pushed item r.slots));
}

-- A pop from a ring with an item takes the oldest one.
pub dequeue-Represents :
    (log : ℕ → ℕ) (popped pushed : ℕ) (q : Ring)
    → 0 < q.count
    → Represents log popped pushed q
    → ((dequeue q).0 ≡ log popped) × Represents log (popped + 1) pushed (dequeue q).1
unfolding dequeue
dequeue-Represents log popped pushed q some r = (
  rw r.head_at (r.slots popped (omega arith) (omega (arith, r.counted))),
  record {
    counted = omega (arith, r.counted);
    fits = omega (arith, r.fits);
    head_at = omega (arith, r.head_at);
    tail_at = r.tail_at;
    slots = λ j a b. r.slots j (omega arith) b;
  },
)
