-- ===== src/Examples/Buffer.antt =====
-- examples/ccsem_producer_consumer.c: one producer and one consumer over a ring of slots, with a
-- semaphore for the free slots and one for the filled ones. Every access to the shared variables and
-- every operation on a semaphore is one step; a semaphore is its number of permits.
pub mod Invariant
pub mod Safety
mod Tests
use ccthread.Prelude.{ℕ, ◌+◌, ◌*◌, ◌%◌, Bool, List, [], ◌∷◌, ltb, if◌then◌else◌, update}
use ccthread.Types.{Status, is_success}
use ccthread.Sem.Permits.{spec, try, post}

-- `BUFSIZE`
abbrev pub bufsize : ℕ
bufsize = 4

-- The item of round `i` of the producer with the id `id`.
abbrev pub item : ℕ → ℕ → ℕ
item id i = id * 100 + i

-- The thread function `producer`, in round `i`.
pub data Producer : Type 0 where
  wait_empty : (i : ℕ) → Producer  -- `ccsem_wait(g_empty)`
  put : (i : ℕ) → Producer  -- `g_buffer[g_in] = item`
  move_in : (i : ℕ) → Producer  -- `g_in = (g_in + 1) % BUFSIZE`
  post_filled : (i : ℕ) → Producer  -- `ccsem_post(g_filled)`
  all_produced : Producer

-- The thread function `consumer`.
pub data Consumer : Type 0 where
  wait_filled : (i : ℕ) → Consumer  -- `ccsem_wait(g_filled)`
  get : (i : ℕ) → Consumer  -- `int item = g_buffer[g_out]`
  move_out : (i : ℕ) → Consumer  -- `g_out = (g_out + 1) % BUFSIZE`
  post_empty : (i : ℕ) → Consumer  -- `ccsem_post(g_empty)`
  all_consumed : Consumer

-- The static variables, the permits of `g_empty` and `g_filled`, the two threads, and a record of the
-- items that the consumer got, the last one first.
pub record State : Type 0 where
  pub buffer : ℕ → ℕ
  pub g_in : ℕ
  pub g_out : ℕ
  pub empty : ℕ
  pub filled : ℕ
  pub got : List ℕ
  pub producer : Producer
  pub consumer : Consumer

pub data Actor : Type 0 where
  produce consume : Actor

module _ (items id : ℕ) where
  -- `for (int i = 0; i < ITEMS; i++)`
  abbrev pub produce_round : ℕ → Producer
  produce_round i = if ltb i items then wait_empty i else all_produced

  abbrev pub consume_round : ℕ → Consumer
  consume_round i = if ltb i items then wait_filled i else all_consumed

  -- `main`, before it starts the threads
  abbrev pub init : State
  init = record {
    buffer = λ _. 0;
    g_in = 0;
    g_out = 0;
    empty = bufsize;
    filled = 0;
    got = [];
    producer = produce_round 0;
    consumer = consume_round 0;
  }

  -- `ccsem_wait` is attempted until it succeeds.
  unfoldable pub producer_step : Producer → State → State
  producer_step (wait_empty i) s =
      let (status, empty) = spec try s.empty in
      record s { empty = empty; producer = if is_success status then put i else wait_empty i }
  producer_step (put i) s = record s {
    buffer = update s.buffer s.g_in (item id i);
    producer = move_in i;
  }
  producer_step (move_in i) s = record s { g_in = (s.g_in + 1) % bufsize; producer = post_filled i }
  producer_step (post_filled i) s = record s {
    filled = (spec post s.filled).1;
    producer = produce_round (i + 1);
  }
  producer_step all_produced s = s

  unfoldable pub consumer_step : Consumer → State → State
  consumer_step (wait_filled i) s =
      let (status, filled) = spec try s.filled in
      record s { filled = filled; consumer = if is_success status then get i else wait_filled i }
  consumer_step (get i) s = record s { got = s.buffer s.g_out ∷ s.got; consumer = move_out i }
  consumer_step (move_out i) s = record s {
    g_out = (s.g_out + 1) % bufsize;
    consumer = post_empty i;
  }
  consumer_step (post_empty i) s = record s {
    empty = (spec post s.empty).1;
    consumer = consume_round (i + 1);
  }
  consumer_step all_consumed s = s

  unfoldable pub step : Actor → State → State
  unfolding producer_step consumer_step
  step produce s = producer_step s.producer s
  step consume s = consumer_step s.consumer s

  unfoldable pub run : List Actor → State → State
  run [] s = s
  run (a ∷ ts) s = run ts (step a s)
