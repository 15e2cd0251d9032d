-- ===== src/Examples/Buffer/Safety.antt =====
-- What the two threads of examples/ccsem_producer_consumer.c do under every schedule.
use ccthread.Prelude.{
  ℕ, zero, suc, ◌+◌, ◌-◌, ◌*◌, ◌≤◌, ◌<◌, ◌≡◌, refl, ◌≢◌, inl, inr, Bool, true, false, List, [], ◌∷◌,
  length, arith, ltb, Bool-cases, dec_lt,
}
use ccthread.Examples.Ring.{first}
use ccthread.Examples.Buffer.{
  item, Producer, wait_empty, put, move_in, post_filled, all_produced, Consumer, wait_filled, get,
  move_out, post_empty, all_consumed, State, Actor, produce, consume, init, producer_step,
  consumer_step, step, run,
}
use ccthread.Examples.Buffer.Invariant.{Inv, Counts, ConsumerIn, read, after-Inv, step-Inv}

module _ (items id : ℕ) where
  -- The steps that a thread has still to make.
  abbrev pub to_produce : Producer → ℕ
  to_produce (wait_empty i) = 4 * (items - i)
  to_produce (put i) = 4 * (items - i) - 1
  to_produce (move_in i) = 4 * (items - i) - 2
  to_produce (post_filled i) = 4 * (items - i) - 3
  to_produce all_produced = 0

  abbrev pub to_consume : Consumer → ℕ
  to_consume (wait_filled i) = 4 * (items - i)
  to_consume (get i) = 4 * (items - i) - 1
  to_consume (move_out i) = 4 * (items - i) - 2
  to_consume (post_empty i) = 4 * (items - i) - 3
  to_consume all_consumed = 0

  abbrev pub to_do : State → ℕ
  to_do s = to_produce s.producer + to_consume s.consumer

  -- The next step of a thread is no failing attempt on a semaphore.
  abbrev producer_ready : Producer → State → Bool
  producer_ready (wait_empty i) s = ltb 0 s.empty
  producer_ready all_produced s = false
  producer_ready _ s = true

  abbrev consumer_ready : Consumer → State → Bool
  consumer_ready (wait_filled i) s = ltb 0 s.filled
  consumer_ready all_consumed s = false
  consumer_ready _ s = true

  produce-works :
      (p : Producer) (s : State)
      → s.producer ≡ p
      → Counts items id s
      → producer_ready p s ≡ true
      → to_do (producer_step items id p s) < to_do s
  unfolding producer_step
  produce-works (wait_empty i) s e v r = ground arith
  produce-works p s e v r = ground arith

  consume-works :
      (p : Consumer) (s : State)
      → s.consumer ≡ p
      → Counts items id s
      → consumer_ready p s ≡ true
      → to_do (consumer_step items id p s) < to_do s
  unfolding consumer_step
  consume-works (wait_filled i) s e v r = ground arith
  consume-works p s e v r = ground arith

  -- The two threads never wait for each other.
  ready :
      (p : Producer) (c : Consumer) (s : State)
      → s.producer ≡ p
      → s.consumer ≡ c
      → Counts items id s
      → producer_ready p s ≡ false
      → consumer_ready c s ≡ false
      → to_do s ≡ 0
  ready (wait_empty i) (wait_filled j) s e f v p c = ground arith
  ready p c s e f v r q = ground arith

  progress :
      (s : State)
      → Inv items id s
      → 0 < to_do s
      → (a : Actor) × (to_do (step items id a s) < to_do s)
  unfolding step
  progress s v h = elim (Bool-cases (producer_ready s.producer s)) [
    | inl yes_p ↦ (produce, produce-works s.producer s refl v.counts yes_p)
    | inr no_p ↦ elim (Bool-cases (consumer_ready s.consumer s)) [
      | inl yes_c ↦ (consume, consume-works s.consumer s refl v.counts yes_c)
      | inr no_c ↦
          absurd (omega (arith, ready s.producer s.consumer s refl refl v.counts no_p no_c))
    ]
  ]

  to_produce-le : (p : Producer) → to_produce p ≤ 4 * items
  to_produce-le (wait_empty i) = omega arith
  to_produce-le p = ground arith

  to_consume-le : (c : Consumer) → to_consume c ≤ 4 * items
  to_consume-le (wait_filled i) = omega arith
  to_consume-le c = ground arith

  produced :
      (p : Producer) (s : State)
      → s.producer ≡ p
      → Counts items id s
      → to_produce p ≡ 0
      → p ≡ all_produced
  produced (wait_empty i) s e v h = ground arith
  produced p s e v h = ground arith

  consumed :
      (c : Consumer) (s : State)
      → s.consumer ≡ c
      → Counts items id s
      → to_consume c ≡ 0
      → c ≡ all_consumed
  consumed (wait_filled i) s e v h = ground arith
  consumed c s e v h = ground arith

  -- Both threads have finished, and the consumer got every item in order.
  abbrev pub Complete : State → Type 0
  Complete s =
      (s.producer ≡ all_produced) × (s.consumer ≡ all_consumed) × (s.got ≡ first (item id) items)

  complete : (s : State) → Inv items id s → to_do s ≡ 0 → Complete s
  complete s v h =
      let p = produced s.producer s refl v.counts (omega arith) in
      let c = consumed s.consumer s refl v.counts (omega arith) in
      let o = v.in_order in (p, c, rw c at o)

  finish :
      (fuel : ℕ) (s : State)
      → Inv items id s
      → to_do s ≤ fuel
      → (us : List Actor) × (length us ≤ fuel) × Complete (run items id us s)
  unfolding run
  finish zero s v h = ([], omega arith, complete s v (omega arith))
  finish (suc fuel) s v h = elim (dec_lt 0 (to_do s)) [
    | no over ↦ ([], omega arith, complete s v (omega arith))
    | yes more ↦
        let (a, less) = progress s v more in
        let (us, short, end) =
          finish fuel (step items id a s) (step-Inv items id a s v) (omega arith) in
        (a ∷ us, omega arith, end)
  ]

  module _ (ts : List Actor) where
    -- First in, first out: after every schedule the consumer has got the first items that the
    -- producer makes, in order and each once, as many as the place in its loop says, and at most
    -- `items` of them.
    pub fifo :
        let s = run items id ts (init items id) in
        (s.got ≡ first (item id) (read items id s.consumer)) × (read items id s.consumer ≤ items)
    fifo = (v.in_order, bounded end.consumer v.counts.consumer_in)
      where
        end : State
        end = run items id ts (init items id)

        v : Inv items id end
        v = after-Inv items id ts

        bounded : (c : Consumer) → ConsumerIn items id c → read items id c ≤ items
        bounded (wait_filled i) h = ground arith
        bounded c h = ground arith

    -- No slot is written and read at the same time.
    pub slots_apart :
        (i j : ℕ)
        → (run items id ts (init items id)).producer ≡ put i
        → (run items id ts (init items id)).consumer ≡ get j
        → (run items id ts (init items id)).g_in ≢ (run items id ts (init items id)).g_out
    slots_apart i j p c = ground (arith, (after-Inv items id ts).counts)

    -- No deadlock: from wherever a schedule has led, at most `8 * items` further steps finish both
    -- threads, with every item delivered in order.
    pub completes :
        (us : List Actor) × (length us ≤ 8 * items)
        × Complete (run items id us (run items id ts (init items id)))
    completes =
        let s = run items id ts (init items id) in
        finish (8 * items) s (after-Inv items id ts)
          (omega (arith, to_produce-le s.producer, to_consume-le s.consumer))
