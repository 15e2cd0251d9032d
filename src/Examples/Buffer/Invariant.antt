-- ===== src/Examples/Buffer/Invariant.antt =====
-- The slots between the consumer and the producer hold the items in order: true at the start and kept
-- by every step.
use ccthread.Prelude.{ℕ, ◌+◌, ◌%◌, ◌≤◌, ◌<◌, ◌≡◌, refl, ap, List, [], ◌∷◌, arith}
use ccthread.Examples.Ring.{first, first-zero, first-add, Holds, put-Holds}
use ccthread.Examples.Buffer.{
  bufsize, item, Producer, wait_empty, put, move_in, post_filled, all_produced, Consumer,
  wait_filled, get, move_out, post_empty, all_consumed, State, Actor, produce, consume, init,
  producer_step, consumer_step, step, run,
}

module _ (items id : ℕ) where
  -- How many permits of `g_empty` the producer took, how many items it wrote, the items that `g_in`
  -- counts, and how many permits of `g_filled` it gave.
  abbrev pub reserved : Producer → ℕ
  reserved (wait_empty i) = i
  reserved (put i) = i + 1
  reserved (move_in i) = i + 1
  reserved (post_filled i) = i + 1
  reserved all_produced = items

  abbrev pub written : Producer → ℕ
  written (wait_empty i) = i
  written (put i) = i
  written (move_in i) = i + 1
  written (post_filled i) = i + 1
  written all_produced = items

  abbrev pub advanced : Producer → ℕ
  advanced (wait_empty i) = i
  advanced (put i) = i
  advanced (move_in i) = i
  advanced (post_filled i) = i + 1
  advanced all_produced = items

  abbrev pub offered : Producer → ℕ
  offered (wait_empty i) = i
  offered (put i) = i
  offered (move_in i) = i
  offered (post_filled i) = i
  offered all_produced = items

  -- The same for the consumer.
  abbrev pub claimed : Consumer → ℕ
  claimed (wait_filled i) = i
  claimed (get i) = i + 1
  claimed (move_out i) = i + 1
  claimed (post_empty i) = i + 1
  claimed all_consumed = items

  abbrev pub read : Consumer → ℕ
  read (wait_filled i) = i
  read (get i) = i
  read (move_out i) = i + 1
  read (post_empty i) = i + 1
  read all_consumed = items

  abbrev pub passed : Consumer → ℕ
  passed (wait_filled i) = i
  passed (get i) = i
  passed (move_out i) = i
  passed (post_empty i) = i + 1
  passed all_consumed = items

  abbrev pub returned : Consumer → ℕ
  returned (wait_filled i) = i
  returned (get i) = i
  returned (move_out i) = i
  returned (post_empty i) = i
  returned all_consumed = items

  -- A thread in its loop is in a round below `items`.
  abbrev pub ProducerIn : Producer → Type 0
  ProducerIn (wait_empty i) = i < items
  ProducerIn (put i) = i < items
  ProducerIn (move_in i) = i < items
  ProducerIn (post_filled i) = i < items
  ProducerIn all_produced = Unit

  abbrev pub ConsumerIn : Consumer → Type 0
  ConsumerIn (wait_filled i) = i < items
  ConsumerIn (get i) = i < items
  ConsumerIn (move_out i) = i < items
  ConsumerIn (post_empty i) = i < items
  ConsumerIn all_consumed = Unit

  pub record Counts (s : State) : Type 0 where
    pub free : s.empty + reserved s.producer ≡ bufsize + returned s.consumer
    pub full : s.filled + claimed s.consumer ≡ offered s.producer
    pub in_at : s.g_in ≡ advanced s.producer % bufsize
    pub out_at : s.g_out ≡ passed s.consumer % bufsize
    pub producer_in : ProducerIn s.producer
    pub consumer_in : ConsumerIn s.consumer

  pub record Inv (s : State) : Type 0 where
    pub counts : Counts s
    pub slots : Holds (item id) s.buffer (read s.consumer) (written s.producer)
    pub in_order : s.got ≡ first (item id) (read s.consumer)

  produce-Counts :
      (p : Producer) (s : State) → s.producer ≡ p → Counts s → Counts (producer_step items id p s)
  unfolding producer_step
  produce-Counts (wait_empty i) s e v = ground arith
  produce-Counts p s e v = ground arith

  consume-Counts :
      (p : Consumer) (s : State) → s.consumer ≡ p → Counts s → Counts (consumer_step items id p s)
  unfolding consumer_step
  consume-Counts (wait_filled i) s e v = ground arith
  consume-Counts p s e v = ground arith

  returned-le-read : (c : Consumer) → returned c ≤ read c
  returned-le-read (wait_filled i) = omega arith
  returned-le-read c = ground arith

  offered-le-written : (p : Producer) → offered p ≤ written p
  offered-le-written (wait_empty i) = omega arith
  offered-le-written p = ground arith

  produce-slots :
      (p : Producer) (s : State)
      → s.producer ≡ p
      → Inv s
      → let s' = producer_step items id p s in
        Holds (item id) s'.buffer (read s'.consumer) (written s'.producer)
  unfolding producer_step
  produce-slots (put i) s e v =
      let at_slot : s.g_in ≡ i % bufsize = ground (arith, v.counts) in
      let before : written s.producer ≡ i = ground arith in
      rw at_slot (
        put-Holds (item id) s.buffer (read s.consumer) i (item id i) refl
          (ground (arith, v.counts, returned-le-read s.consumer)) (rw (← before) v.slots))
  produce-slots (wait_empty i) s e v = λ j a b. v.slots j a (ground arith)
  produce-slots (move_in i) s e v = λ j a b. v.slots j a (ground arith)
  produce-slots (post_filled i) s e v = λ j a b. v.slots j a (ground (arith, v.counts))
  produce-slots all_produced s e v = v.slots

  consume-slots :
      (p : Consumer) (s : State)
      → s.consumer ≡ p
      → Inv s
      → let s' = consumer_step items id p s in
        Holds (item id) s'.buffer (read s'.consumer) (written s'.producer)
  unfolding consumer_step
  consume-slots (wait_filled i) s e v = λ j a b. v.slots j (ground arith) b
  consume-slots (get i) s e v = λ j a b. v.slots j (ground arith) b
  consume-slots (move_out i) s e v = λ j a b. v.slots j (ground arith) b
  consume-slots (post_empty i) s e v = λ j a b. v.slots j (ground (arith, v.counts)) b
  consume-slots all_consumed s e v = v.slots

  produce-in_order :
      (p : Producer) (s : State)
      → s.got ≡ first (item id) (read s.consumer)
      → (producer_step items id p s).got
        ≡ first (item id) (read (producer_step items id p s).consumer)
  unfolding producer_step
  produce-in_order (wait_empty i) s e = e
  produce-in_order (put i) s e = e
  produce-in_order (move_in i) s e = e
  produce-in_order (post_filled i) s e = e
  produce-in_order all_produced s e = e

  consume-in_order :
      (p : Consumer) (s : State)
      → s.consumer ≡ p
      → Inv s
      → (consumer_step items id p s).got
        ≡ first (item id) (read (consumer_step items id p s).consumer)
  unfolding consumer_step
  consume-in_order (get i) s e v =
      let at_slot : s.g_out ≡ i % bufsize = ground (arith, v.counts) in
      let here : s.buffer (i % bufsize) ≡ item id i =
        v.slots i (ground arith) (ground (arith, v.counts, offered-le-written s.producer)) in
      rw (at_slot, here, first-add (item id)) (ap (λ l. item id i ∷ l) (ground (arith, v.in_order)))
  consume-in_order (wait_filled i) s e v = ground (arith, v.in_order)
  consume-in_order (move_out i) s e v = ground (arith, v.in_order)
  consume-in_order (post_empty i) s e v = ground (arith, v.in_order, v.counts)
  consume-in_order all_consumed s e v = v.in_order

  pub step-Inv : (a : Actor) (s : State) → Inv s → Inv (step items id a s)
  unfolding step
  step-Inv produce s v = record {
    counts = produce-Counts s.producer s refl v.counts;
    slots = produce-slots s.producer s refl v;
    in_order = produce-in_order s.producer s v.in_order;
  }
  step-Inv consume s v = record {
    counts = consume-Counts s.consumer s refl v.counts;
    slots = consume-slots s.consumer s refl v;
    in_order = consume-in_order s.consumer s refl v;
  }

  Inv-init : Inv (init items id)
  Inv-init = record {
    counts = ground arith;
    slots = λ j a b. absurd (ground arith);
    in_order = ground (arith, first-zero (item id));
  }

  run-Inv : (ts : List Actor) (s : State) → Inv s → Inv (run items id ts s)
  unfolding run
  run-Inv [] s v = v
  run-Inv (a ∷ ts) s v = run-Inv ts (step items id a s) (step-Inv a s v)

  pub after-Inv : (ts : List Actor) → Inv (run items id ts (init items id))
  after-Inv ts = run-Inv ts (init items id) Inv-init
