-- ===== src/Examples/LifecycleTests/Stress.antt =====
-- The tests of examples/ccthread_lifecycle.c that create threads and join them: test_normal_join,
-- test_exit_join, test_stress_join and test_stress_exit_join, on the steps of Lifecycle.Race. `n` threads
-- run normal_worker or exit_worker on the integers `vals`; the main thread creates all of them, then
-- joins one after the other.
pub mod Slots
pub mod Heap
pub mod Invariant
pub mod Moves
pub mod Counts
pub mod Results
pub mod Safety
mod Tests
use ccthread.Prelude.{
  ℕ, ◌+◌, ◌*◌, Bool, true, false, ◌&&◌, not, Option, none, some, List, [], ◌∷◌, ltb, ◌==◌,
  if◌then◌else◌, update,
}
use ccthread.Types.{Platform, Code, is_ok}
use ccthread.Lifecycle.Race.{
  join, Config, ChildPc, work, OwnerPc, returned, State, created, child_step, owner_step,
}

pub data Main : Type 0 where
  creating : (i : ℕ) → Main  -- before the `ccthread_create` of thread `i` and its TEST
  joining : (i : ℕ) → Main  -- in `ccthread_join(ths[i], &ret)`, whose result is tested
  valuing : (i : ℕ) → Main  -- before `ret != NULL && *(int*)ret == ...`
  freeing : (i : ℕ) → Main  -- before `free(ret)`
  finished : Main

-- A thread: whether `ths[i]` is not NULL, its struct, and what `malloc` returned to it (0 before).
pub record Slot : Type 0 where
  pub is_created : Bool
  pub state : State
  pub address : ℕ

-- The threads, the integers that are allocated, the counters of the tests, and the main thread.
pub record Shared : Type 0 where
  pub slots : ℕ → Slot
  pub ints : ℕ → Option ℕ
  pub tests_pass : ℕ
  pub tests_fail : ℕ
  pub main : Main

-- The turn of a worker, with the address that `malloc` would choose, or of the main thread, with the
-- success of ccthread_create.
pub data Move : Type 0 where
  worker_turn : (i choice : ℕ) → Move
  main_turn : (does_create : Bool) → Move

abbrev pub is_none : Option ℕ → Bool
is_none none = true
is_none (some v) = false

-- `malloc(sizeof(int))`: a block that is not in use, or NULL.
abbrev pub malloc : ℕ → (ℕ → Option ℕ) → ℕ
malloc choice ints = if not (choice == 0) && is_none (ints choice) then choice else 0

abbrev pub is_work : ChildPc → Bool
is_work work = true
is_work p = false

abbrev pub code_of : OwnerPc → Option Code
code_of (returned c) = some c
code_of p = none

-- `ret`: NULL until ccthread_join stores the result.
abbrev pub ret : Slot → ℕ
ret slot = elim slot.state.got [ none ↦ 0 | some p ↦ p ]

-- `ret != NULL && *(int*)ret == expected`
abbrev pub holds : (ℕ → Option ℕ) → ℕ → ℕ → Bool
holds ints p expected = not (p == 0) && (elim (ints p) [ none ↦ false | some v ↦ v == expected ])

-- TEST
abbrev pub test : Bool → Shared → Shared
test passed s =
    if passed
    then record s { tests_pass = s.tests_pass + 1 }
    else record s { tests_fail = s.tests_fail + 1 }

-- The system's own join succeeds; the thread's value is the address. What freed structs hold plays no
-- part here: `used_free` in the slot of a thread says whether one was read.
abbrev pub config : Platform → ℕ → Config
config platform address = record {
  platform = platform;
  consumer = join;
  value = address;
  wants_result = true;
  os_ok = true;
  child_finds = λ place. 0;
  owner_finds = λ place. 0;
}

-- `for (int i = 0; i < N; i++)`, twice
abbrev pub next_join : ℕ → ℕ → Main
next_join n i = if ltb i n then joining i else finished

abbrev pub next_create : ℕ → ℕ → Main
next_create n i = if ltb i n then creating i else next_join n 0

module _ (platform : Platform) (n : ℕ) (vals : ℕ → ℕ) where
  -- The next access of thread `i`. Its function allocates the integer and fills it, then returns or
  -- calls ccthread_exit.
  unfoldable pub worker_step : ℕ → ℕ → Shared → Shared
  worker_step i choice s =
      let slot = s.slots i in
      let p = malloc choice s.ints in
      if not slot.is_created
      then s
      else if is_work slot.state.child
      then record s {
        slots =
            update s.slots i
              (record slot { state = child_step (config platform p) work slot.state; address = p });
        ints = if p == 0 then s.ints else update s.ints p (some (vals i));
      }
      else record s {
        slots = update s.slots i (record slot {
          state = child_step (config platform slot.address) slot.state.child slot.state;
        });
      }

  unfoldable pub main_step : Bool → Main → Shared → Shared
  main_step does_create (creating i) s = test does_create (record s {
    slots = update s.slots i (record (s.slots i) { is_created = does_create });
    main = next_create n (i + 1);
  })
  main_step does_create (joining i) s =
      let slot = s.slots i in
      let state = owner_step (config platform slot.address) slot.state.owner slot.state in
      let s' = record s { slots = update s.slots i (record slot { state = state }) } in
      if slot.is_created
      then (elim (code_of state.owner) [
        | none ↦ s'
        | some c ↦ test (is_ok c) (record s' { main = valuing i })
      ])
      else test false (record s { main = valuing i })
  main_step does_create (valuing i) s =
      test (holds s.ints (ret (s.slots i)) (vals i)) (record s { main = freeing i })
  main_step does_create (freeing i) s = record s {
    ints = update s.ints (ret (s.slots i)) none;
    main = next_join n (i + 1);
  }
  main_step does_create finished s = s

  unfoldable pub step : Move → Shared → Shared
  step (worker_turn i choice) s = worker_step i choice s
  step (main_turn does_create) s = main_step does_create s.main s

  abbrev pub init : Shared
  init = record {
    slots = λ i. record { is_created = false; state = created; address = 0 };
    ints = λ a. none;
    tests_pass = 0;
    tests_fail = 0;
    main = next_create n 0;
  }

  unfoldable pub run : List Move → Shared → Shared
  run [] s = s
  run (t ∷ ts) s = run ts (step t s)

  abbrev pub after : List Move → Shared
  after ts = run ts init

abbrev pub test_normal_join : Platform → List Move → Shared
test_normal_join platform = after platform 1 (λ i. 42)

abbrev pub test_exit_join : Platform → List Move → Shared
test_exit_join platform = after platform 1 (λ i. 99)

abbrev pub test_stress_join : Platform → List Move → Shared
test_stress_join platform = after platform 200 (λ i. i * i)

abbrev pub test_stress_exit_join : Platform → List Move → Shared
test_stress_exit_join platform = after platform 200 (λ i. i + 1000)
