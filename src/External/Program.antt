-- ===== src/External/Program.antt =====
-- Functions that call the environment: a state monad over the heap and the history of calls.
use ccthread.Prelude.{ℕ, suc, List, ◌∷◌, ◌&&◌, ◌==◌, if◌then◌else◌}
use ccthread.External.Calls.{Call, Clocks, calloc}

-- The integer and pointer fields of the structs of the sources.
pub data Field : Type 0 where
  count writer_tid recursive handle sem : Field
  func arg result detached joined finished cleanup_claimed tid is_self : Field

-- The structs by address. Address 0 is NULL.
abbrev pub Heap : Type 0
Heap = ℕ → Field → ℕ

abbrev pub field_index : Field → ℕ
field_index count = 0
field_index writer_tid = 1
field_index recursive = 2
field_index handle = 3
field_index sem = 4
field_index func = 5
field_index arg = 6
field_index result = 7
field_index detached = 8
field_index joined = 9
field_index finished = 10
field_index cleanup_claimed = 11
field_index tid = 12
field_index is_self = 13

abbrev pub write : Heap → ℕ → Field → ℕ → Heap
write h p f v q g = if (p == q) && (field_index f == field_index g) then v else h q g

-- The `n`-th external call of a run gets the answer `answer n c`, and while it lasts other threads
-- change the heap by `meddle n c`. Both are arbitrary. `clocks` is the same
-- in every run.
pub record Env : Type 0 where
  pub answer : ℕ → Call → ℕ
  pub meddle : ℕ → Call → Heap → Heap
  pub clocks : Clocks

pub record World : Type 0 where
  pub time : ℕ
  pub heap : Heap
  pub history : List (Call × ℕ)

abbrev pub Prog : Type 0 → Type 0
Prog A = Env → World → A × World

abbrev pub pure : {A : Type 0} → A → Prog A
pure a env w = (a, w)

infixl 5 ◌>>=◌ ◌>>◌
abbrev pub ◌>>=◌ : {A B : Type 0} → Prog A → (A → Prog B) → Prog B
◌>>=◌ m f env w = let (a, w') = m env w in f a env w'

abbrev pub ◌>>◌ : {A B : Type 0} → Prog A → Prog B → Prog B
◌>>◌ m k env w = let (_, w') = m env w in k env w'

abbrev pub call : Call → Prog ℕ
call c env w = (
  env.answer w.time c,
  record {
    time = suc w.time;
    heap = env.meddle w.time c w.heap;
    history = (c, env.answer w.time c) ∷ w.history;
  },
)

abbrev pub load : ℕ → Field → Prog ℕ
load p f env w = (w.heap p f, w)

abbrev pub store : ℕ → Field → ℕ → Prog (Unit {0})
store p f v env w = (tt, record w { heap = write w.heap p f v })

-- `calloc` of one struct: its address with the struct zeroed, or NULL.
abbrev pub zero_struct : ℕ → Prog (Unit {0})
zero_struct p env w = (tt, record w { heap = λ q f. if p == q then 0 else w.heap q f })

abbrev pub alloc : Prog ℕ
alloc = do p ← call calloc; if p == 0 then pure 0 else (do zero_struct p; pure p)
