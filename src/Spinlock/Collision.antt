-- ===== src/Spinlock/Collision.antt =====
-- Thread ids that are no identities: the fallback of ccthread_gettid keeps the low 32 bits of
-- `pthread_self()`.
use ccthread.Prelude.{ℕ, ◌^◌, ◌%◌, ◌≡◌, ◌≢◌, ◌⊎◌, sym, ◌∙◌, true, false, List, [], ◌∷◌, arith, run}
use ccthread.Types.{Platform, netbsd, solaris, posix}
use ccthread.External.{Env}
use ccthread.Thread.Create.{os_gettid}
use ccthread.Spinlock.Threads.{idle, Choice, lock, step, after}

-- `_ccthread_gettid()` in a thread whose `pthread_self()` is `handle`.
abbrev pub id_of : Platform → ℕ → ℕ
id_of platform handle =
    let env : Env = record {
      answer = λ n c. handle;
      meddle = λ n c h. h;
      clocks = record { has_monotonic = true; has_highres = false };
    } in
    (os_gettid platform env (record { time = 0; heap = λ p f. 0; history = [] })).0

-- Five turns of thread 0, then five of thread 1.
abbrev pub one_then_other : List (ℕ × Choice)
one_then_other =
    (0, lock)
    ∷ (0, lock)
    ∷ (0, lock)
    ∷ (0, lock)
    ∷ (0, lock)
    ∷ (1, lock)
    ∷ (1, lock)
    ∷ (1, lock)
    ∷ (1, lock)
    ∷ (1, lock)
    ∷ []

shared_id :
    (tid : ℕ → ℕ)
    → tid 0 ≢ 0
    → tid 0 ≡ tid 1
    → ((after tid one_then_other).pc 0 ≡ idle 1) × ((after tid one_then_other).pc 1 ≡ idle 1)
unfolding run step
shared_id tid n e = ground arith

low_bits :
    (platform : Platform) (handle : ℕ)
    → (platform ≡ netbsd) ⊎ ((platform ≡ solaris) ⊎ (platform ≡ posix))
    → id_of platform handle ≡ handle % 2 ^ 32
unfolding os_gettid
low_bits platform handle h = ground arith

-- Where ccthread_gettid falls back on `pthread_self()`, two threads whose handles have the same low 32
-- bits, not all 0, can hold one spinlock at the same time, each by an acquisition of its own: the
-- second one is taken for the owner.
pub truncated_ids_collide :
    (platform : Platform) (handle : ℕ → ℕ)
    → (platform ≡ netbsd) ⊎ ((platform ≡ solaris) ⊎ (platform ≡ posix))
    → handle 0 % 2 ^ 32 ≢ 0
    → handle 0 % 2 ^ 32 ≡ handle 1 % 2 ^ 32
    → let s = after (λ i. id_of platform (handle i)) one_then_other in
      (s.pc 0 ≡ idle 1) × (s.pc 1 ≡ idle 1)
truncated_ids_collide platform handle f n e =
    let a = low_bits platform (handle 0) f in
    let b = low_bits platform (handle 1) f in
    shared_id (λ i. id_of platform (handle i)) (λ z. n (sym a ∙ z)) (a ∙ e ∙ sym b)
