-- ===== src/Lifecycle/Alone.antt =====
-- The calls of the owner in Thread.Create and its accesses in Race, side by side: the state that matches
-- a world, and the handles that both refuse.
use ccthread.Prelude.{
  true, ℕ, zero, suc, ◌≡◌, refl, ap, ◌∙◌, ◌≢◌, ◌⊎◌, Bool, false, none, inl, inr, List, [], ◌∷◌,
  arith, ◌==◌, if◌then◌else◌,
}
use ccthread.Types.{Platform, Code, failed}
use ccthread.External.{
  Env, World, Heap, Call, free, close_handle, pthread_detach, pthread_join, wait_for_single_object,
}
use ccthread.External
use ccthread.Thread.Laws.{consumed_refused}
use ccthread.Thread.Create.{ccthread_join, ccthread_detach}
use ccthread.Lifecycle.Race.{
  Consumer, ChildPc, OwnerPc, Config, State, guard_detached, guard_joined, guard_self, fetch,
  look_finished, claim_cleanup, returned, Actor, owner, owner_step, step, run,
}

-- The system answers as it likes, and while a call of the owner lasts nobody writes memory. No clock
-- is read.
abbrev pub alone : (ℕ → Call → ℕ) → Env
alone answer = record {
  answer = answer;
  meddle = λ n c h. h;
  clocks = record { has_monotonic = true; has_highres = false };
}

-- How often a history frees the struct at `p`, and closes a handle.
abbrev pub frees_of : ℕ → List (Call × ℕ) → ℕ
frees_of p [] = 0
frees_of p ((free q, _) ∷ h) = if p == q then suc (frees_of p h) else frees_of p h
frees_of p (_ ∷ h) = frees_of p h

abbrev pub closes_of : List (Call × ℕ) → ℕ
closes_of [] = 0
closes_of ((close_handle h, _) ∷ t) = suc (closes_of t)
closes_of (_ ∷ t) = closes_of t

-- The struct at `p` has the fields of `s`, and the history the frees and closes.
abbrev pub Matches : ℕ → State → World → Type 0
Matches p s w =
    (w.heap p External.result ≡ s.result)
    × (w.heap p External.detached ≡ s.detached)
    × (w.heap p External.joined ≡ s.joined)
    × (w.heap p External.finished ≡ s.finished)
    × (w.heap p External.cleanup_claimed ≡ s.cleanup_claimed)
    × (w.heap p External.is_self ≡ s.is_self)
    × (w.heap p External.handle ≡ s.handle)
    × (frees_of p w.history ≡ s.frees)
    × (closes_of w.history ≡ s.closes)

-- The state of Race that matches a world, at the start of the owner's call; `child` is where the thread
-- stands.
abbrev pub seen : ChildPc → ℕ → World → State
seen child p w = record {
  result = w.heap p External.result;
  detached = w.heap p External.detached;
  joined = w.heap p External.joined;
  finished = w.heap p External.finished;
  cleanup_claimed = w.heap p External.cleanup_claimed;
  is_self = w.heap p External.is_self;
  handle = w.heap p External.handle;
  got = none;
  frees = frees_of p w.history;
  closes = closes_of w.history;
  used_free = false;
  child = child;
  owner = guard_detached;
}

-- The owner makes its next eight accesses.
abbrev pub eight_turns : List Actor
eight_turns = owner ∷ owner ∷ owner ∷ owner ∷ owner ∷ owner ∷ owner ∷ owner ∷ []

-- What the owner's accesses find if the struct at `p` was freed before the call: what the world holds
-- there.
abbrev pub finds : ℕ → World → OwnerPc → ℕ
finds p w guard_detached = w.heap p External.detached
finds p w guard_joined = w.heap p External.joined
finds p w guard_self = w.heap p External.is_self
finds p w fetch = w.heap p External.result
finds p w look_finished = w.heap p External.finished
finds p w claim_cleanup = w.heap p External.cleanup_claimed
finds p w _ = 0

abbrev pub config : Platform → Consumer → ℕ → Bool → Bool → ℕ → World → Config
config platform consumer value wants_result os_ok p w = record {
  platform = platform;
  consumer = consumer;
  value = value;
  wants_result = wants_result;
  os_ok = os_ok;
  child_finds = λ place. 0;
  owner_finds = finds p w;
}

-- What both theorems say of a call with its result and its world, and the state after its accesses.
abbrev pub Agrees : ℕ → State → Code × World → Type 0
Agrees p s (code, w) = (s.owner ≡ returned code) × Matches p s w

-- The guard of both calls: the handle was consumed before, or was made by ccthread_self.
abbrev pub IsConsumed : ℕ → World → Type 0
IsConsumed p w =
    (w.heap p External.detached ≢ 0)
    ⊎ (((w.heap p External.detached ≡ 0) × (w.heap p External.joined ≢ 0))
        ⊎ ((w.heap p External.detached ≡ 0)
            × (w.heap p External.joined ≡ 0)
            × (w.heap p External.is_self ≢ 0)))

abbrev pub IsConsumable : ℕ → World → Type 0
IsConsumable p w =
    (w.heap p External.detached ≡ 0)
    × (w.heap p External.joined ≡ 0)
    × (w.heap p External.is_self ≡ 0)

pub guard-cases : (p : ℕ) (w : World) → IsConsumed p w ⊎ IsConsumable p w
guard-cases p w = ground arith

abbrev pub owners : ℕ → List Actor
owners zero = []
owners (suc n) = owner ∷ owners n

-- A call that has returned makes no access.
returned-run :
    (cf : Config) (n : ℕ) (s : State) (c : Code) → s.owner ≡ returned c → run cf (owners n) s ≡ s
unfolding run step owner_step
returned-run cf zero s c e = refl
returned-run cf (suc n) s c e =
    let still : step cf owner s ≡ s = rw e refl in
    ap (run cf (owners n)) still ∙ returned-run cf n s c e

-- The accesses of the guard that refuses a handle.
refused_at :
    (cf : Config) (child : ChildPc) (p : ℕ) (w : World)
    → ((o : OwnerPc) → cf.owner_finds o ≡ finds p w o)
    → IsConsumed p w
    → (k : ℕ) × (n : ℕ) × (run cf eight_turns (seen child p w)
        ≡ run cf (owners n) (run cf (owners k) (seen child p w)))
      × ((run cf (owners k) (seen child p w)).owner ≡ returned failed)
      × Matches p (run cf (owners k) (seen child p w)) w
      × ((run cf (owners k) (seen child p w)).got ≡ none)
unfolding run step owner_step
refused_at cf child p w f (inl d) = (
  1,
  7,
  refl,
  ground (arith, f guard_detached),
  (refl, refl, refl, refl, refl, refl, refl, refl, refl),
  refl,
)
refused_at cf child p w f (inr (inl (d, j))) = (
  2,
  6,
  refl,
  ground (arith, f guard_detached, f guard_joined),
  ground (arith, f guard_detached, f guard_joined),
  ground (arith, f guard_detached, f guard_joined),
)
refused_at cf child p w f (inr (inr (d, j, s))) = (
  3,
  5,
  refl,
  ground (arith, f guard_detached, f guard_joined, f guard_self),
  ground (arith, f guard_detached, f guard_joined, f guard_self),
  ground (arith, f guard_detached, f guard_joined, f guard_self),
)

pub refused-Agrees :
    (cf : Config) (child : ChildPc) (p : ℕ) (w : World)
    → ((o : OwnerPc) → cf.owner_finds o ≡ finds p w o)
    → IsConsumed p w
    → Agrees p (run cf eight_turns (seen child p w)) (failed, w)
      × ((run cf eight_turns (seen child p w)).got ≡ none)
refused-Agrees cf child p w f h =
    let (k, n, split, over, same, nothing) = refused_at cf child p w f h in
    let e = split ∙ returned-run cf n (run cf (owners k) (seen child p w)) failed over in
    rw e ((over, same), nothing)

pub consumed_both :
    (platform : Platform) (p : ℕ) (wanted : Bool) (env : Env) (w : World)
    → IsConsumed p w
    → (ccthread_join platform p wanted env w ≡ ((failed, none), w))
      × (ccthread_detach platform p env w ≡ (failed, w))
consumed_both platform p wanted env w (inl d) =
    consumed_refused platform p wanted env w (inl (inr d))
consumed_both platform p wanted env w (inr (inl (d, j))) =
    consumed_refused platform p wanted env w (inr (inl j))
consumed_both platform p wanted env w (inr (inr (d, j, s))) =
    consumed_refused platform p wanted env w (inr (inr s))
