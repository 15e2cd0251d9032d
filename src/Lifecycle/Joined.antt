-- ===== src/Lifecycle/Joined.antt =====
-- ccthread_wrapper against ccthread_join: who frees the struct, and what the owner gets.
use ccthread.Prelude.{ℕ, ◌≡◌, refl, Bool, true, false, none, some, List, arith, if◌then◌else◌}
use ccthread.Types.{is_windows, ok}
use ccthread.Lifecycle.Race.{
  join, Config, ChildPc, begin, work, finish, look, ended, OwnerPc, guard_detached, guard_joined,
  guard_self, wait, fetch, close_joined, mark_joined, free_joined, returned, State, created,
  child_step, owner_step, Actor, child, owner, step, run, run-keeps,
}

-- Before the struct is marked the thread never leaves the straight path.
abbrev pub straight : ChildPc → Bool
straight begin = true
straight work = true
straight finish = true
straight look = true
straight ended = true
straight _ = false

abbrev pub has_value : ChildPc → Bool
has_value begin = false
has_value work = false
has_value _ = true

-- The owner is in ccthread_join; it has waited; it has the value; it has closed; it has freed.
abbrev pub joins : OwnerPc → Bool
joins guard_detached = true
joins guard_joined = true
joins guard_self = true
joins wait = true
joins fetch = true
joins close_joined = true
joins mark_joined = true
joins free_joined = true
joins (returned _) = true
joins _ = false

abbrev pub has_waited : OwnerPc → Bool
has_waited fetch = true
has_waited close_joined = true
has_waited mark_joined = true
has_waited free_joined = true
has_waited (returned ok) = true
has_waited _ = false

abbrev pub past_fetch : OwnerPc → Bool
past_fetch close_joined = true
past_fetch mark_joined = true
past_fetch free_joined = true
past_fetch (returned ok) = true
past_fetch _ = false

abbrev pub closed : OwnerPc → ℕ
closed mark_joined = 1
closed free_joined = 1
closed (returned ok) = 1
closed _ = 0

abbrev pub marked : OwnerPc → ℕ
marked free_joined = 1
marked (returned ok) = 1
marked _ = 0

abbrev pub freed : OwnerPc → ℕ
freed (returned ok) = 1
freed _ = 0

pub record Inv (cf : Config) (s : State) : Type 0 where
  pub in_join : joins s.owner ≡ true
  pub undetached : s.detached ≡ 0
  pub not_self : s.is_self ≡ 0
  pub path : straight s.child ≡ true
  pub waited : has_waited s.owner ≡ true → s.child ≡ ended
  pub value : has_value s.child ≡ true → s.result ≡ cf.value
  pub fetched :
      past_fetch s.owner ≡ true → s.got ≡ (if cf.wants_result then some cf.value else none)
  pub ungot : past_fetch s.owner ≡ false → s.got ≡ none
  pub mark : s.joined ≡ marked s.owner
  pub windows : is_windows cf.platform ≡ true → s.closes ≡ closed s.owner
  pub closing : s.owner ≡ close_joined → is_windows cf.platform ≡ true
  pub posix : is_windows cf.platform ≡ false → s.closes ≡ 0
  pub frees : s.frees ≡ freed s.owner
  pub clean : s.used_free ≡ false

pub child-Inv :
    (cf : Config) (p : ChildPc) (s : State) → s.child ≡ p → Inv cf s → Inv cf (child_step cf p s)
unfolding child_step
child-Inv cf begin s e v = ground arith
child-Inv cf p s e v = ground arith

pub owner-Inv :
    (cf : Config) (p : OwnerPc) (s : State)
    → cf.consumer ≡ join
    → s.owner ≡ p
    → Inv cf s
    → Inv cf (owner_step cf p s)
unfolding owner_step
owner-Inv cf guard_detached s d e v = ground arith
owner-Inv cf p s d e v = ground arith

step-Inv :
    (cf : Config) (a : Actor) (s : State) → cf.consumer ≡ join → Inv cf s → Inv cf (step cf a s)
unfolding step
step-Inv cf child s d v = child-Inv cf s.child s refl v
step-Inv cf owner s d v = owner-Inv cf s.owner s d refl v

run-Inv : (cf : Config) (ts : List Actor) → cf.consumer ≡ join → Inv cf (run cf ts created)
run-Inv cf ts d = run-keeps cf (Inv cf) (λ a s v. step-Inv cf a s d v) ts created (ground arith)

-- Joining is safe: after every schedule freed memory was not used, and once ccthread_join has
-- returned success the thread has ended, the caller has its value if it asked for one, the struct was
-- freed exactly once, and on Windows the handle was closed exactly once.
pub join_delivers :
    (cf : Config) (ts : List Actor)
    → cf.consumer ≡ join
    → ((run cf ts created).used_free ≡ false)
      × ((run cf ts created).owner ≡ returned ok
          → ((run cf ts created).child ≡ ended)
            × ((run cf ts created).got ≡ (if cf.wants_result then some cf.value else none))
            × ((run cf ts created).frees ≡ 1)
            × ((run cf ts created).closes ≡ (if is_windows cf.platform then 1 else 0)))
join_delivers cf ts d =
    ((run-Inv cf ts d).clean, λ e. delivered (run cf ts created) (run-Inv cf ts d) e)
  where
    delivered :
        (s : State)
        → Inv cf s
        → s.owner ≡ returned ok
        → (s.child ≡ ended)
          × (s.got ≡ (if cf.wants_result then some cf.value else none))
          × (s.frees ≡ 1)
          × (s.closes ≡ (if is_windows cf.platform then 1 else 0))
    delivered s v e = ground arith
