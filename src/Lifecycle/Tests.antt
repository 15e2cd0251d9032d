-- ===== src/Lifecycle/Tests.antt =====
-- Runs of the two threads on concrete schedules, and the theorems at inputs that meet their
-- hypotheses.
use ccthread.Prelude.{◌≤◌, ◌≡◌, ◌≢◌, refl, true, false, some, List, [], ◌∷◌, ◌++◌, arith}
use ccthread.Types.{mingw, linux, ok}
use ccthread.Lifecycle.Race.{
  Config, join, detach, ended, finish, look_finished, claim_cleanup, returned, created, Actor,
  child, owner, step, run,
}
use ccthread.Lifecycle.Detached.{detach_frees_once, detach_may_use_freed}
use ccthread.Lifecycle.Joined.{join_delivers}
use ccthread.External.Samples.{filled}
use ccthread.Thread.Create.{ccthread_join, ccthread_detach}
use ccthread.Lifecycle.Alone.{alone, seen, eight_turns, config, Agrees}
use ccthread.Lifecycle.Refinement.{run-ccthread_detach, run-ccthread_join}

abbrev detaching : Config
detaching = record {
  platform = linux;
  consumer = detach;
  value = 42;
  wants_result = true;
  os_ok = true;
  child_finds = λ place. 0;
  owner_finds = λ place. 0;
}

abbrev windows_detaching : Config
windows_detaching = record detaching { platform = mingw }

abbrev joining : Config
joining = record detaching { consumer = join }

abbrev eight : Actor → List Actor
eight a = a ∷ a ∷ a ∷ a ∷ a ∷ a ∷ a ∷ a ∷ a ∷ []

abbrev child_first : List Actor
child_first = eight child ++ eight owner

child_first_detached : (run detaching child_first created).frees ≡ 1
unfolding run step
child_first_detached = refl

child_first_unused : (run detaching child_first created).used_free ≡ false
unfolding run step
child_first_unused = refl

detach_frees_once_example :
    ((run detaching child_first created).frees ≤ 1)
    × ((run detaching child_first created).child ≡ ended
        → (run detaching child_first created).owner ≡ returned ok
        → (run detaching child_first created).frees ≡ 1)
detach_frees_once_example = detach_frees_once detaching child_first refl child_first_unused

detach_may_use_freed_example :
    (ts : List Actor) × ((run windows_detaching ts created).child ≡ ended)
    × ((run windows_detaching ts created).frees ≡ 1)
    × ((run windows_detaching ts created).owner ≡ look_finished)
    × ((run windows_detaching ts created).used_free ≡ false)
    × ((step windows_detaching owner (run windows_detaching ts created)).used_free ≡ true)
    × (windows_detaching.owner_finds look_finished ≢ 0
        → windows_detaching.owner_finds claim_cleanup ≡ 0
        → (run windows_detaching
            (owner ∷ owner ∷ owner ∷ [])
            (run windows_detaching ts created)).frees
          ≡ 2)
detach_may_use_freed_example = detach_may_use_freed windows_detaching refl refl

join_delivers_example :
    ((run joining child_first created).used_free ≡ false)
    × ((run joining child_first created).owner ≡ returned ok
        → ((run joining child_first created).child ≡ ended)
          × ((run joining child_first created).got ≡ some 42)
          × ((run joining child_first created).frees ≡ 1)
          × ((run joining child_first created).closes ≡ 0))
join_delivers_example = join_delivers joining child_first refl

child_first_joined : (run joining child_first created).owner ≡ returned ok
unfolding run step
child_first_joined = refl

run-ccthread_detach_example :
    let cf = config linux detach 5 true true 8 (filled 0) in
    Agrees 8
      (run cf eight_turns (seen finish 8 (filled 0)))
      (ccthread_detach linux 8 (alone (λ n c. 0)) (filled 0))
run-ccthread_detach_example =
    run-ccthread_detach linux 5 8 true finish (λ n c. 0) (filled 0) (λ e. omega arith)

run-ccthread_join_example :
    let s =
      run (config linux join 5 true true 8 (filled 0)) eight_turns (seen ended 8 (filled 0)) in
    let ((code, r), w) = ccthread_join linux 8 true (alone (λ n c. 0)) (filled 0) in
    Agrees 8 s (code, w) × (s.got ≡ r)
run-ccthread_join_example =
    run-ccthread_join linux 5 8 true finish (λ n c. 0) (filled 0) (λ e. omega arith)
