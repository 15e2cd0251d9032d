-- ===== src/Thread/Tests.antt =====
-- The theorems on threads at inputs that meet their hypotheses.
use ccthread.Prelude.{ℕ, ◌≡◌, refl, some, List, [], ◌∷◌, ◌++◌, arith, length, ◌==◌, if◌then◌else◌}
use ccthread.Types.{linux, msvc, Code}
use ccthread.Atomic.{gcc}
use ccthread.External.{
  World, held, calloc, pthread_create, detached, field_index, exit_thread, free, call,
}
use ccthread.External.Samples.{quiet, allocating, filled}
use ccthread.Thread.Create.{ccthread_create}
use ccthread.Thread.Name.{truncate, Statics, set_name_posix, set_name_windows}
use ccthread.Thread.Finish.{ccthread_exit, wrapper_end}
use ccthread.Thread.FinishLaws.{exit-wrapper}
use ccthread.Thread.Laws.{parts, held-ccthread_create}
use ccthread.Thread.NameCalls.{PassesCut, set_name-PassesCut}

held-ccthread_create_example :
    (held (ccthread_create linux 3 4 allocating (filled 0)).1.history
      ≡ parts linux (λ p f. 0) 8 ++ [])
    × (◌≡◌ {A = ℕ} 3 0
        → (◌≡◌ {A = ℕ} 8 0) × ((ccthread_create linux 3 4 allocating (filled 0)).1 ≡ filled 0))
unfolding ccthread_create
held-ccthread_create_example = held-ccthread_create linux 3 4 allocating (filled 0)

-- A joinable thread at 8.
abbrev joinable : World
joinable = record { time = 0; heap = λ p f. 0; history = (pthread_create 8, 0) ∷ (calloc, 8) ∷ [] }

abbrev long_name : List ℕ
long_name =
    b'w' ∷ b'o' ∷ b'r' ∷ b'k' ∷ b'e' ∷ b'r' ∷ b'-' ∷ b't' ∷ b'h' ∷ b'r' ∷ b'e' ∷ b'a' ∷ b'd' ∷ b'-'
    ∷ b'0' ∷ b'0' ∷ b'1' ∷ []

long_name_cut : length (truncate long_name) ≡ 15
unfolding truncate
long_name_cut = refl

abbrev looked_up : Statics
looked_up = record { once_desc = 2; set_thread_desc = 1 }

set_name-PassesCut_example :
    (let (code, w) = set_name_posix linux 8 (some long_name) allocating (filled 5) in
      PassesCut long_name code (filled 5) w)
    × ((code : Code) × (w : World) × (set_name_windows 1 gcc linux looked_up 8
            (some long_name)
            allocating
            (filled 5)
          ≡ some (code, looked_up, w))
        × PassesCut long_name code (filled 5) w)
set_name-PassesCut_example =
    set_name-PassesCut linux gcc 0 8 looked_up long_name allocating (filled 5)
      (λ e. ground (arith, e)) refl

-- A detached thread at 8 that exits on Windows: its struct is freed.
abbrev detached_thread : World
detached_thread = record {
  time = 0;
  heap = λ p f. if field_index f == field_index detached then 1 else 0;
  history = (calloc, 8) ∷ [];
}

detached_exit :
    (ccthread_exit msvc 8 3 quiet detached_thread).1.history
    ≡ (exit_thread 0, 0) ∷ (free 8, 0) ∷ (calloc, 8) ∷ []
unfolding ccthread_exit
detached_exit = refl

exit-wrapper_example :
    (ccthread_exit msvc 8 3 quiet detached_thread).1
    ≡ (call (exit_thread 0) quiet (wrapper_end msvc 8 3 quiet detached_thread).1).1
exit-wrapper_example = exit-wrapper msvc 8 3 quiet detached_thread
