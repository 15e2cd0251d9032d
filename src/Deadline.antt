-- ===== src/Deadline.antt =====
-- The time arithmetic of the sources: the absolute deadline of ccsem_timedwait and
-- cccondvar_timedwait, and the relative times of ccthread_sleep and of macOS.
use ccthread.Prelude.{ℕ, ◌+◌, ◌-◌, ◌*◌, ◌/◌, ◌%◌, ◌^◌, ◌≤◌, ◌<◌, ◌≡◌, arith, leb, if◌then◌else◌}
use ccthread.External.{Timespec}

-- `ms / 1000` and `(ms % 1000) * 1000000`
abbrev pub of_ms : ℕ → Timespec
of_ms ms = record { tv_sec = ms / 1000; tv_nsec = ms % 1000 * 1000000 }

-- The clock's time `now` plus `ms`, with the carry of nanoseconds into seconds.
unfoldable pub deadline : Timespec → ℕ → Timespec
deadline now ms =
    let sec = now.tv_sec + ms / 1000 in
    let nsec = now.tv_nsec + ms % 1000 * 1000000 in
    if leb 1000000000 nsec
    then record { tv_sec = sec + 1; tv_nsec = nsec - 1000000000 }
    else record { tv_sec = sec; tv_nsec = nsec }

abbrev pub nanoseconds : Timespec → ℕ
nanoseconds t = t.tv_sec * 1000000000 + t.tv_nsec

abbrev pub IsNormal : Timespec → Type 0
IsNormal t = t.tv_nsec < 1000000000

-- From a time of the clock in its normal form, the deadline is in normal form and lies exactly `ms`
-- milliseconds later.
pub deadline_exact :
    (now : Timespec) (ms : ℕ)
    → IsNormal now
    → IsNormal (deadline now ms) × (nanoseconds (deadline now ms) ≡ nanoseconds now + ms * 1000000)
unfolding deadline
deadline_exact now ms h = ground arith

-- The relative time of `ms` milliseconds is exact and in normal form, its nanoseconds fit a signed
-- 32-bit `long`, and the sum that `deadline` forms before its carry fits one too.
pub deadline_fits :
    (now : Timespec) (ms : ℕ)
    → IsNormal now
    → IsNormal (of_ms ms)
      × (nanoseconds (of_ms ms) ≡ ms * 1000000)
      × (now.tv_nsec + (of_ms ms).tv_nsec < 2 ^ 31)
      × ((deadline now ms).tv_sec ≤ now.tv_sec + ms / 1000 + 1)
unfolding deadline
deadline_fits now ms h = ground arith
