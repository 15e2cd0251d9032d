-- ===== src/Clock.antt =====
-- CCMUTEX_CLOCK_ID of ccsem.c and CCCONDVAR_CLOCK_ID of cccondvar.c: the clock of the deadlines.
pub mod Laws
pub mod Infinite
mod Tests
use ccthread.Prelude.{ℕ, ◌&&◌, List, [], ◌∷◌, ◌==◌, if◌then◌else◌}
use ccthread.External.{
  ClockId, monotonic, highres, realtime, Clocks, Call, condattr_init, condattr_setclock, cond_init,
  Prog,
}

abbrev pub clock_id : Clocks → ClockId
clock_id defined =
    if defined.has_monotonic then monotonic else if defined.has_highres then highres else realtime

-- The macro, as the code uses it.
abbrev pub own_clock : Prog ClockId
own_clock env w = (clock_id env.clocks, w)

-- The clock in the attribute object, by the documentation: CLOCK_REALTIME until a call of
-- `pthread_condattr_setclock` succeeds.
abbrev pub attr_clock : List (Call × ℕ) → ClockId
attr_clock [] = realtime
attr_clock ((condattr_init, _) ∷ h) = realtime
attr_clock ((condattr_setclock c, a) ∷ h) = if a == 0 then c else attr_clock h
attr_clock (_ ∷ h) = attr_clock h

-- The clock that the condition variable at `p` compares deadlines with: the one that the attribute
-- object had when `pthread_cond_init` made it.
abbrev pub cond_clock : ℕ → List (Call × ℕ) → ClockId
cond_clock p [] = realtime
cond_clock p ((cond_init q, a) ∷ h) = if (p == q) && (a == 0) then attr_clock h else cond_clock p h
cond_clock p (_ ∷ h) = cond_clock p h
