-- ===== src/Types.antt =====
-- The types that the headers share: `ccmutex_state_t` and `ccrecursion_t` of ccmutex.h (ccsem.h
-- declares the first once more), the return codes of ccthread.h, and the platforms that the
-- conditionals of the sources tell apart.
use ccthread.Prelude.{Bool, true, false}

-- `ccmutex_state_t`
pub data Status : Type 0 where
  success error timeout : Status

abbrev pub is_success : Status → Bool
is_success success = true
is_success _ = false

-- `ccrecursion_t`
pub data RecursionType : Type 0 where
  plain recursive : RecursionType

-- `type != CCRECURSION_PLAIN`
abbrev pub is_recursive : RecursionType → Bool
is_recursive plain = false
is_recursive recursive = true

-- The values that the calls of ccthread.h return: `CCTHREAD_SUCCESS` and `CCTHREAD_ERROR`.
pub data Code : Type 0 where
  ok failed : Code

abbrev pub is_ok : Code → Bool
is_ok ok = true
is_ok failed = false

-- Windows under MSVC and under MinGW, and the POSIX systems that the sources name; `bsd` is FreeBSD.
pub data Platform : Type 0 where
  msvc mingw apple linux bsd netbsd solaris posix : Platform

-- `CCTHREAD_PLATFORM_WINDOWS`
abbrev pub is_windows : Platform → Bool
is_windows msvc = true
is_windows mingw = true
is_windows _ = false

-- `__APPLE__`
abbrev pub is_apple : Platform → Bool
is_apple apple = true
is_apple _ = false
