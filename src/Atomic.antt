-- ===== src/Atomic.antt =====
-- ccatomic.h: the macros on one shared word, for each compiler family that the header tells apart.
use ccthread.Prelude.{ℕ}

-- The compiler that the header's conditionals select. `gcc` stands for GCC and Clang.
pub data Toolchain : Type 0 where
  gcc gcc_sync msvc xlc_or_sunpro unknown : Toolchain

-- `ccatomic_store_release(p, v)`: the new contents of the word.
abbrev pub store_release : Toolchain → ℕ → ℕ → ℕ
store_release tc v old = v

-- `ccatomic_load_acquire(p)`: the value read.
abbrev pub load_acquire : Toolchain → ℕ → ℕ
load_acquire tc old = old

-- `ccatomic_exchange_acquire(p, v)`: the value of the expression, and the new contents. The
-- builtins return the old contents; the last branch of the header is the assignment `*(p) = (v)`,
-- whose value is `v`.
unfoldable pub exchange_acquire : Toolchain → ℕ → ℕ → ℕ × ℕ
exchange_acquire unknown v old = (v, v)
exchange_acquire _ v old = (old, v)
