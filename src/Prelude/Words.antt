-- ===== src/Prelude/Words.antt =====
-- Machine words: the increments of the counters keep their wrap-around.
use Prim.Native.Nat.{ℕ, ◌+◌, ◌%◌, ◌<◌}
use mathlib.Core.Path.{◌≡◌}
use mathlib.Core.Logic.{◌≢◌}
use native.Mathlib.Omega.{arith}

abbrev pub u64_mod : ℕ
u64_mod = 18446744073709551616

abbrev pub u32_mod : ℕ
u32_mod = 4294967296

-- `++x` on a std::uint64_t.
unfoldable pub next64 : ℕ → ℕ
next64 n = (n + 1) % u64_mod

-- `++x` on a std::uint32_t.
unfoldable pub next32 : ℕ → ℕ
next32 n = (n + 1) % u32_mod

pub next64-ne : (n : ℕ) → next64 n ≢ n
unfolding next64
next64-ne n = omega arith

pub next64-lt : (n : ℕ) → next64 n < u64_mod
unfolding next64
next64-lt n = omega arith

pub next64-eq : (n : ℕ) → n + 1 < u64_mod → next64 n ≡ n + 1
unfolding next64
next64-eq n h = omega arith

pub next32-ne : (n : ℕ) → next32 n ≢ n
unfolding next32
next32-ne n = omega arith

pub next64-next64-ne : (n : ℕ) → next64 (next64 n) ≢ n
unfolding next64
next64-next64-ne n = omega arith
