-- ===== src/Common/Words.antt =====
-- Machine words as native numbers. The release profile compiles integer arithmetic without
-- overflow checks, so `+`, `-` and `*` wrap around; a 64-bit target is taken for `usize`.
use Prim.Native.Nat.{ℕ, ◌+◌, ◌-◌, ◌*◌, ◌%◌, ◌^◌, ◌<◌}
use andri.Common.Tests.{ltb, if◌then◌else◌}

abbrev pub u64_mod : ℕ
u64_mod = 2 ^ 64

abbrev pub u64 : ℕ → ℕ
u64 n = n % 2 ^ 64

abbrev pub u32 : ℕ → ℕ
u32 n = n % 2 ^ 32

-- `a + b`, `a - b` and `a * b` on u64, and on the bit patterns of i64.
abbrev pub add64 : ℕ → ℕ → ℕ
add64 a b = (a + b) % 2 ^ 64

abbrev pub sub64 : ℕ → ℕ → ℕ
sub64 a b = (a + 2 ^ 64 - b) % 2 ^ 64

abbrev pub mul64 : ℕ → ℕ → ℕ
mul64 a b = (a * b) % 2 ^ 64

-- `i64::abs` on a bit pattern: the pattern of the least integer is kept.
abbrev pub abs64 : ℕ → ℕ
abs64 w = if ltb w (2 ^ 63) then w else (2 ^ 64 - w) % 2 ^ 64

abbrev pub saturating_sub : ℕ → ℕ → ℕ
saturating_sub a b = a - b

abbrev pub IsU64 : ℕ → Type 0
IsU64 n = n < 2 ^ 64

abbrev pub IsByte : ℕ → Type 0
IsByte b = b < 256
