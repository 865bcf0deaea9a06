-- ===== src/Base/Words.antt =====
-- Casts to the fixed widths of C, and a truth value as the `int` that it is in C.
use Prim.Native.Nat.{ℕ, ◌-◌, ◌*◌, ◌%◌, ◌^◌}
use mathlib.Core.Bool.{Bool, true, false}

abbrev pub u8 : ℕ → ℕ
u8 x = x % 2 ^ 8

abbrev pub u32 : ℕ → ℕ
u32 x = x % 2 ^ 32

abbrev pub u64 : ℕ → ℕ
u64 x = x % 2 ^ 64

abbrev pub u128 : ℕ → ℕ
u128 x = x % 2 ^ 128

-- `~x` at a `uint64_t`.
abbrev pub not64 : ℕ → ℕ
not64 x = 2 ^ 64 - 1 - x

-- `(uint64_t)x << k`
abbrev pub shl64 : ℕ → ℕ → ℕ
shl64 x k = u64 (x * 2 ^ k)

abbrev pub flag : Bool → ℕ
flag true = 1
flag false = 0
