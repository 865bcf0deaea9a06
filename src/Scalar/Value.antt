-- ===== src/Scalar/Value.antt =====
-- The number that a scalar stands for, and what the tests on scalars say of it.
use zipologger.Base.{ℕ, ◌+◌, ◌*◌, ◌^◌, ◌≤◌, ◌<◌, ◌≡◌, ◌↔◌, true, false, arith, bit_or, bit_xor}
use zipologger.Base.Bits.{bit_or-eq-zero, bit_xor-eq-zero}
use zipologger.Scalar.{Scalar, check_overflow, is_zero, is_one, eq, is_high}

-- The group order n.
abbrev pub order : ℕ
order = 0xFFFFFFFFFFFFFFFFFFFFFFFFFFFFFFFEBAAEDCE6AF48A03BBFD25E8CD0364141

abbrev pub value : Scalar → ℕ
value a = a.d0 + a.d1 * 2 ^ 64 + a.d2 * 2 ^ 128 + a.d3 * 2 ^ 192

-- Each limb is a `uint64_t`.
pub record IsLimbs (a : Scalar) : Type 0 where
  pub b0 : a.d0 < 2 ^ 64
  pub b1 : a.d1 < 2 ^ 64
  pub b2 : a.d2 < 2 ^ 64
  pub b3 : a.d3 < 2 ^ 64

-- A scalar in its unique form, below the order.
pub record IsReduced (a : Scalar) : Type 0 where
  pub limbs : IsLimbs a
  pub below : value a < order

-- `secp256k1_scalar_check_overflow` decides whether the number reaches the order.
pub check_overflow_iff : (a : Scalar) → IsLimbs a → (check_overflow a ≡ true) ↔ (order ≤ value a)
unfolding check_overflow
check_overflow_iff a v = ground arith

-- `secp256k1_scalar_is_high` decides whether the number is above half of the order.
pub is_high_iff : (a : Scalar) → IsLimbs a → (is_high a ≡ true) ↔ (order < 2 * value a)
unfolding is_high
is_high_iff a v = ground arith

pub is_high-false : (a : Scalar) → IsLimbs a → is_high a ≡ false → 2 * value a ≤ order
unfolding is_high
is_high-false a v e = ground arith

pub is_zero_iff : (a : Scalar) → (is_zero a ≡ true) ↔ (value a ≡ 0)
unfolding is_zero
is_zero_iff a = ground (
  arith,
  bit_or-eq-zero a.d0 a.d1,
  bit_or-eq-zero (bit_or a.d0 a.d1) a.d2,
  bit_or-eq-zero (bit_or (bit_or a.d0 a.d1) a.d2) a.d3,
)

pub is_zero-false : (a : Scalar) → is_zero a ≡ false → 1 ≤ value a
is_zero-false a e = let z = is_zero_iff a in ground arith

-- Two scalars of 64-bit limbs that stand for one number are the same.
pub value_injective : (a b : Scalar) → IsLimbs a → IsLimbs b → value a ≡ value b → a ≡ b
value_injective a b u v e = ground arith

pub is_one_iff : (a : Scalar) → IsLimbs a → (is_one a ≡ true) ↔ (value a ≡ 1)
unfolding is_one
is_one_iff a v = ground (
  arith,
  bit_xor-eq-zero a.d0 1,
  bit_or-eq-zero (bit_xor a.d0 1) a.d1,
  bit_or-eq-zero (bit_or (bit_xor a.d0 1) a.d1) a.d2,
  bit_or-eq-zero (bit_or (bit_or (bit_xor a.d0 1) a.d1) a.d2) a.d3,
)

-- `secp256k1_scalar_eq` decides equality.
pub eq_iff : (a b : Scalar) → (eq a b ≡ true) ↔ (a ≡ b)
unfolding eq
eq_iff a b = ground (
  arith,
  bit_xor-eq-zero a.d0 b.d0,
  bit_xor-eq-zero a.d1 b.d1,
  bit_xor-eq-zero a.d2 b.d2,
  bit_xor-eq-zero a.d3 b.d3,
  bit_or-eq-zero (bit_xor a.d0 b.d0) (bit_xor a.d1 b.d1),
  bit_or-eq-zero (bit_or (bit_xor a.d0 b.d0) (bit_xor a.d1 b.d1)) (bit_xor a.d2 b.d2),
  bit_or-eq-zero (bit_or (bit_or (bit_xor a.d0 b.d0) (bit_xor a.d1 b.d1)) (bit_xor a.d2 b.d2))
      (bit_xor a.d3 b.d3),
)
