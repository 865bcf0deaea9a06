-- ===== src/Scalar/Sum.antt =====
-- Addition, negation and halving shifts of scalars, as arithmetic modulo the group order.
use zipologger.Base.{ℕ, ◌+◌, ◌-◌, ◌*◌, ◌/◌, ◌%◌, ◌^◌, ◌≤◌, ◌<◌, ◌≡◌, ◌≢◌, Bool, true, false, leb}
use zipologger.Base.{Bool-cases, inl, inr, if◌then◌else◌, arith, flag}
use zipologger.Scalar.{
  Scalar, check_overflow, reduce, add_limbs, add, is_zero, negate, cond_negate, is_high, split_128,
}
use zipologger.Scalar.Value.{
  order, value, IsLimbs, IsReduced, check_overflow_iff, is_zero_iff, is_high_iff, value_injective,
}

-- `secp256k1_scalar_reduce` adds `overflow` times 2^256 - n, modulo 2^256.
pub value-reduce :
    (r : Scalar) (o : ℕ)
    → IsLimbs r
    → o ≤ 1
    → value (reduce r o) ≡ (value r + o * (2 ^ 256 - order)) % 2 ^ 256
unfolding reduce
value-reduce r o v h = omega arith

pub reduce-IsLimbs : (r : Scalar) (o : ℕ) → IsLimbs (reduce r o)
unfolding reduce
reduce-IsLimbs r o = omega arith

-- Of a number below 2^256 one conditional subtraction of n leaves the remainder.
pub reduce-mod :
    (r : Scalar)
    → IsLimbs r
    → IsReduced (reduce r (flag (check_overflow r)))
      × (value (reduce r (flag (check_overflow r))) ≡ value r % order)
reduce-mod r v = elim (Bool-cases (check_overflow r)) [
  | inl e ↦ rw e (
      let ge : order ≤ value r = (check_overflow_iff r v).0 e in
      let s = value-reduce r 1 v (omega arith) in
      (record { limbs = reduce-IsLimbs r 1; below = omega (arith, s) }, omega (arith, s)))
  | inr e ↦ rw e (
      let s = value-reduce r 0 v (omega arith) in
      let lt : value r < order = ground (arith, (check_overflow_iff r v).1) in
      (record { limbs = reduce-IsLimbs r 0; below = omega (arith, s) }, omega (arith, s)))
]

add_limbs-value :
    (a b : Scalar)
    → IsLimbs a
    → IsLimbs b
    → let (r, t) = add_limbs a b in IsLimbs r × (value r + t * 2 ^ 256 ≡ value a + value b)
unfolding add_limbs
add_limbs-value a b u v = omega arith

-- The last step of an addition: `r` and the carry `t` stand for the sum `s`.
pub fold_carry :
    (r : Scalar) (t s : ℕ)
    → IsLimbs r
    → value r + t * 2 ^ 256 ≡ s
    → s < 2 * order
    → let o = t + flag (check_overflow r) in
      IsReduced (reduce r o) × (value (reduce r o) ≡ s % order) × (o ≡ flag (leb order s))
fold_carry r t s v e h = elim (Bool-cases (check_overflow r)) [
  | inl c ↦ rw c (
      let ge : order ≤ value r = (check_overflow_iff r v).0 c in
      let z : t ≡ 0 = omega arith in
      let w = value-reduce r (t + 1) v (omega arith) in
      (
        record { limbs = reduce-IsLimbs r (t + 1); below = omega (arith, w) },
        omega (arith, w),
        ground arith,
      ))
  | inr c ↦ rw c (
      let lt : value r < order = ground (arith, (check_overflow_iff r v).1) in
      let w = value-reduce r (t + 0) v (omega arith) in
      (
        record { limbs = reduce-IsLimbs r (t + 0); below = omega (arith, w) },
        omega (arith, w),
        ground arith,
      ))
]

-- For scalars below the order, `secp256k1_scalar_add` gives the sum modulo the order, in the unique
-- form, and returns 1 exactly when the plain sum reaches the order.
pub add_lem :
    (a b : Scalar)
    → IsReduced a
    → IsReduced b
    → IsReduced (add a b).0
      × (value (add a b).0 ≡ (value a + value b) % order)
      × ((add a b).1 ≡ flag (leb order (value a + value b)))
unfolding add
add_lem a b u v =
    let l = add_limbs-value a b u.limbs v.limbs in
    fold_carry (add_limbs a b).0 (add_limbs a b).1 (value a + value b) l.0 l.1
      (omega (arith, u.below, v.below))

-- Of a scalar below the order `secp256k1_scalar_negate` gives the inverse for addition: 0 for 0, and n - a otherwise.
pub negate_lem :
    (a : Scalar)
    → IsReduced a
    → IsReduced (negate a) × (value (negate a) ≡ (order - value a) % order)
unfolding negate
negate_lem a u = elim (Bool-cases (is_zero a)) [
  | inl c ↦ let z : value a ≡ 0 = (is_zero_iff a).0 c in rw c (omega arith)
  | inr c ↦ let z : value a ≢ 0 = ground (arith, is_zero_iff a) in rw c (omega arith)
]

-- Of a nonzero scalar `a` below the order exactly one of `a` and `-a` is high.
pub is_high-negate :
    (a : Scalar)
    → IsReduced a
    → value a ≢ 0
    → is_high (negate a) ≡ (if is_high a then false else true)
is_high-negate a u h =
    let w = negate_lem a u in
    ground (arith, is_high_iff a u.limbs, is_high_iff (negate a) w.0.limbs, w)

-- Negating twice gives the scalar back.
pub negate-negate : (a : Scalar) → IsReduced a → negate (negate a) ≡ a
negate-negate a u =
    let w = negate_lem a u in
    let w' = negate_lem (negate a) w.0 in
    value_injective (negate (negate a)) a w'.0.limbs u.limbs (omega (arith, w, w'))

-- `secp256k1_scalar_cond_negate` negates under its flag, and otherwise changes nothing.
pub cond_negate_lem :
    (a : Scalar) (f : Bool) → IsReduced a → cond_negate a f ≡ (if f then negate a else a, f)
unfolding cond_negate negate
cond_negate_lem a true u = ground arith
cond_negate_lem a false u = elim (Bool-cases (is_zero a)) [
  | inl c ↦ let z : value a ≡ 0 = (is_zero_iff a).0 c in ground arith
  | inr c ↦ ground arith
]

-- `secp256k1_scalar_split_128` gives the lower and the upper half of a number.
pub split_128_lem :
    (a : Scalar)
    → IsLimbs a
    → let (low, high) = split_128 a in
      (value low ≡ value a % 2 ^ 128) × (value high ≡ value a / 2 ^ 128)
unfolding split_128
split_128_lem a v = omega arith
