-- ===== src/Scalar/Wide/Mul.antt =====
-- Multiplication and squaring of scalars, as arithmetic modulo the group order.
use zipologger.Base.{ℕ, ◌+◌, ◌*◌, ◌%◌, ◌^◌, ◌≡◌, ◌∙◌, ap, arith}
use zipologger.Scalar.{Scalar}
use zipologger.Scalar.Value.{order, value, IsLimbs, IsReduced, value_injective}
use zipologger.Scalar.Wide.{extract_fast, mul_512, sqr_512, mul, sqr}
use zipologger.Scalar.Wide.Carry.{product_bound}
use zipologger.Scalar.Wide.Holds.{
  word-Holds, muladd-Holds, muladd2-Holds, muladd_fast-Holds, extract-Holds, extract_fast-Holds,
  lowest,
}
use zipologger.Scalar.Wide.Product.{
  wide_value, IsWide, columns, limbs-lt, value_mul_bound, mul_512_lem,
}
use zipologger.Scalar.Wide.Remainder.{reduce_512_lem}

-- `secp256k1_scalar_sqr_512`: the eight words are the whole square.
pub sqr_512_lem :
    (a : Scalar) → IsLimbs a → IsWide (sqr_512 a) × (wide_value (sqr_512 a) ≡ value a * value a)
unfolding sqr_512 extract_fast
sqr_512_lem a u =
    let m : ℕ = 2 ^ 32 in
    let p00 = product_bound a.d0 a.d0 u.b0 u.b0 in
    let h0 =
      muladd_fast-Holds (word-Holds 0 (omega arith)) a.d0 a.d0 u.b0 u.b0 (omega (arith, p00)) in
    let h1 =
      muladd2-Holds (extract_fast-Holds h0 (omega (arith, p00))) m a.d0 a.d1 u.b0 u.b1
        (omega arith) in
    let h02 = muladd2-Holds (extract-Holds h1 (omega arith)) m a.d0 a.d2 u.b0 u.b2 (omega arith) in
    let h2 = muladd-Holds h02 m a.d1 a.d1 u.b1 u.b1 (omega arith) in
    let h03 = muladd2-Holds (extract-Holds h2 (omega arith)) m a.d0 a.d3 u.b0 u.b3 (omega arith) in
    let h3 = muladd2-Holds h03 m a.d1 a.d2 u.b1 u.b2 (omega arith) in
    let h13 = muladd2-Holds (extract-Holds h3 (omega arith)) m a.d1 a.d3 u.b1 u.b3 (omega arith) in
    let h4 = muladd-Holds h13 m a.d2 a.d2 u.b2 u.b2 (omega arith) in
    let h5 = muladd2-Holds (extract-Holds h4 (omega arith)) m a.d2 a.d3 u.b2 u.b3 (omega arith) in
    let c =
      columns (a.d0 * a.d0) (2 * (a.d0 * a.d1)) (2 * (a.d0 * a.d2) + a.d1 * a.d1)
        (2 * (a.d0 * a.d3) + 2 * (a.d1 * a.d2)) (2 * (a.d1 * a.d3) + a.d2 * a.d2)
        (2 * (a.d2 * a.d3)) (a.d3 * a.d3) in
    let bound = value_mul_bound (value a) (value a) (limbs-lt a u) (limbs-lt a u) in
    let h6 =
      muladd_fast-Holds (extract-Holds h5 (omega arith)) a.d3 a.d3 u.b3 u.b3
        (omega (arith, c, bound)) in
    omega (arith, lowest h0, lowest h1, lowest h2, lowest h3, lowest h4, lowest h5, h6, c)

-- Of scalars of 64-bit limbs `secp256k1_scalar_mul` gives the product modulo the group
-- order, in the unique form.
pub mul_lem :
    (a b : Scalar)
    → IsLimbs a
    → IsLimbs b
    → IsReduced (mul a b) × (value (mul a b) ≡ value a * value b % order)
unfolding mul
mul_lem a b u v =
    let p = mul_512_lem a b u v in
    let r = reduce_512_lem (mul_512 a b) p.0 in (r.0, r.1 ∙ ap (λ (t : ℕ). t % order) p.1)

-- The dedicated squaring agrees with the multiplication of a scalar by itself, limb by limb.
pub sqr-eq-mul : (a : Scalar) → IsLimbs a → sqr a ≡ mul a a
unfolding sqr
sqr-eq-mul a u =
    let p = sqr_512_lem a u in
    let r = reduce_512_lem (sqr_512 a) p.0 in
    let q = mul_lem a a u u in
    value_injective (sqr a) (mul a a) r.0.limbs q.0.limbs (omega (arith, r.1, p.1, q.1))
