-- ===== src/Scalar/Wide/Product.antt =====
-- The 512-bit products are the products of the numbers.
use zipologger.Base.{ℕ, ◌+◌, ◌*◌, ◌/◌, ◌%◌, ◌^◌, ◌<◌, ◌≡◌, arith}
use zipologger.Scalar.{Scalar}
use zipologger.Scalar.Value.{value, IsLimbs}
use zipologger.Scalar.Wide.{extract_fast, Wide, mul_512}
use zipologger.Scalar.Wide.Carry.{product_bound}
use zipologger.Scalar.Wide.Holds.{
  word-Holds, muladd-Holds, muladd_fast-Holds, extract-Holds, extract_fast-Holds, lowest,
}

abbrev pub wide_value : Wide → ℕ
wide_value l =
    l.l0
    + l.l1 * 2 ^ 64
    + l.l2 * 2 ^ 128
    + l.l3 * 2 ^ 192
    + l.l4 * 2 ^ 256
    + l.l5 * 2 ^ 320
    + l.l6 * 2 ^ 384
    + l.l7 * 2 ^ 448

pub record IsWide (l : Wide) : Type 0 where
  pub b0 : l.l0 < 2 ^ 64
  pub b1 : l.l1 < 2 ^ 64
  pub b2 : l.l2 < 2 ^ 64
  pub b3 : l.l3 < 2 ^ 64
  pub b4 : l.l4 < 2 ^ 64
  pub b5 : l.l5 < 2 ^ 64
  pub b6 : l.l6 < 2 ^ 64
  pub b7 : l.l7 < 2 ^ 64

pub limbs-lt : (a : Scalar) → IsLimbs a → value a < 2 ^ 256
limbs-lt a u = omega arith

pub value_mul_bound : (x y : ℕ) → x < 2 ^ 256 → y < 2 ^ 256 → x * y < 2 ^ 512
value_mul_bound x y p q = grind arith

-- The running sum of the columns `s0` to `s6`, each 64 bits above the one before: what is left of
-- it when column `k` has been added.
abbrev pub rest : ℕ → ℕ → ℕ
rest r s = r / 2 ^ 64 + s

pub columns :
    (s0 s1 s2 s3 s4 s5 s6 : ℕ)
    → let r1 = rest s0 s1 in
      let r2 = rest r1 s2 in
      let r3 = rest r2 s3 in
      let r4 = rest r3 s4 in
      let r5 = rest r4 s5 in
      let r6 = rest r5 s6 in
      s0 % 2 ^ 64
        + r1 % 2 ^ 64 * 2 ^ 64
        + r2 % 2 ^ 64 * 2 ^ 128
        + r3 % 2 ^ 64 * 2 ^ 192
        + r4 % 2 ^ 64 * 2 ^ 256
        + r5 % 2 ^ 64 * 2 ^ 320
        + r6 * 2 ^ 384
      ≡ s0 + s1 * 2 ^ 64 + s2 * 2 ^ 128 + s3 * 2 ^ 192 + s4 * 2 ^ 256 + s5 * 2 ^ 320 + s6 * 2 ^ 384
columns s0 s1 s2 s3 s4 s5 s6 = omega arith

-- `secp256k1_scalar_mul_512`: for scalars of 64-bit limbs the eight words are the whole product.
pub mul_512_lem :
    (a b : Scalar)
    → IsLimbs a
    → IsLimbs b
    → IsWide (mul_512 a b) × (wide_value (mul_512 a b) ≡ value a * value b)
unfolding mul_512 extract_fast
mul_512_lem a b u v =
    let m : ℕ = 2 ^ 32 in
    let p00 = product_bound a.d0 b.d0 u.b0 v.b0 in
    let h0 =
      muladd_fast-Holds (word-Holds 0 (omega arith)) a.d0 b.d0 u.b0 v.b0 (omega (arith, p00)) in
    let h01 =
      muladd-Holds (extract_fast-Holds h0 (omega (arith, p00))) m a.d0 b.d1 u.b0 v.b1
        (omega arith) in
    let h1 = muladd-Holds h01 m a.d1 b.d0 u.b1 v.b0 (omega arith) in
    let h02 = muladd-Holds (extract-Holds h1 (omega arith)) m a.d0 b.d2 u.b0 v.b2 (omega arith) in
    let h11 = muladd-Holds h02 m a.d1 b.d1 u.b1 v.b1 (omega arith) in
    let h2 = muladd-Holds h11 m a.d2 b.d0 u.b2 v.b0 (omega arith) in
    let h03 = muladd-Holds (extract-Holds h2 (omega arith)) m a.d0 b.d3 u.b0 v.b3 (omega arith) in
    let h12 = muladd-Holds h03 m a.d1 b.d2 u.b1 v.b2 (omega arith) in
    let h21 = muladd-Holds h12 m a.d2 b.d1 u.b2 v.b1 (omega arith) in
    let h3 = muladd-Holds h21 m a.d3 b.d0 u.b3 v.b0 (omega arith) in
    let h13 = muladd-Holds (extract-Holds h3 (omega arith)) m a.d1 b.d3 u.b1 v.b3 (omega arith) in
    let h22 = muladd-Holds h13 m a.d2 b.d2 u.b2 v.b2 (omega arith) in
    let h4 = muladd-Holds h22 m a.d3 b.d1 u.b3 v.b1 (omega arith) in
    let h23 = muladd-Holds (extract-Holds h4 (omega arith)) m a.d2 b.d3 u.b2 v.b3 (omega arith) in
    let h5 = muladd-Holds h23 m a.d3 b.d2 u.b3 v.b2 (omega arith) in
    let c =
      columns (a.d0 * b.d0) (a.d0 * b.d1 + a.d1 * b.d0) (a.d0 * b.d2 + a.d1 * b.d1 + a.d2 * b.d0)
        (a.d0 * b.d3 + a.d1 * b.d2 + a.d2 * b.d1 + a.d3 * b.d0)
        (a.d1 * b.d3 + a.d2 * b.d2 + a.d3 * b.d1) (a.d2 * b.d3 + a.d3 * b.d2) (a.d3 * b.d3) in
    let bound = value_mul_bound (value a) (value b) (limbs-lt a u) (limbs-lt b v) in
    let h6 =
      muladd_fast-Holds (extract-Holds h5 (omega arith)) a.d3 b.d3 u.b3 v.b3
        (omega (arith, c, bound)) in
    omega (arith, lowest h0, lowest h1, lowest h2, lowest h3, lowest h4, lowest h5, h6, c)
