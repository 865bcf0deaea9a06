-- ===== src/Scalar/Wide/Remainder.antt =====
-- The reduction of a 512-bit number leaves its remainder by the group order.
use zipologger.Base.{ℕ, ◌+◌, ◌-◌, ◌*◌, ◌%◌, ◌^◌, ◌≤◌, ◌<◌, ◌≡◌, refl, arith, u32, flag}
use zipologger.Scalar.{n_c_0, n_c_1, check_overflow}
use zipologger.Scalar.Value.{order, value, IsLimbs, IsReduced}
use zipologger.Scalar.Sum.{fold_carry}
use zipologger.Scalar.Wide.{
  extract_fast, Wide, Bits385, Bits258, reduce_385, reduce_258, reduce_256, reduce_512,
}
use zipologger.Scalar.Wide.Holds.{
  word-Holds, muladd-Holds, muladd_fast-Holds, sumadd-Holds, sumadd_fast-Holds, extract-Holds,
  extract_fast-Holds, lowest,
}
use zipologger.Scalar.Wide.Product.{wide_value, IsWide}

-- The two halves of m, and the bounds that its computation gives.
abbrev low385 : Bits385 → ℕ
low385 s = s.m0 + s.m1 * 2 ^ 64 + s.m2 * 2 ^ 128 + s.m3 * 2 ^ 192

abbrev high385 : Bits385 → ℕ
high385 s = s.m4 + s.m5 * 2 ^ 64 + s.m6 * 2 ^ 128

record Is385 (s : Bits385) : Type 0 where
  b0 : s.m0 < 2 ^ 64
  b1 : s.m1 < 2 ^ 64
  b2 : s.m2 < 2 ^ 64
  b3 : s.m3 < 2 ^ 64
  b4 : s.m4 < 2 ^ 64
  b5 : s.m5 < 2 ^ 64
  b6 : s.m6 ≤ 1

-- The upper half of a wide number.
abbrev upper : Wide → ℕ
upper l = l.l4 + l.l5 * 2 ^ 64 + l.l6 * 2 ^ 128 + l.l7 * 2 ^ 192

reduce_385_lem :
    (l : Wide)
    → IsWide l
    → Is385 (reduce_385 l)
      × (low385 (reduce_385 l) + high385 (reduce_385 l) * 2 ^ 256 + upper l * order ≡ wide_value l)
unfolding reduce_385 extract_fast
reduce_385_lem l w =
    let m : ℕ = 2 ^ 64 in
    let h0 = muladd_fast-Holds (word-Holds l.l0 w.b0) l.l4 n_c_0 w.b4 (omega arith) (omega arith) in
    let h1a = sumadd_fast-Holds (extract_fast-Holds h0 (omega arith)) l.l1 w.b1 (omega arith) in
    let h1b = muladd-Holds h1a m l.l5 n_c_0 w.b5 (omega arith) (omega arith) in
    let h1 = muladd-Holds h1b m l.l4 n_c_1 w.b4 (omega arith) (omega arith) in
    let h2a = sumadd-Holds (extract-Holds h1 (omega arith)) m l.l2 w.b2 (omega arith) in
    let h2b = muladd-Holds h2a m l.l6 n_c_0 w.b6 (omega arith) (omega arith) in
    let h2c = muladd-Holds h2b m l.l5 n_c_1 w.b5 (omega arith) (omega arith) in
    let h2 = sumadd-Holds h2c m l.l4 w.b4 (omega arith) in
    let h3a = sumadd-Holds (extract-Holds h2 (omega arith)) m l.l3 w.b3 (omega arith) in
    let h3b = muladd-Holds h3a m l.l7 n_c_0 w.b7 (omega arith) (omega arith) in
    let h3c = muladd-Holds h3b m l.l6 n_c_1 w.b6 (omega arith) (omega arith) in
    let h3 = sumadd-Holds h3c m l.l5 w.b5 (omega arith) in
    let h4a =
      muladd-Holds (extract-Holds h3 (omega arith)) m l.l7 n_c_1 w.b7 (omega arith) (omega arith) in
    let h4 = sumadd-Holds h4a m l.l6 w.b6 (omega arith) in
    let h5 = sumadd_fast-Holds (extract-Holds h4 (omega arith)) l.l7 w.b7 (omega arith) in
    omega (arith, lowest h0, lowest h1, lowest h2, lowest h3, lowest h4, lowest h5, h5)

abbrev low258 : Bits258 → ℕ
low258 s = s.p0 + s.p1 * 2 ^ 64 + s.p2 * 2 ^ 128 + s.p3 * 2 ^ 192

record Is258 (s : Bits258) : Type 0 where
  b0 : s.p0 < 2 ^ 64
  b1 : s.p1 < 2 ^ 64
  b2 : s.p2 < 2 ^ 64
  b3 : s.p3 < 2 ^ 64
  b4 : s.p4 ≤ 2

reduce_258_lem :
    (s : Bits385)
    → Is385 s
    → high385 s ≤ 2 ^ 256 - order
    → Is258 (reduce_258 s)
      × (low258 (reduce_258 s) + (reduce_258 s).p4 * 2 ^ 256 + high385 s * order
          ≡ low385 s + high385 s * 2 ^ 256)
unfolding reduce_258 extract_fast
reduce_258_lem s w hb =
    let m : ℕ = 2 ^ 64 in
    let h0 = muladd_fast-Holds (word-Holds s.m0 w.b0) s.m4 n_c_0 w.b4 (omega arith) (omega arith) in
    let h1a = sumadd_fast-Holds (extract_fast-Holds h0 (omega arith)) s.m1 w.b1 (omega arith) in
    let h1b = muladd-Holds h1a m s.m5 n_c_0 w.b5 (omega arith) (omega arith) in
    let h1 = muladd-Holds h1b m s.m4 n_c_1 w.b4 (omega arith) (omega arith) in
    let h2a = sumadd-Holds (extract-Holds h1 (omega arith)) m s.m2 w.b2 (omega arith) in
    let h2b = muladd-Holds h2a m s.m6 n_c_0 (omega arith) (omega arith) (omega arith) in
    let h2c = muladd-Holds h2b m s.m5 n_c_1 w.b5 (omega arith) (omega arith) in
    let h2 = sumadd-Holds h2c m s.m4 w.b4 (omega arith) in
    let h3a = sumadd_fast-Holds (extract-Holds h2 (omega arith)) s.m3 w.b3 (omega arith) in
    let h3b = muladd_fast-Holds h3a s.m6 n_c_1 (omega arith) (omega arith) (omega arith) in
    let h3 = sumadd_fast-Holds h3b s.m5 w.b5 (omega arith) in
    omega (arith, lowest h0, lowest h1, lowest h2, lowest h3, h3)

reduce_256_lem :
    (s : Bits258)
    → Is258 s
    → IsLimbs (reduce_256 s).0
      × (value (reduce_256 s).0 + (reduce_256 s).1 * 2 ^ 256 + s.p4 * order
          ≡ low258 s + s.p4 * 2 ^ 256)
unfolding reduce_256
reduce_256_lem s w = omega arith

-- `secp256k1_scalar_reduce_512`: the remainder of a 512-bit number by the group order, in the
-- unique form.
pub reduce_512_lem :
    (l : Wide) → IsWide l → IsReduced (reduce_512 l) × (value (reduce_512 l) ≡ wide_value l % order)
unfolding reduce_512
reduce_512_lem l w =
    let f = reduce_385_lem l w in
    let g = reduce_258_lem (reduce_385 l) f.0 (omega (arith, f)) in
    let h = reduce_256_lem (reduce_258 (reduce_385 l)) g.0 in
    let c = reduce_256 (reduce_258 (reduce_385 l)) in
    let k = fold_carry c.0 c.1 (value c.0 + c.1 * 2 ^ 256) h.0 refl (omega (arith, g, h)) in
    let small : u32 (c.1 + flag (check_overflow c.0)) ≡ c.1 + flag (check_overflow c.0) =
      ground (arith, k.2) in
    rw small (k.0, omega (arith, f, g, h, k.1))
