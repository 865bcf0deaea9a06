-- ===== src/Scalar/Wide.antt =====
-- libsecp256k1/src/scalar_4x64_impl.h: the multiply-and-add macros, the 512-bit products and the
-- reduction of a 512-bit number modulo the group order (the branches without inline assembly).
pub mod Carry
pub mod Holds
pub mod Product
pub mod Remainder
pub mod Mul
use zipologger.Base.{ℕ, ◌+◌, ◌*◌, ◌/◌, ◌%◌, ◌^◌, ◌&&◌, ltb, ◌==◌, u32, u64, u128, flag}
use zipologger.Scalar.{Scalar, n_c_0, n_c_1, check_overflow, reduce}

-- The accumulator (c0, c1, c2) of the macros.
pub record Column : Type 0 where
  pub c0 : ℕ
  pub c1 : ℕ
  pub c2 : ℕ

-- `m` is the modulus of the type of c2, which is `uint32_t` in the products and `uint64_t` in the
-- reduction.
module _ (m : ℕ) where
  pub muladd : ℕ → ℕ → Column → Column
  muladd a b c =
      let t = u128 (a * b) in
      let th = u64 (t / 2 ^ 64) in
      let tl = u64 t in
      let c0 = u64 (c.c0 + tl) in
      let th' = u64 (th + flag (ltb c0 tl)) in
      let c1 = u64 (c.c1 + th') in record { c0 = c0; c1 = c1; c2 = (c.c2 + flag (ltb c1 th')) % m }

  pub muladd2 : ℕ → ℕ → Column → Column
  muladd2 a b c =
      let t = u128 (a * b) in
      let th = u64 (t / 2 ^ 64) in
      let tl = u64 t in
      let th2 = u64 (th + th) in
      let c2 = (c.c2 + flag (ltb th2 th)) % m in
      let tl2 = u64 (tl + tl) in
      let th2' = u64 (th2 + flag (ltb tl2 tl)) in
      let c0 = u64 (c.c0 + tl2) in
      let th2'' = u64 (th2' + flag (ltb c0 tl2)) in
      let c2' = (c2 + flag (ltb c0 tl2 && th2'' == 0)) % m in
      let c1 = u64 (c.c1 + th2'') in
      record { c0 = c0; c1 = c1; c2 = (c2' + flag (ltb c1 th2'')) % m }

  pub sumadd : ℕ → Column → Column
  sumadd a c =
      let c0 = u64 (c.c0 + a) in
      let over = flag (ltb c0 a) in
      let c1 = u64 (c.c1 + over) in
      record { c0 = c0; c1 = c1; c2 = (c.c2 + flag (ltb c1 over)) % m }

pub muladd_fast : ℕ → ℕ → Column → Column
muladd_fast a b c =
    let t = u128 (a * b) in
    let th = u64 (t / 2 ^ 64) in
    let tl = u64 t in
    let c0 = u64 (c.c0 + tl) in
    let th' = u64 (th + flag (ltb c0 tl)) in record c { c0 = c0; c1 = u64 (c.c1 + th') }

pub sumadd_fast : ℕ → Column → Column
sumadd_fast a c = let c0 = u64 (c.c0 + a) in record c { c0 = c0; c1 = u64 (c.c1 + flag (ltb c0 a)) }

-- What `extract(n)` leaves; the number that it extracts is the c0 before it.
pub extract : Column → Column
extract c = record { c0 = c.c1; c1 = c.c2; c2 = 0 }

pub extract_fast : Column → Column
extract_fast c = record c { c0 = c.c1; c1 = 0 }

-- `uint64_t l[8]`
pub record Wide : Type 0 where
  pub l0 : ℕ
  pub l1 : ℕ
  pub l2 : ℕ
  pub l3 : ℕ
  pub l4 : ℕ
  pub l5 : ℕ
  pub l6 : ℕ
  pub l7 : ℕ

pub mul_512 : Scalar → Scalar → Wide
mul_512 a b =
    let m : ℕ = 2 ^ 32 in
    let k0 = muladd_fast a.d0 b.d0 (record { c0 = 0; c1 = 0; c2 = 0 }) in
    let k1 = muladd m a.d1 b.d0 (muladd m a.d0 b.d1 (extract_fast k0)) in
    let k2 = muladd m a.d2 b.d0 (muladd m a.d1 b.d1 (muladd m a.d0 b.d2 (extract k1))) in
    let k3 =
      muladd m a.d3 b.d0
        (muladd m a.d2 b.d1 (muladd m a.d1 b.d2 (muladd m a.d0 b.d3 (extract k2)))) in
    let k4 = muladd m a.d3 b.d1 (muladd m a.d2 b.d2 (muladd m a.d1 b.d3 (extract k3))) in
    let k5 = muladd m a.d3 b.d2 (muladd m a.d2 b.d3 (extract k4)) in
    let k6 = muladd_fast a.d3 b.d3 (extract k5) in
    record {
      l0 = k0.c0;
      l1 = k1.c0;
      l2 = k2.c0;
      l3 = k3.c0;
      l4 = k4.c0;
      l5 = k5.c0;
      l6 = k6.c0;
      l7 = (extract_fast k6).c0;
    }

pub sqr_512 : Scalar → Wide
sqr_512 a =
    let m : ℕ = 2 ^ 32 in
    let k0 = muladd_fast a.d0 a.d0 (record { c0 = 0; c1 = 0; c2 = 0 }) in
    let k1 = muladd2 m a.d0 a.d1 (extract_fast k0) in
    let k2 = muladd m a.d1 a.d1 (muladd2 m a.d0 a.d2 (extract k1)) in
    let k3 = muladd2 m a.d1 a.d2 (muladd2 m a.d0 a.d3 (extract k2)) in
    let k4 = muladd m a.d2 a.d2 (muladd2 m a.d1 a.d3 (extract k3)) in
    let k5 = muladd2 m a.d2 a.d3 (extract k4) in
    let k6 = muladd_fast a.d3 a.d3 (extract k5) in
    record {
      l0 = k0.c0;
      l1 = k1.c0;
      l2 = k2.c0;
      l3 = k3.c0;
      l4 = k4.c0;
      l5 = k5.c0;
      l6 = k6.c0;
      l7 = (extract_fast k6).c0;
    }

-- The numbers m0 to m6, and p0 to p4, of `secp256k1_scalar_reduce_512`.
pub record Bits385 : Type 0 where
  pub m0 : ℕ
  pub m1 : ℕ
  pub m2 : ℕ
  pub m3 : ℕ
  pub m4 : ℕ
  pub m5 : ℕ
  pub m6 : ℕ

pub record Bits258 : Type 0 where
  pub p0 : ℕ
  pub p1 : ℕ
  pub p2 : ℕ
  pub p3 : ℕ
  pub p4 : ℕ

-- The three parts of `secp256k1_scalar_reduce_512`, as its comments divide it.
pub reduce_385 : Wide → Bits385
reduce_385 l =
    let m : ℕ = 2 ^ 64 in
    let k0 = muladd_fast l.l4 n_c_0 (record { c0 = l.l0; c1 = 0; c2 = 0 }) in
    let k1 = muladd m l.l4 n_c_1 (muladd m l.l5 n_c_0 (sumadd_fast l.l1 (extract_fast k0))) in
    let k2 =
      sumadd m l.l4 (muladd m l.l5 n_c_1 (muladd m l.l6 n_c_0 (sumadd m l.l2 (extract k1)))) in
    let k3 =
      sumadd m l.l5 (muladd m l.l6 n_c_1 (muladd m l.l7 n_c_0 (sumadd m l.l3 (extract k2)))) in
    let k4 = sumadd m l.l6 (muladd m l.l7 n_c_1 (extract k3)) in
    let k5 = sumadd_fast l.l7 (extract k4) in
    record {
      m0 = k0.c0;
      m1 = k1.c0;
      m2 = k2.c0;
      m3 = k3.c0;
      m4 = k4.c0;
      m5 = k5.c0;
      m6 = u32 (extract_fast k5).c0;
    }

pub reduce_258 : Bits385 → Bits258
reduce_258 s =
    let m : ℕ = 2 ^ 64 in
    let k0 = muladd_fast s.m4 n_c_0 (record { c0 = s.m0; c1 = 0; c2 = 0 }) in
    let k1 = muladd m s.m4 n_c_1 (muladd m s.m5 n_c_0 (sumadd_fast s.m1 (extract_fast k0))) in
    let k2 =
      sumadd m s.m4 (muladd m s.m5 n_c_1 (muladd m s.m6 n_c_0 (sumadd m s.m2 (extract k1)))) in
    let k3 = sumadd_fast s.m5 (muladd_fast s.m6 n_c_1 (sumadd_fast s.m3 (extract k2))) in
    record {
      p0 = k0.c0;
      p1 = k1.c0;
      p2 = k2.c0;
      p3 = k3.c0;
      p4 = u32 ((extract_fast k3).c0 + s.m6);
    }

-- The limbs, and the `c` that is left.
pub reduce_256 : Bits258 → Scalar × ℕ
reduce_256 s =
    let t0 = u128 (s.p0 + u128 (n_c_0 * s.p4)) in
    let t1 = u128 (t0 / 2 ^ 64 + (s.p1 + u128 (n_c_1 * s.p4))) in
    let t2 = u128 (t1 / 2 ^ 64 + (s.p2 + s.p4)) in
    let t3 = u128 (t2 / 2 ^ 64 + s.p3) in
    (record { d0 = u64 t0; d1 = u64 t1; d2 = u64 t2; d3 = u64 t3 }, t3 / 2 ^ 64)

pub reduce_512 : Wide → Scalar
reduce_512 l =
    let (r, c) = reduce_256 (reduce_258 (reduce_385 l)) in
    reduce r (u32 (c + flag (check_overflow r)))

pub mul : Scalar → Scalar → Scalar
mul a b = reduce_512 (mul_512 a b)

pub sqr : Scalar → Scalar
sqr a = reduce_512 (sqr_512 a)
