-- ===== src/Curve/Sample.antt =====
-- An instance of the interface that computes: field elements are numbers, points are pairs of
-- coordinates, and the multiplications are stand-ins that meet the laws stated in Curve.
use zipologger.Base.{ℕ, ◌+◌, ◌-◌, ◌*◌, ◌/◌, ◌%◌, ◌^◌, ◌≡◌, refl, arith, ap}
use zipologger.Base.{Bool, true, ◌==◌, leb, ltb, flag, some, List}
use zipologger.Base.Bytes.{be}
use zipologger.Scalar.{Scalar, get_b32}
use zipologger.Scalar.Value.{order, value, IsLimbs}
use zipologger.Scalar.Bytes.{get_b32-length, get_b32_lem}
use zipologger.Curve.{Curve, HasBytes, HasField, prime}

abbrev limbs : ℕ → Scalar
limbs f = record {
  d0 = f % 2 ^ 64;
  d1 = f / 2 ^ 64 % 2 ^ 64;
  d2 = f / 2 ^ 128 % 2 ^ 64;
  d3 = f / 2 ^ 192 % 2 ^ 64;
}

limbs-IsLimbs : (f : ℕ) → IsLimbs (limbs f)
limbs-IsLimbs f = omega arith

abbrev pub sample : Curve
sample = record {
  Fe = ℕ;
  Ge = ℕ × ℕ;
  Gej = ℕ × ℕ;
  fe_set_b32 = λ b. (be b, ltb (be b) prime);
  fe_get_b32 = λ f. get_b32 (limbs f);
  fe_normalize = λ f. f % prime;
  fe_is_odd = λ f. f % 2 == 1;
  fe_is_zero = λ f. f == 0;
  fe_cmp_ge = λ a b. leb b a;
  fe_add = λ a b. (a + b) % prime;
  order_as_fe = order;
  p_minus_order = prime - order;
  ge_x = λ q. q.0;
  ge_y = λ q. q.1;
  ge_set_xy = λ x y. (x, y);
  ge_set_xo_var = λ x odd. some (x, flag odd);
  ge_is_valid_var = λ q. leb q.1 1;
  ge_is_infinity = λ q. q.0 == 0;
  ge_set_gej = λ a. a;
  ge_to_storage = λ q. be_pair q;
  ge_from_storage = λ b. (be b, 0);
  gej_infinity = (0, 0);
  gej_set_ge = λ q. q;
  gej_is_infinity = λ a. a.0 == 0;
  gej_eq_x_var = λ f a. f == a.0 % prime;
  gej_add_ge = λ a q. ((a.0 + q.0) % prime, 0);
  ecmult = λ a na ng. ((a.0 * value na + value ng) % prime, 0);
  ecmult_gen = λ k. (value k, 1);
  ecmult_const = λ q k. (q.0 * value k % prime, 0);
}
  where
    be_pair : ℕ × ℕ → List ℕ
    be_pair q = get_b32 (limbs q.0)

pub sample-HasBytes : HasBytes sample
sample-HasBytes = record {
  bytes = λ f. (get_b32_lem (limbs f) (limbs-IsLimbs f)).0;
  thirty_two = λ f. get_b32-length (limbs f);
}

pub sample-HasField : HasField sample (λ f. f) (λ a. a.0 % prime)
sample-HasField = record {
  x_below = λ a. omega arith;
  set_b32_value = λ b h l p. refl;
  order_value = refl;
  p_minus_order_value = refl;
  IsNormal = λ a. Unit {0};
  set_b32_normal = λ b h l p. tt;
  p_minus_order_normal = tt;
  cmp_ge_iff = λ a b h g. ground arith;
  add_value = λ a b. refl;
  eq_x_iff = λ f a h. ground arith;
}

-- Reading back a normalized element.
pub sample_set_get : (f : ℕ) → sample.fe_set_b32 (sample.fe_get_b32 (f % prime)) ≡ (f % prime, true)
sample_set_get f =
    let g = get_b32_lem (limbs (f % prime)) (limbs-IsLimbs (f % prime)) in
    let same : be (get_b32 (limbs (f % prime))) ≡ f % prime = omega (arith, g.1) in
    rw same (ap (λ (t : Bool). (f % prime, t)) (ground arith))
