-- ===== src/Ecdsa/Check.antt =====
-- What the verification equation decides.
use zipologger.Base.{ℕ, ◌+◌, ◌<◌, ◌≡◌, ◌≢◌, ◌%◌, arith}
use zipologger.Base.{true, false, ◌⊎◌, ◌↔◌}
use zipologger.Scalar.{Scalar, get_b32}
use zipologger.Scalar.Value.{order, value, IsReduced, is_zero_iff}
use zipologger.Scalar.Bytes.{get_b32_lem, get_b32-length}
use zipologger.Scalar.Wide.{mul}
use zipologger.Scalar.Inverse.{inverse}
use zipologger.Curve.{Curve, HasField, prime}
use zipologger.Ecdsa.{sig_verify}

module _ (curve : Curve) (fe_value : curve.Fe → ℕ) (x_value : curve.Gej → ℕ)
    (laws : HasField curve fe_value x_value) where
  -- Comparing x with r, and with r + n where this is below the prime, compares x modulo n with r.
  same_x :
      (x r : ℕ)
      → x < prime
      → r < order
      → (x % order ≡ r) ↔ ((r ≡ x) ⊎ ((r + order < prime) × (r + order ≡ x)))
  same_x x r hx hr = ground arith

  -- The point of the verification equation.
  abbrev pub checked : Scalar → Scalar → curve.Ge → Scalar → curve.Gej
  checked r s q m = curve.ecmult (curve.gej_set_ge q) (mul (inverse s) r) (mul (inverse s) m)

  -- `secp256k1_ecdsa_sig_verify` accepts exactly if r and s are not 0, the point
  -- (m / s) * G + (r / s) * Q is not at infinity, and its affine x is r modulo n.
  pub sig_verify_iff :
      (r s : Scalar) (q : curve.Ge) (m : Scalar)
      → IsReduced r
      → (sig_verify curve r s q m ≡ true) ↔ (
          (value r ≢ 0)
          × (value s ≢ 0)
          × (curve.gej_is_infinity (checked r s q m) ≡ false)
          × (x_value (checked r s q m) % order ≡ value r))
  unfolding sig_verify
  sig_verify_iff r s q m u =
      let g = get_b32_lem r u.limbs in
      let pr = checked r s q m in
      let xr = (curve.fe_set_b32 (get_b32 r)).0 in
      let v = laws.set_b32_value (get_b32 r) g.0 (get_b32-length r) (omega arith) in
      let zr = is_zero_iff r in
      let zs = is_zero_iff s in
      let below = laws.x_below pr in
      let p = laws.p_minus_order_value in
      let n = laws.set_b32_normal (get_b32 r) g.0 (get_b32-length r) (omega arith) in
      let c = laws.cmp_ge_iff xr curve.p_minus_order n laws.p_minus_order_normal in
      let o = laws.order_value in
      let a = laws.add_value xr curve.order_as_fe in
      let e = laws.eq_x_iff xr pr in
      let e' = laws.eq_x_iff (curve.fe_add xr curve.order_as_fe) pr in ground arith
