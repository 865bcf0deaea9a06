-- ===== src/Ecdsa/Sign.antt =====
-- What one run of the signing equation gives.
use zipologger.Base.{ℕ, ◌+◌, ◌-◌, ◌*◌, ◌^◌, ◌≤◌, ◌≡◌, ◌%◌, ◌∙◌, ap₂, refl, arith, min}
use zipologger.Base.{Bool, true, false, Bool-cases, inl, inr, ◌↔◌}
use zipologger.Scalar.{Scalar, add, negate, is_zero, is_high}
use zipologger.Scalar.Value.{
  order, value, IsReduced, is_zero_iff, is_zero-false, is_high_iff, is_high-false,
}
use zipologger.Scalar.Sum.{add_lem, negate_lem}
use zipologger.Scalar.Bytes.{set_b32_lem}
use zipologger.Scalar.Wide.{mul}
use zipologger.Scalar.Wide.Mul.{mul_lem}
use zipologger.Scalar.Inverse.{inverse}
use zipologger.Scalar.Inverse.Power.{mod-mul-mod}
use zipologger.Scalar.Inverse.Chain.{inverse_lem}
use zipologger.Curve.{Curve, HasBytes}
use zipologger.Ecdsa.{nonce_point, sig_sign}

-- k^(n-2) * (r * d + m) modulo n.
abbrev pub equation : ℕ → ℕ → ℕ → ℕ → ℕ
equation k r d m = k ^ (order - 2) * (r * d + m) % order

-- A signature out of `sig_sign`, for the solution `e` of the signing equation.
pub record IsSigned (r s : Scalar) (ok : Bool) (e : ℕ) : Type 0 where
  pub r_reduced : IsReduced r
  pub s_reduced : IsReduced s
  pub solution : value s ≡ min e (order - e)
  pub low : is_high s ≡ false
  pub accepts : (ok ≡ true) ↔ (1 ≤ e)

high_zero : (s : Scalar) → IsReduced s → value s ≡ 0 → is_high s ≡ false
high_zero s u z = let h = is_high_iff s u.limbs in ground arith

low_negate : (s : Scalar) → IsReduced s → is_high s ≡ true → is_high (negate s) ≡ false
low_negate s u e =
    let w = negate_lem s u in
    let h = is_high_iff s u.limbs in let h' = is_high_iff (negate s) w.0.limbs in ground arith

module _ (curve : Curve) (laws : HasBytes curve) where
  pub nonce_point-IsReduced : (nonce : Scalar) → IsReduced ((nonce_point curve nonce).0).0
  unfolding nonce_point
  nonce_point-IsReduced nonce =
      let x = curve.fe_normalize (curve.ge_x (curve.ge_set_gej (curve.ecmult_gen nonce))) in
      (set_b32_lem (curve.fe_get_b32 x) (laws.bytes x) (laws.thirty_two x)).0

  solve :
      (r d m k : Scalar)
      → IsReduced r
      → IsReduced d
      → IsReduced m
      → IsReduced k
      → let s = mul (inverse k) (add (mul r d) m).0 in
        IsReduced s × (value s ≡ equation (value k) (value r) (value d) (value m))
  solve r d m k ur ud um uk =
      let i = inverse_lem k uk in
      let p = mul_lem r d ur.limbs ud.limbs in
      let a = add_lem (mul r d) m p.0 um in
      let q = mul_lem (inverse k) (add (mul r d) m).0 i.0.limbs a.0.limbs in
      let sum : value (add (mul r d) m).0 ≡ (value r * value d + value m) % order =
        omega (arith, p.1, a.1) in
      (
        q.0,
        q.1
            ∙ ap₂ (λ (x y : ℕ). x * y % order) i.1 sum
            ∙ mod-mul-mod (value k ^ (order - 2)) (value r * value d + value m) order,
      )

  -- If field elements are serialized as 32 bytes: for a key d, a message m and a nonce k below the order, and r the x of k * G modulo n, the s
  -- that `secp256k1_ecdsa_sig_sign` gives is the smaller of e and n - e for
  -- e = k^(n-2) * (r * d + m) mod n; the call returns 1 exactly when e is not 0.
  pub sig_sign_lem :
      (d m k : Scalar)
      → IsReduced d
      → IsReduced m
      → IsReduced k
      → let out = sig_sign curve d m k in
        IsSigned out.0.0 out.0.1 out.1
          (equation (value k) (value ((nonce_point curve k).0).0) (value d) (value m))
  unfolding sig_sign
  sig_sign_lem d m k ud um uk =
      let r = ((nonce_point curve k).0).0 in
      let ur = nonce_point-IsReduced k in
      let s = mul (inverse k) (add (mul r d) m).0 in
      let q = solve r d m k ur ud um uk in
      elim (Bool-cases (is_zero s)) [
        | inl e ↦ rw e (
            let z = (is_zero_iff s).0 e in
            record {
              r_reduced = ur;
              s_reduced = q.0;
              solution = omega arith;
              low = high_zero s q.0 z;
              accepts = (λ p. cc, λ p. absurd (omega arith));
            })
        | inr e ↦ elim (Bool-cases (is_high s)) [
          | inl e' ↦
              rw (e, e')
                (let w = negate_lem s q.0 in
                  let h = (is_high_iff s q.0.limbs).0 e' in
                  record {
                    r_reduced = ur;
                    s_reduced = w.0;
                    solution = omega (arith, w.1, q.1);
                    low = low_negate s q.0 e';
                    accepts = (λ p. omega (arith, q.1), λ p. refl);
                  })
          | inr e' ↦
              rw (e, e')
                (let h = is_high-false s q.0.limbs e' in
                  let z = is_zero-false s e in
                  record {
                    r_reduced = ur;
                    s_reduced = q.0;
                    solution = omega (arith, q.1);
                    low = e';
                    accepts = (λ p. omega (arith, q.1), λ p. refl);
                  })
        ]
      ]

-- The r that `secp256k1_ecdsa_sig_sign` gives is the one of the point k * G.
pub sig_sign_r :
    (curve : Curve) (d m k : Scalar) → (sig_sign curve d m k).0.0 ≡ ((nonce_point curve k).0).0
unfolding sig_sign
sig_sign_r curve d m k =
    let s = mul (inverse k) (add (mul ((nonce_point curve k).0).0 d) m).0 in
    elim (Bool-cases (is_zero s)) [
      | inl e ↦ rw e refl
      | inr e ↦ elim (Bool-cases (is_high s)) [
        | inl e' ↦ rw (e, e') refl
        | inr e' ↦ rw (e, e') refl
      ]
    ]
