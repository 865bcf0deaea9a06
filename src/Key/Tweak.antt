-- ===== src/Key/Tweak.antt =====
-- Tweaks of secret keys as arithmetic modulo the group order.
use zipologger.Base.{ℕ, ◌+◌, ◌*◌, ◌≤◌, ◌<◌, ◌≡◌, ◌%◌, ◌∙◌, ap₂, refl, arith, replicate}
use zipologger.Base.{Bool, true, false, ◌↔◌, Bool-cases, inl, inr, List, length}
use zipologger.Base.Bytes.{be, IsBytes}
use zipologger.Scalar.{Scalar, add, is_zero, set_b32, get_b32}
use zipologger.Scalar.Value.{order, value, is_zero_iff, is_zero-false, IsReduced}
use zipologger.Scalar.Sum.{add_lem}
use zipologger.Scalar.Bytes.{set_b32_lem, set_b32_over, set_b32_fits, get_b32_lem, get_b32-length}
use zipologger.Scalar.Wide.{mul}
use zipologger.Scalar.Wide.Mul.{mul_lem}
use zipologger.Scalar.Inverse.Power.{mod-mul-mod}
use zipologger.Key.{
  eckey_privkey_tweak_add, eckey_privkey_tweak_mul, privkey_tweak_add, privkey_tweak_mul,
}

-- The call accepts the tweak under the condition `P`, and then leaves the 32 bytes of `v`;
-- otherwise it leaves zeros.
pub record IsTweak (P : Type 0) (v : ℕ) (out : List ℕ × Bool) : Type 0 where
  pub bytes : IsBytes out.0
  pub thirty_two : length out.0 ≡ 32
  pub accepts : (out.1 ≡ true) ↔ P
  pub result : P → be out.0 ≡ v
  pub erased : ¬ P → out.0 ≡ replicate 32 0

kept :
    {P : Type 0} {v : ℕ} (a : Scalar)
    → IsReduced a
    → P
    → value a ≡ v
    → IsTweak P v (get_b32 a, true)
kept a u p e =
    let g = get_b32_lem a u.limbs in
    record {
      bytes = g.0;
      thirty_two = get_b32-length a;
      accepts = (λ x. p, λ x. refl);
      result = λ x. omega (arith, g.1);
      erased = λ n. absurd (n p);
    }

dropped : {P : Type 0} {v : ℕ} → ¬ P → IsTweak P v (replicate 32 0, false)
dropped n = record {
  bytes = omega arith;
  thirty_two = refl;
  accepts = (λ x. cc, λ p. absurd (n p));
  result = λ p. absurd (n p);
  erased = λ x. refl;
}

-- `secp256k1_ec_privkey_tweak_add` accepts a tweak t < n for which k + t is not 0 modulo n, and
-- then replaces the key k by (k + t) mod n; otherwise it sets the key to zeros.
pub privkey_tweak_add_lem :
    (seckey tweak : List ℕ)
    → IsBytes seckey
    → length seckey ≡ 32
    → IsBytes tweak
    → length tweak ≡ 32
    → IsTweak
        ((be tweak < order) × (1 ≤ (be seckey + be tweak) % order))
        ((be seckey + be tweak) % order)
        (privkey_tweak_add seckey tweak)
unfolding privkey_tweak_add eckey_privkey_tweak_add
privkey_tweak_add_lem seckey tweak h l h' l' =
    let k = set_b32_lem seckey h l in
    let t = set_b32_lem tweak h' l' in
    let sum = (add (set_b32 seckey).0 (set_b32 tweak).0).0 in
    let a = add_lem (set_b32 seckey).0 (set_b32 tweak).0 k.0 t.0 in
    let z = is_zero_iff sum in
    elim (Bool-cases (set_b32 tweak).1) [
      | inl e ↦ rw e (dropped (λ p. omega (arith, set_b32_over tweak h' l' e)))
      | inr e ↦ elim (Bool-cases (is_zero sum)) [
        | inl e' ↦ rw (e, e') (dropped (λ p. omega (arith, z.0 e')))
        | inr e' ↦
            rw (e, e')
              (kept sum a.0
                (omega (arith, set_b32_fits tweak h' l' e), omega (arith, is_zero-false sum e'))
                (omega arith))
      ]
    ]

-- `secp256k1_ec_privkey_tweak_mul` accepts a tweak t with 0 < t < n, and then replaces the key k
-- by k * t mod n; otherwise it sets the key to zeros.
pub privkey_tweak_mul_lem :
    (seckey tweak : List ℕ)
    → IsBytes seckey
    → length seckey ≡ 32
    → IsBytes tweak
    → length tweak ≡ 32
    → IsTweak
        ((be tweak < order) × (1 ≤ be tweak))
        (be seckey * be tweak % order)
        (privkey_tweak_mul seckey tweak)
unfolding privkey_tweak_mul eckey_privkey_tweak_mul
privkey_tweak_mul_lem seckey tweak h l h' l' =
    let k = set_b32_lem seckey h l in
    let t = set_b32_lem tweak h' l' in
    let product = mul (set_b32 seckey).0 (set_b32 tweak).0 in
    let m = mul_lem (set_b32 seckey).0 (set_b32 tweak).0 k.0.limbs t.0.limbs in
    let z = is_zero_iff (set_b32 tweak).0 in
    elim (Bool-cases (set_b32 tweak).1) [
      | inl e ↦ rw e (dropped (λ p. omega (arith, set_b32_over tweak h' l' e)))
      | inr e ↦ elim (Bool-cases (is_zero (set_b32 tweak).0)) [
        | inl e' ↦ rw (e, e') (dropped (λ p. omega (arith, z.0 e')))
        | inr e' ↦
            rw (e, e')
              (kept product m.0
                ((
                  omega (arith, set_b32_fits tweak h' l' e),
                  omega (arith, is_zero-false (set_b32 tweak).0 e'),
                ))
                (m.1
                  ∙ ap₂ (λ (x y : ℕ). x * y % order) k.1 t.1
                  ∙ mod-mul-mod (be seckey) (be tweak) order))
      ]
    ]
