-- ===== src/Signature/Normal.antt =====
-- The normalized form of signatures, with `s` in the lower half.
use zipologger.Base.{◌-◌, ◌*◌, ◌<◌, ◌≡◌, refl, arith, min}
use zipologger.Base.{true, false, ◌↔◌, Bool-cases, inl, inr}
use zipologger.Scalar.{negate, is_high}
use zipologger.Scalar.Value.{order, value, is_high_iff, is_high-false}
use zipologger.Scalar.Sum.{negate_lem}
use zipologger.Signature.{Signature, signature_normalize}
use zipologger.Signature.Compact.{IsSignature}

-- The result has the same `r`, and as `s` the smaller of `s` and its negation, which is not high;
-- the call returns 1 exactly when the given `s` is high.
pub signature_normalize_lem :
    (sig : Signature)
    → IsSignature sig
    → let out = signature_normalize sig in
      IsSignature out.0
      × (out.0.sig_r ≡ sig.sig_r)
      × (value out.0.sig_s ≡ min (value sig.sig_s) (order - value sig.sig_s))
      × (is_high out.0.sig_s ≡ false)
      × ((out.1 ≡ true) ↔ (order < 2 * value sig.sig_s))
unfolding signature_normalize
signature_normalize_lem sig v =
    let h = is_high_iff sig.sig_s v.s_reduced.limbs in
    let w = negate_lem sig.sig_s v.s_reduced in
    let h' = is_high_iff (negate sig.sig_s) w.0.limbs in
    elim (Bool-cases (is_high sig.sig_s)) [
      | inl e ↦ rw e (
        record { r_reduced = v.r_reduced; s_reduced = w.0 },
        refl,
        omega arith,
        ground arith,
        ground arith,
      )
      | inr e ↦
          let not_high = is_high-false sig.sig_s v.s_reduced.limbs e in
          rw e
            (v, refl, omega (arith, not_high), e, (λ q. cc, λ q. absurd (omega (arith, not_high))))
    ]

normal : (sig : Signature) → is_high sig.sig_s ≡ false → signature_normalize sig ≡ (sig, false)
unfolding signature_normalize
normal sig e = rw e refl

-- Normalizing again changes nothing, and returns 0.
pub signature_normalize-signature_normalize :
    (sig : Signature)
    → IsSignature sig
    → signature_normalize (signature_normalize sig).0 ≡ ((signature_normalize sig).0, false)
signature_normalize-signature_normalize sig v =
    normal (signature_normalize sig).0 (signature_normalize_lem sig v).3
