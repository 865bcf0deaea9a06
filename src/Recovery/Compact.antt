-- ===== src/Recovery/Compact.antt =====
-- The compact form of recoverable signatures, and signing with the id kept.
use zipologger.Base.{ℕ, ◌≤◌, ◌≡◌, refl, arith}
use zipologger.Base.{Bool, true, false, Bool-cases, inl, inr, Option, none, some}
use zipologger.Base.{List, ltb, not, ◌&&◌}
use zipologger.Scalar.{is_zero, set_b32}
use zipologger.Signature.{Signature, signature_save, cleared}
use zipologger.Signature.Compact.{IsSignature, take_r, drop_r}
use zipologger.Scalar.Bytes.{set_b32-get_b32}
use zipologger.Curve.{Curve}
use zipologger.Ecdsa.{ecdsa_sign, sign_loop}
use zipologger.Recovery.{
  RecoverableSignature, recoverable_signature_parse_compact,
  recoverable_signature_serialize_compact, recoverable_signature_convert, sign_recoverable,
  cleared_recoverable, recoverable_signature_save,
}

-- A recoverable signature with an id of at most 3 that is written in the compact form is read back.
pub recoverable_parse_compact-recoverable_serialize_compact :
    (old sig : RecoverableSignature)
    → IsSignature (recoverable_signature_convert sig)
    → sig.rec_id ≤ 3
    → let out = recoverable_signature_serialize_compact sig in
      recoverable_signature_parse_compact old out.0 out.1 ≡ (sig, true)
unfolding recoverable_signature_serialize_compact recoverable_signature_convert
    recoverable_signature_parse_compact
recoverable_parse_compact-recoverable_serialize_compact old sig v h =
    let small : ltb 3 sig.rec_id ≡ false = ground arith in
    rw
      (
        small,
        take_r sig.rec_r sig.rec_s,
        drop_r sig.rec_r sig.rec_s,
        set_b32-get_b32 sig.rec_r v.r_reduced,
        set_b32-get_b32 sig.rec_s v.s_reduced,
      )
      refl

abbrev pub forget : Option (RecoverableSignature × Bool) → Option (Signature × Bool)
forget none = none
forget (some (sig, ret)) = some (recoverable_signature_convert sig, ret)

-- Apart from the id, signing gives what it gives with the id dropped.
pub sign_recoverable_lem :
    (curve : Curve) (fuel : ℕ) (noncefp : List ℕ → List ℕ → ℕ → Option (List ℕ))
    (msg32 seckey : List ℕ)
    → forget (sign_recoverable curve fuel noncefp msg32 seckey)
      ≡ ecdsa_sign curve fuel noncefp msg32 seckey
unfolding recoverable_signature_convert sign_recoverable ecdsa_sign
sign_recoverable_lem curve fuel noncefp msg32 seckey =
    elim (Bool-cases (not (set_b32 seckey).1 && not (is_zero (set_b32 seckey).0))) [
      | inl e ↦
          rw e
            (elim (sign_loop curve fuel (noncefp msg32 seckey) (set_b32 seckey).0 (set_b32 msg32).0
                0)
              as (λ o.
                forget (elim o [
                  | none ↦ none
                  | some none ↦ some (cleared_recoverable, false)
                  | some (some (r, s, recid)) ↦ some (recoverable_signature_save r s recid, true)
                ])
                ≡ elim o [
                  | none ↦ none
                  | some none ↦ some (cleared, false)
                  | some (some (r, s, recid)) ↦ some (signature_save r s, true)
                ]) [ none ↦ refl | some none ↦ refl | some (some (r, s, recid)) ↦ refl ])
      | inr e ↦ rw e refl
    ]
