-- ===== src/Recovery.antt =====
-- libsecp256k1/src/modules/recovery/main_impl.h: signatures with the id that recovers the key.
pub mod Compact
mod Tests
use zipologger.Base.{
  ℕ, zero, suc, ◌+◌, ◌/◌, ◌%◌, Bool, true, false, not, ◌&&◌, ◌||◌, ◌==◌, if◌then◌else◌, ltb,
}
use zipologger.Base.{List, ◌++◌, take, drop, Option, none, some, ◌>>=◌}
use zipologger.Scalar.{Scalar, set_int, is_zero, negate, set_b32, get_b32}
use zipologger.Scalar.Wide.{mul}
use zipologger.Scalar.Inverse.{inverse}
use zipologger.Signature.{Signature, signature_save}
use zipologger.Curve.{Curve}
use zipologger.Ecdsa.{sign_loop}
use zipologger.Pubkey.{cleared_key, pubkey_save}

-- `secp256k1_ecdsa_recoverable_signature`
pub record RecoverableSignature : Type 0 where
  pub rec_r : Scalar
  pub rec_s : Scalar
  pub rec_id : ℕ

abbrev pub cleared_recoverable : RecoverableSignature
cleared_recoverable = record { rec_r = set_int 0; rec_s = set_int 0; rec_id = 0 }

abbrev pub recoverable_signature_save : Scalar → Scalar → ℕ → RecoverableSignature
recoverable_signature_save r s recid = record { rec_r = r; rec_s = s; rec_id = recid }

abbrev pub recoverable_signature_load : RecoverableSignature → Scalar × Scalar × ℕ
recoverable_signature_load sig = (sig.rec_r, sig.rec_s, sig.rec_id)

-- What the call leaves in `*sig`, given what was there, and what it returns.
unfoldable pub recoverable_signature_parse_compact :
    RecoverableSignature → List ℕ → ℕ → RecoverableSignature × Bool
recoverable_signature_parse_compact sig input64 recid =
    let (r, over_r) = set_b32 (take 32 input64) in
    let (s, over_s) = set_b32 (drop 32 input64) in
    if ltb 3 recid
    then (sig, false)
    else if not over_r && not over_s
    then (recoverable_signature_save r s recid, true)
    else (cleared_recoverable, false)

-- The 64 bytes and `*recid`.
unfoldable pub recoverable_signature_serialize_compact : RecoverableSignature → List ℕ × ℕ
recoverable_signature_serialize_compact sig =
    let (r, s, recid) = recoverable_signature_load sig in (get_b32 r ++ get_b32 s, recid)

unfoldable pub recoverable_signature_convert : RecoverableSignature → Signature
recoverable_signature_convert sigin =
    let (r, s, recid) = recoverable_signature_load sigin in signature_save r s

module _ (curve : Curve) where
  -- The x of the point from r and the id: r, or r + n where the id says so. `none` if the id says
  -- so and r + n would reach the prime.
  unfoldable pub recover_x : Scalar → ℕ → Option curve.Fe
  recover_x sigr recid =
      let fx = (curve.fe_set_b32 (get_b32 sigr)).0 in
      if recid / 2 % 2 == 1
      then if curve.fe_cmp_ge fx curve.p_minus_order
        then none
        else some (curve.fe_add fx curve.order_as_fe)
      else some fx

  -- `none` is the return of 0.
  unfoldable pub sig_recover : Scalar → Scalar → Scalar → ℕ → Option curve.Ge
  sig_recover sigr sigs message recid =
      let rn = inverse sigr in
      let u1 = negate (mul rn message) in
      let u2 = mul rn sigs in
      if is_zero sigr || is_zero sigs then none else (do
        fx ← recover_x sigr recid
        x ← curve.ge_set_xo_var fx (recid % 2 == 1)
        let qj = curve.ecmult (curve.gej_set_ge x) u2 u1
        if curve.gej_is_infinity qj then none else some (curve.ge_set_gej qj))

  -- As `ecdsa_sign`, with the id kept.
  unfoldable pub sign_recoverable :
      ℕ
      → (List ℕ → List ℕ → ℕ → Option (List ℕ))
      → List ℕ
      → List ℕ
      → Option (RecoverableSignature × Bool)
  sign_recoverable fuel noncefp msg32 seckey =
      let (sec, overflow) = set_b32 seckey in
      let (msg, _) = set_b32 msg32 in
      if not overflow && not (is_zero sec)
      then elim (sign_loop curve fuel (noncefp msg32 seckey) sec msg 0) [
        | none ↦ none
        | some none ↦ some (cleared_recoverable, false)
        | some (some (r, s, recid)) ↦ some (recoverable_signature_save r s recid, true)
      ]
      else some (cleared_recoverable, false)

  unfoldable pub ecdsa_recover : RecoverableSignature → List ℕ → List ℕ × Bool
  ecdsa_recover signature msg32 =
      let (r, s, recid) = recoverable_signature_load signature in
      let (m, _) = set_b32 msg32 in
      elim (sig_recover r s m recid) [
        | none ↦ (cleared_key, false)
        | some q ↦ (pubkey_save curve q, true)
      ]
