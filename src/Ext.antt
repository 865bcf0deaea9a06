-- ===== src/Ext.antt =====
-- internal/crypto/secp256k1/ext.h: the functions that the Go package calls.
pub mod Verify
mod Tests
use zipologger.Base.{ℕ, Bool, true, false, not, ◌||◌, ◌==◌, if◌then◌else◌}
use zipologger.Base.{List, ◌++◌, get_or, take, drop, Option, none, some}
use zipologger.Scalar.{is_zero, is_high, set_b32}
use zipologger.Signature.{Signature, signature_load, signature_parse_compact}
use zipologger.Curve.{Curve}
use zipologger.Ecdsa.{sig_verify}
use zipologger.Pubkey.{pubkey_load, pubkey_parse, pubkey_serialize}
use zipologger.Recovery.{
  RecoverableSignature, recoverable_signature_parse_compact, ecdsa_recover, cleared_recoverable,
}

module _ (curve : Curve) where
  -- secp256k1_ecdsa_verify
  unfoldable pub ecdsa_verify : Signature → List ℕ → List ℕ → Bool
  ecdsa_verify sig msg32 pubkey =
      let m = (set_b32 msg32).0 in
      let (r, s) = signature_load sig in
      let (q, loaded) = pubkey_load curve pubkey in
      if is_high s then false else if loaded then sig_verify curve r s q m else false

  -- The 65 bytes written, or `none` for the return of 0. The object `sig` is not initialized
  -- before the call that fills it; a failing call ends the function.
  unfoldable pub ext_ecdsa_recover : RecoverableSignature → List ℕ → List ℕ → Option (List ℕ)
  ext_ecdsa_recover sig sigdata msgdata =
      let (sig', parsed) =
        recoverable_signature_parse_compact sig (take 64 sigdata) (get_or sigdata 64 0) in
      let (pubkey, recovered) = ecdsa_recover curve sig' msgdata in
      if not parsed
      then none
      else if not recovered
      then none
      else pubkey_serialize curve 65 pubkey false

  unfoldable pub ext_ecdsa_verify : List ℕ → List ℕ → List ℕ → Bool
  ext_ecdsa_verify sigdata msgdata pubkeydata =
      let (sig, parsed) = signature_parse_compact sigdata in
      let (pubkey, known) = pubkey_parse curve pubkeydata in
      if not parsed then false else if not known then false else ecdsa_verify sig msgdata pubkey

  unfoldable pub ext_reencode_pubkey : ℕ → List ℕ → Option (List ℕ)
  ext_reencode_pubkey outlen pubkeydata =
      let (pubkey, known) = pubkey_parse curve pubkeydata in
      if not known then none else pubkey_serialize curve outlen pubkey (outlen == 33)

  -- The 64 bytes at `point` after the call, and what it returns.
  unfoldable pub ext_scalar_mul : List ℕ → List ℕ → List ℕ × Bool
  ext_scalar_mul point scalar =
      let x = (curve.fe_set_b32 (take 32 point)).0 in
      let y = (curve.fe_set_b32 (take 32 (drop 32 point))).0 in
      let (s, overflow) = set_b32 scalar in
      let ge = curve.ge_set_gej (curve.ecmult_const (curve.ge_set_xy x y) s) in
      let x' = curve.fe_normalize (curve.ge_x ge) in
      let y' = curve.fe_normalize (curve.ge_y ge) in
      if overflow || is_zero s
      then (point, false)
      else (curve.fe_get_b32 x' ++ curve.fe_get_b32 y', true)
