-- ===== src/Ext/Verify.antt =====
-- What the verification that the Go package calls accepts.
use zipologger.Base.{ℕ, ◌*◌, ◌≤◌, ◌<◌, ◌≡◌, arith, true, false, List, length, take, drop}
use zipologger.Base.{else_true, then_true, not-false, not, if◌then◌else◌}
use zipologger.Base.Bytes.{be, IsBytes}
use zipologger.Scalar.{is_high, set_b32}
use zipologger.Scalar.Value.{order, is_high-false}
use zipologger.Signature.{signature_parse_compact}
use zipologger.Signature.Compact.{signature_parse_compact_lem}
use zipologger.Curve.{Curve, HasField}
use zipologger.Ecdsa.{sig_verify}
use zipologger.Ecdsa.Check.{sig_verify_iff}
use zipologger.Pubkey.{pubkey_load, pubkey_parse}
use zipologger.Ext.{ecdsa_verify, ext_ecdsa_verify}

-- Under the promises of the field operations, 64 bytes that `secp256k1_ext_ecdsa_verify` accepts as
-- a signature have 1 <= r < n, 1 <= s and 2 * s <= n, and the public key parses.
pub ext_ecdsa_verify_sound :
    (curve : Curve) (fe_value : curve.Fe → ℕ) (x_value : curve.Gej → ℕ)
    → HasField curve fe_value x_value
    → (sigdata msgdata pubkeydata : List ℕ) → IsBytes sigdata
    → length sigdata ≡ 64
    → ext_ecdsa_verify curve sigdata msgdata pubkeydata ≡ true
    → (1 ≤ be (take 32 sigdata))
      × (be (take 32 sigdata) < order)
      × (1 ≤ be (drop 32 sigdata))
      × (2 * be (drop 32 sigdata) ≤ order)
      × ((pubkey_parse curve pubkeydata).1 ≡ true)
unfolding ext_ecdsa_verify ecdsa_verify
ext_ecdsa_verify_sound curve fe_value x_value laws sigdata msgdata pubkeydata h l ok =
    let parsed = signature_parse_compact sigdata in
    let known = pubkey_parse curve pubkeydata in
    let q = pubkey_load curve known.0 in
    let p1 =
      else_true (not parsed.1)
        (if not known.1 then false else ecdsa_verify curve parsed.0 msgdata known.0) ok in
    let p2 = else_true (not known.1) (ecdsa_verify curve parsed.0 msgdata known.0) p1.1 in
    let r = parsed.0.sig_r in
    let s = parsed.0.sig_s in
    let m = (set_b32 msgdata).0 in
    let p3 = else_true (is_high s) (if q.1 then sig_verify curve r s q.0 m else false) p2.1 in
    let p4 = then_true q.1 (sig_verify curve r s q.0 m) p3.1 in
    let v = signature_parse_compact_lem sigdata h l in
    let w = v.1 (not-false parsed.1 p1.0) in
    let c = (sig_verify_iff curve fe_value x_value laws r s q.0 m w.0.r_reduced).0 p4.1 in
    let low = is_high-false s w.0.s_reduced.limbs p3.0 in
    let below = (v.0).0 (not-false parsed.1 p1.0) in
    (
      omega (arith, w.1, c.0),
      below.0,
      omega (arith, w.2, c.1),
      omega (arith, w.2, low),
      not-false known.1 p2.0,
    )
