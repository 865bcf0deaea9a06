-- ===== src/Signature/Encoding.antt =====
-- The DER form of signature objects.
use zipologger.Base.{ℕ, ◌≡◌, refl, true, some, List}
use zipologger.Der.{sig_parse}
use zipologger.Der.Encode.{sig_parse-sig_serialize}
use zipologger.Signature.{Signature, signature_parse_der, signature_serialize_der}
use zipologger.Signature.Compact.{IsSignature}

-- What `secp256k1_ecdsa_signature_serialize_der` writes for a signature,
-- `secp256k1_ecdsa_signature_parse_der` reads back.
pub signature_parse_der-signature_serialize_der :
    (sig : Signature) (size n : ℕ) (out : List ℕ)
    → IsSignature sig
    → signature_serialize_der size sig ≡ (n, some out)
    → signature_parse_der out ≡ (sig, true)
unfolding signature_parse_der signature_serialize_der
signature_parse_der-signature_serialize_der sig size n out v h =
    let e : sig_parse out ≡ some (sig.sig_r, sig.sig_s) =
      (sig_parse-sig_serialize size n sig.sig_r sig.sig_s out v.r_reduced v.s_reduced h).0 in
    rw (signature_parse_der, e) refl
