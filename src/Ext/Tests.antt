-- ===== src/Ext/Tests.antt =====
-- A run of the exported verification at a concrete instance of the curve's operations.
use zipologger.Base.{
  ℕ, ◌+◌, ◌*◌, ◌%◌, ◌≡◌, refl, ap, ◌∙◌, arith, true, false, List, [], ◌∷◌, ◌++◌, replicate,
}
use zipologger.Scalar.{
  Scalar, is_high, set_b32, limb_of_bytes, check_overflow, reduce, get_b32, bytes_of_limb,
}
use zipologger.Scalar.Value.{order, value, IsReduced, is_high_iff}
use zipologger.Scalar.Wide.{mul}
use zipologger.Scalar.Wide.Mul.{mul_lem}
use zipologger.Scalar.Inverse.{inverse}
use zipologger.Scalar.Inverse.Chain.{inverse_lem}
use zipologger.Signature.{Signature, signature_parse_compact}
use zipologger.Curve.{prime}
use zipologger.Curve.Sample.{sample, sample-HasField}
use zipologger.Ecdsa.{sig_verify}
use zipologger.Ecdsa.Check.{sig_verify_iff}
use zipologger.Pubkey.{eckey_pubkey_parse, pubkey_load, pubkey_save, pubkey_parse}
use zipologger.Ext.{ecdsa_verify, ext_ecdsa_verify}

-- r = 7 and s = 1, the message 0 and the point with x = 1.
abbrev sigdata : List ℕ
sigdata = replicate 31 0 ++ (7 ∷ replicate 31 0) ++ 1 ∷ []

abbrev msgdata : List ℕ
msgdata = replicate 32 0

abbrev pubkeydata : List ℕ
pubkeydata = 2 ∷ (replicate 31 0 ++ 1 ∷ [])

abbrev zero_scalar : Scalar
zero_scalar = record { d0 = 0; d1 = 0; d2 = 0; d3 = 0 }

abbrev one : Scalar
one = record { d0 = 1; d1 = 0; d2 = 0; d3 = 0 }

abbrev seven : Scalar
seven = record { d0 = 7; d1 = 0; d2 = 0; d3 = 0 }

abbrev seven_one : Signature
seven_one = record { sig_r = seven; sig_s = one }

parsed : signature_parse_compact sigdata ≡ (seven_one, true)
unfolding signature_parse_compact set_b32 limb_of_bytes check_overflow reduce
parsed = refl

message : set_b32 msgdata ≡ (zero_scalar, false)
unfolding set_b32 limb_of_bytes check_overflow reduce
message = refl

abbrev stored : List ℕ
stored = replicate 31 0 ++ 1 ∷ []

known : pubkey_parse sample pubkeydata ≡ (stored, true)
unfolding pubkey_parse eckey_pubkey_parse pubkey_save get_b32 bytes_of_limb
known = refl

loaded : pubkey_load sample stored ≡ ((1, 0), true)
unfolding pubkey_load
loaded = refl

low : is_high one ≡ false
low = let h = is_high_iff one (omega arith) in ground arith

product : (k : Scalar) → IsReduced k → value (mul (inverse one) k) ≡ value k
product k u =
    let i = inverse_lem one (omega arith) in
    let i1 : value (inverse one) ≡ 1 = i.1 in
    let m = mul_lem (inverse one) k i.0.limbs u.limbs in
    m.1 ∙ ap (λ (t : ℕ). t * value k % order) i1 ∙ omega arith

x_of : (1 * value (mul (inverse one) seven) + value (mul (inverse one) zero_scalar)) % prime ≡ 7
x_of = omega (arith, product seven (omega arith), product zero_scalar (omega arith))

valid : sig_verify sample seven one (1, 0) zero_scalar ≡ true
valid =
    (sig_verify_iff sample (λ f. f) (λ a. a.0 % prime) sample-HasField seven one (1, 0) zero_scalar
        (omega arith)).1
      (omega arith, omega arith, rw x_of refl, rw x_of refl)

accepted : ext_ecdsa_verify sample sigdata msgdata pubkeydata ≡ true
unfolding ext_ecdsa_verify ecdsa_verify
accepted = rw (parsed, known, message, loaded, low) valid
