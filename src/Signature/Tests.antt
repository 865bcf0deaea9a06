-- ===== src/Signature/Tests.antt =====
-- The theorems about signature objects at a concrete signature.
use zipologger.Base.{ℕ, ◌≡◌, refl, true, arith, List, ◌++◌, [], ◌∷◌, replicate, some}
use zipologger.Scalar.{set_b32, limb_of_bytes, check_overflow, reduce}
use zipologger.Signature.{Signature, signature_parse_compact, signature_serialize_der}
use zipologger.Signature.Compact.{IsSignature}
use zipologger.Der.Tests.{one, two_hundred, small_signature, serialize_small}

abbrev small_object : Signature
small_object = record { sig_r = one; sig_s = two_hundred }

-- The s of this signature is n - 1.
abbrev high_signature : Signature
high_signature = record {
  sig_r = record { d0 = 5; d1 = 6; d2 = 7; d3 = 8 };
  sig_s = record {
    d0 = 0xBFD25E8CD0364140;
    d1 = 0xBAAEDCE6AF48A03B;
    d2 = 0xFFFFFFFFFFFFFFFE;
    d3 = 0xFFFFFFFFFFFFFFFF;
  };
}

abbrev seven_and_nine : List ℕ
seven_and_nine = replicate 31 0 ++ (7 ∷ replicate 31 0) ++ 9 ∷ []

high-IsSignature : IsSignature high_signature
high-IsSignature = record { r_reduced = omega arith; s_reduced = omega arith }

parse_seven_and_nine : (signature_parse_compact seven_and_nine).1 ≡ true
unfolding signature_parse_compact set_b32 limb_of_bytes check_overflow reduce
parse_seven_and_nine = refl

serialize_small_object : signature_serialize_der 72 small_object ≡ (9, some small_signature)
unfolding signature_serialize_der
serialize_small_object = serialize_small
