-- ===== src/Recovery/Tests.antt =====
-- The theorems about recoverable signatures at a concrete signature.
use zipologger.Base.{arith}
use zipologger.Recovery.{RecoverableSignature, recoverable_signature_convert}
use zipologger.Signature.Compact.{IsSignature}

abbrev third : RecoverableSignature
third = record {
  rec_r = record { d0 = 5; d1 = 6; d2 = 7; d3 = 8 };
  rec_s = record { d0 = 9; d1 = 0; d2 = 0; d3 = 1 };
  rec_id = 3;
}

third-IsSignature : IsSignature (recoverable_signature_convert third)
unfolding recoverable_signature_convert
third-IsSignature = record { r_reduced = omega arith; s_reduced = omega arith }
