-- ===== src/Signature.antt =====
-- libsecp256k1/src/secp256k1.c: the signature objects of the library's interface.
-- `sizeof(secp256k1_scalar)` is 32, so that the 64 bytes of an object are the memory of its two
-- scalars. A pointer argument is what it points to, and is not NULL.
pub mod Compact
pub mod Normal
pub mod Encoding
mod Tests
use zipologger.Base.{ℕ, Bool, true, false, not, ◌&&◌, if◌then◌else◌}
use zipologger.Base.{List, ◌++◌, take, drop, Option, none, some}
use zipologger.Scalar.{Scalar, set_int, negate, is_high, set_b32, get_b32}
use zipologger.Der.{sig_parse, sig_serialize}

-- `secp256k1_ecdsa_signature`
pub record Signature : Type 0 where
  pub sig_r : Scalar
  pub sig_s : Scalar

-- The object after `memset(sig, 0, sizeof(*sig))`.
abbrev pub cleared : Signature
cleared = record { sig_r = set_int 0; sig_s = set_int 0 }

abbrev pub signature_save : Scalar → Scalar → Signature
signature_save r s = record { sig_r = r; sig_s = s }

abbrev pub signature_load : Signature → Scalar × Scalar
signature_load sig = (sig.sig_r, sig.sig_s)

-- Each of the following gives what the call leaves in its output, and what it returns.
pub signature_parse_der : List ℕ → Signature × Bool
signature_parse_der input = elim (sig_parse input) [
  | none ↦ (cleared, false)
  | some (r, s) ↦ (signature_save r s, true)
]

unfoldable pub signature_parse_compact : List ℕ → Signature × Bool
signature_parse_compact input64 =
    let (r, over_r) = set_b32 (take 32 input64) in
    let (s, over_s) = set_b32 (drop 32 input64) in
    if not over_r && not over_s then (signature_save r s, true) else (cleared, false)

-- `*outputlen` after the call, and the bytes written if it returns 1.
pub signature_serialize_der : ℕ → Signature → ℕ × Option (List ℕ)
signature_serialize_der outputlen sig =
    let (r, s) = signature_load sig in sig_serialize outputlen r s

unfoldable pub signature_serialize_compact : Signature → List ℕ
signature_serialize_compact sig = let (r, s) = signature_load sig in get_b32 r ++ get_b32 s

unfoldable pub signature_normalize : Signature → Signature × Bool
signature_normalize sigin =
    let (r, s) = signature_load sigin in
    let ret = is_high s in (signature_save r (if ret then negate s else s), ret)
