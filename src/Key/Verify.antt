-- ===== src/Key/Verify.antt =====
-- Which 32 bytes are a secret key.
use zipologger.Base.{ℕ, ◌≤◌, ◌<◌, ◌≡◌, arith}
use zipologger.Base.{true, ◌↔◌, List, length}
use zipologger.Base.Bytes.{be, IsBytes}
use zipologger.Scalar.{set_b32}
use zipologger.Scalar.Value.{order, is_zero_iff}
use zipologger.Scalar.Bytes.{set_b32_lem}
use zipologger.Key.{seckey_verify}

-- `secp256k1_ec_seckey_verify` accepts exactly the numbers from 1 to n - 1.
pub seckey_verify_iff :
    (b : List ℕ)
    → IsBytes b
    → length b ≡ 32
    → (seckey_verify b ≡ true) ↔ ((1 ≤ be b) × (be b < order))
unfolding seckey_verify
seckey_verify_iff b h l =
    let s = set_b32_lem b h l in let z = is_zero_iff (set_b32 b).0 in ground arith
