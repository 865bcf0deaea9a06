-- ===== src/Key.antt =====
-- libsecp256k1/src/secp256k1.c and eckey_impl.h: secret keys and the tweaks of them.
pub mod Verify
pub mod Tweak
mod Tests
use zipologger.Base.{ℕ, Bool, true, false, not, ◌&&◌, if◌then◌else◌, List, replicate}
use zipologger.Scalar.{Scalar, add, is_zero, set_b32, get_b32}
use zipologger.Scalar.Wide.{mul}

-- `secp256k1_ec_seckey_verify`
unfoldable pub seckey_verify : List ℕ → Bool
seckey_verify seckey = let (sec, overflow) = set_b32 seckey in not overflow && not (is_zero sec)

-- The key after the call, and what it returns.
unfoldable pub eckey_privkey_tweak_add : Scalar → Scalar → Scalar × Bool
eckey_privkey_tweak_add key tweak =
    let key' = (add key tweak).0 in (key', if is_zero key' then false else true)

unfoldable pub eckey_privkey_tweak_mul : Scalar → Scalar → Scalar × Bool
eckey_privkey_tweak_mul key tweak = if is_zero tweak then (key, false) else (mul key tweak, true)

-- The 32 bytes at `seckey` after the call, and what it returns.
unfoldable pub privkey_tweak_add : List ℕ → List ℕ → List ℕ × Bool
privkey_tweak_add seckey tweak =
    let (term, overflow) = set_b32 tweak in
    let sec = (set_b32 seckey).0 in
    let (sec', ok) = eckey_privkey_tweak_add sec term in
    if not overflow && ok then (get_b32 sec', true) else (replicate 32 0, false)

unfoldable pub privkey_tweak_mul : List ℕ → List ℕ → List ℕ × Bool
privkey_tweak_mul seckey tweak =
    let (factor, overflow) = set_b32 tweak in
    let sec = (set_b32 seckey).0 in
    let (sec', ok) = eckey_privkey_tweak_mul sec factor in
    if not overflow && ok then (get_b32 sec', true) else (replicate 32 0, false)
