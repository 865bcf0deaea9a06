-- ===== src/Pubkey/Tests.antt =====
-- Tweaks of public keys at a concrete instance of the curve's operations.
use zipologger.Base.{◌≡◌, refl, replicate, false}
use zipologger.Curve.Sample.{sample}
use zipologger.Pubkey.{cleared_key, pubkey_tweak, pubkey_tweak_add, pubkey_tweak_mul}
use zipologger.Scalar.{set_b32, limb_of_bytes, check_overflow, reduce}

-- A tweak of all ones is at least the order: the key is cleared.
tweak_too_large :
    (pubkey_tweak_add sample (replicate 64 1) (replicate 32 255) ≡ (cleared_key, false))
    × (pubkey_tweak_mul sample (replicate 64 1) (replicate 32 255) ≡ (cleared_key, false))
unfolding pubkey_tweak_add pubkey_tweak_mul pubkey_tweak set_b32 limb_of_bytes check_overflow reduce
tweak_too_large = (refl, refl)
