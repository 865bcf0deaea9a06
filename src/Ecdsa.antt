-- ===== src/Ecdsa.antt =====
-- libsecp256k1/src/ecdsa_impl.h and secp256k1.c: signing and verifying.
pub mod Sign
pub mod Loop
pub mod Check
pub mod Result
mod Tests
use zipologger.Base.{ℕ, zero, suc, ◌+◌, Bool, true, false, not, ◌&&◌, ◌||◌, if◌then◌else◌}
use zipologger.Base.{List, Option, none, some, flag, u32, bit_or, bit_xor}
use zipologger.Scalar.{Scalar, add, negate, is_zero, is_high, set_b32, get_b32}
use zipologger.Scalar.Wide.{mul}
use zipologger.Scalar.Inverse.{inverse}
use zipologger.Signature.{Signature, cleared, signature_load, signature_save}
use zipologger.Curve.{Curve}

module _ (curve : Curve) where
  -- The scalar and the overflow from the x of nonce * G, and whether its y is odd.
  unfoldable pub nonce_point : Scalar → (Scalar × Bool) × Bool
  nonce_point nonce =
      let r = curve.ge_set_gej (curve.ecmult_gen nonce) in
      let x = curve.fe_normalize (curve.ge_x r) in
      let y = curve.fe_normalize (curve.ge_y r) in (set_b32 (curve.fe_get_b32 x), curve.fe_is_odd y)

  -- `*sigr`, `*sigs`, `*recid` and what the call returns.
  unfoldable pub sig_sign : Scalar → Scalar → Scalar → (Scalar × Scalar × ℕ) × Bool
  sig_sign seckey message nonce =
      let ((sigr, overflow), odd) = nonce_point nonce in
      let recid = bit_or (if overflow then 2 else 0) (flag odd) in
      let n = (add (mul sigr seckey) message).0 in
      let sigs = mul (inverse nonce) n in
      if is_zero sigs
      then ((sigr, sigs, recid), false)
      else if is_high sigs
      then ((sigr, negate sigs, bit_xor recid 1), true)
      else ((sigr, sigs, recid), true)

  -- One round of the `while (1)` of secp256k1_ecdsa_sign: `some none` if the nonce function fails,
  -- `none` if the loop goes on. `noncefp count` is the call of the nonce function.
  unfoldable pub attempt :
      (ℕ → Option (List ℕ)) → Scalar → Scalar → ℕ → Option (Option (Scalar × Scalar × ℕ))
  attempt noncefp sec msg count = elim (noncefp count) [
    | none ↦ some none
    | some nonce32 ↦
        let (non, overflow) = set_b32 nonce32 in
        let (sig, ok) = sig_sign sec msg non in
        if not overflow && not (is_zero non) && ok then some (some sig) else none
  ]

  -- The loop, on fuel: `none` if the fuel is used up. `count` is an `unsigned int`.
  unfoldable pub sign_loop :
      ℕ → (ℕ → Option (List ℕ)) → Scalar → Scalar → ℕ → Option (Option (Scalar × Scalar × ℕ))
  sign_loop zero noncefp sec msg count = none
  sign_loop (suc fuel) noncefp sec msg count =
      let rest = sign_loop fuel noncefp sec msg (u32 (count + 1)) in
      elim (attempt noncefp sec msg count) [ none ↦ rest | some out ↦ some out ]

  -- The signature after the call, and what it returns; `none` if the loop uses up its fuel.
  unfoldable pub ecdsa_sign :
      ℕ → (List ℕ → List ℕ → ℕ → Option (List ℕ)) → List ℕ → List ℕ → Option (Signature × Bool)
  ecdsa_sign fuel noncefp msg32 seckey =
      let (sec, overflow) = set_b32 seckey in
      let (msg, _) = set_b32 msg32 in
      if not overflow && not (is_zero sec)
      then elim (sign_loop fuel (noncefp msg32 seckey) sec msg 0) [
        | none ↦ none
        | some none ↦ some (cleared, false)
        | some (some (r, s, recid)) ↦ some (signature_save r s, true)
      ]
      else some (cleared, false)

  unfoldable pub sig_verify : Scalar → Scalar → curve.Ge → Scalar → Bool
  sig_verify sigr sigs pubkey message =
      let sn = inverse sigs in
      let u1 = mul sn message in
      let u2 = mul sn sigr in
      let pr = curve.ecmult (curve.gej_set_ge pubkey) u2 u1 in
      let xr = (curve.fe_set_b32 (get_b32 sigr)).0 in
      if is_zero sigr || is_zero sigs
      then false
      else if curve.gej_is_infinity pr
      then false
      else if curve.gej_eq_x_var xr pr
      then true
      else if curve.fe_cmp_ge xr curve.p_minus_order
      then false
      else curve.gej_eq_x_var (curve.fe_add xr curve.order_as_fe) pr
