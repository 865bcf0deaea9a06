-- ===== src/Pubkey.antt =====
-- libsecp256k1/src/eckey_impl.h and secp256k1.c: public keys. The object of a public key is the 64
-- bytes of its point in storage form; `sizeof(secp256k1_ge_storage)` is 64.
mod Tests
use zipologger.Base.{
  ℕ, zero, suc, Bool, true, false, not, ◌&&◌, ◌||◌, ◌==◌, if◌then◌else◌, ltb, flag,
}
use zipologger.Base.{List, [], ◌∷◌, ◌++◌, length, get_or, take, drop, replicate, Option, none, some}
use zipologger.Base.{bit_or}
use zipologger.Scalar.{Scalar, set_int, is_zero, set_b32}
use zipologger.Curve.{Curve}

-- The object after `memset(pubkey, 0, sizeof(*pubkey))`.
abbrev pub cleared_key : List ℕ
cleared_key = replicate 64 0

module _ (curve : Curve) where
  -- `none` is the return of 0.
  unfoldable pub eckey_pubkey_parse : List ℕ → Option curve.Ge
  eckey_pubkey_parse pub' =
      let size = length pub' in
      let tag = get_or pub' 0 0 in
      let (x, x_ok) = curve.fe_set_b32 (take 32 (drop 1 pub')) in
      let (y, y_ok) = curve.fe_set_b32 (take 32 (drop 33 pub')) in
      let elem = curve.ge_set_xy x y in
      if size == 33 && (tag == 0x02 || tag == 0x03)
      then if x_ok then curve.ge_set_xo_var x (tag == 0x03) else none
      else if size == 65 && (tag == 0x04 || tag == 0x06 || tag == 0x07)
      then if not x_ok || not y_ok
        then none
        else if (tag == 0x06 || tag == 0x07) && differs (curve.fe_is_odd y) (tag == 0x07)
        then none
        else if curve.ge_is_valid_var elem
        then some elem
        else none
      else none
    where
      differs : Bool → Bool → Bool
      differs a b = if a then not b else b

  -- The bytes written, and so `*size`; `none` is the return of 0.
  unfoldable pub eckey_pubkey_serialize : curve.Ge → Bool → Option (List ℕ)
  eckey_pubkey_serialize elem compressed =
      let x = curve.fe_normalize (curve.ge_x elem) in
      let y = curve.fe_normalize (curve.ge_y elem) in
      if curve.ge_is_infinity elem
      then none
      else if compressed
      then some (bit_or 0x02 (flag (curve.fe_is_odd y)) ∷ curve.fe_get_b32 x)
      else some (0x04 ∷ (curve.fe_get_b32 x ++ curve.fe_get_b32 y))

  -- The point, and what the call returns: ARG_CHECK refuses an x of 0.
  unfoldable pub pubkey_load : List ℕ → curve.Ge × Bool
  pubkey_load pubkey =
      let ge = curve.ge_from_storage pubkey in (ge, not (curve.fe_is_zero (curve.ge_x ge)))

  unfoldable pub pubkey_save : curve.Ge → List ℕ
  pubkey_save ge = curve.ge_to_storage ge

  -- The following give what the call leaves in `*pubkey`, and what it returns.
  unfoldable pub pubkey_parse : List ℕ → List ℕ × Bool
  pubkey_parse input = elim (eckey_pubkey_parse input) [
    | none ↦ (cleared_key, false)
    | some q ↦ (pubkey_save q, true)
  ]

  unfoldable pub pubkey_create : List ℕ → List ℕ × Bool
  pubkey_create seckey =
      let (sec, overflow) = set_b32 seckey in
      if not overflow && not (is_zero sec)
      then (pubkey_save (curve.ge_set_gej (curve.ecmult_gen sec)), true)
      else (cleared_key, false)

  -- The key after the call, and what it returns.
  unfoldable pub eckey_pubkey_tweak_add : curve.Ge → Scalar → curve.Ge × Bool
  eckey_pubkey_tweak_add key tweak =
      let pt = curve.ecmult (curve.gej_set_ge key) (set_int 1) tweak in
      if curve.gej_is_infinity pt then (key, false) else (curve.ge_set_gej pt, true)

  unfoldable pub eckey_pubkey_tweak_mul : curve.Ge → Scalar → curve.Ge × Bool
  eckey_pubkey_tweak_mul key tweak =
      let pt = curve.ecmult (curve.gej_set_ge key) tweak (set_int 0) in
      if is_zero tweak then (key, false) else (curve.ge_set_gej pt, true)

  -- The common shape of secp256k1_ec_pubkey_tweak_add and secp256k1_ec_pubkey_tweak_mul.
  unfoldable pub pubkey_tweak :
      (curve.Ge → Scalar → curve.Ge × Bool) → List ℕ → List ℕ → List ℕ × Bool
  pubkey_tweak eckey_tweak pubkey tweak =
      let (term, overflow) = set_b32 tweak in
      let (p, loaded) = pubkey_load pubkey in
      let (p', ok) = eckey_tweak p term in
      if not overflow && loaded && ok then (pubkey_save p', true) else (cleared_key, false)

  pub pubkey_tweak_add : List ℕ → List ℕ → List ℕ × Bool
  pubkey_tweak_add = pubkey_tweak eckey_pubkey_tweak_add

  pub pubkey_tweak_mul : List ℕ → List ℕ → List ℕ × Bool
  pubkey_tweak_mul = pubkey_tweak eckey_pubkey_tweak_mul

  -- The loop of secp256k1_ec_pubkey_combine. The result of each load is not looked at.
  unfoldable pub combine_loop : curve.Gej → List (List ℕ) → curve.Gej
  combine_loop qj [] = qj
  combine_loop qj (p ∷ ps) = combine_loop (curve.gej_add_ge qj (pubkey_load p).0) ps

  unfoldable pub pubkey_combine : List (List ℕ) → List ℕ × Bool
  pubkey_combine pubnonces =
      let qj = combine_loop curve.gej_infinity pubnonces in
      if length pubnonces == 0
      then (cleared_key, false)
      else if curve.gej_is_infinity qj
      then (cleared_key, false)
      else (pubkey_save (curve.ge_set_gej qj), true)

  -- `flags` is SECP256K1_EC_COMPRESSED or SECP256K1_EC_UNCOMPRESSED. The result is the
  -- serialization, at the beginning of `output`; `none` is the return of 0.
  unfoldable pub pubkey_serialize : ℕ → List ℕ → Bool → Option (List ℕ)
  pubkey_serialize outputlen pubkey compressed =
      let (q, loaded) = pubkey_load pubkey in
      if ltb outputlen (if compressed then 33 else 65)
      then none
      else if loaded
      then eckey_pubkey_serialize q compressed
      else none
