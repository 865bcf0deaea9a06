-- ===== src/Ecdsa/Result.antt =====
-- What `secp256k1_ecdsa_sign` returns.
use zipologger.Base.{ℕ, ◌^◌, ◌≤◌, ◌<◌, ◌≡◌, ◌∙◌, ap, refl, sym, arith}
use zipologger.Base.{Bool, true, false, not, Bool-cases, inl, inr, Option, none, some, List, length}
use zipologger.Base.{
  guard-eq-some, and_true, not-true, some-injective, subst, ◌&&◌, ◌⊎◌, leb, ltb, false≢true,
}
use zipologger.Base.Bytes.{be, IsBytes}
use zipologger.Scalar.{Scalar, is_zero, set_b32}
use zipologger.Scalar.Value.{order, value, is_zero_iff, is_zero-false, IsReduced}
use zipologger.Scalar.Bytes.{set_b32_lem}
use zipologger.Signature.{Signature, cleared, signature_save}
use zipologger.Curve.{Curve, HasBytes}
use zipologger.Ecdsa.{attempt, sign_loop, sig_sign, nonce_point, ecdsa_sign}
use zipologger.Ecdsa.Sign.{IsSigned, sig_sign_lem, sig_sign_r, equation}
use zipologger.Ecdsa.Loop.{sign_loop_lem, sign_loop_sound}

-- `r` and `s` answer the signing equation of key d and message m for some nonce: r is the x of
-- nonce * G modulo n, and s the lower one of the two solutions, which are not 0.
pub record IsAnswer (curve : Curve) (d m r s : Scalar) : Type 0 where
  pub nonce : Scalar
  pub nonce_reduced : IsReduced nonce
  pub nonce_nonzero : 1 ≤ value nonce
  pub from_point : r ≡ ((nonce_point curve nonce).0).0
  pub signed :
      IsSigned r s true
        (equation (value nonce) (value ((nonce_point curve nonce).0).0) (value d) (value m))

module _ (curve : Curve) (laws : HasBytes curve) (d m : Scalar) where
  round :
      (found : Option (List ℕ)) (r s : Scalar) (recid : ℕ)
      → IsReduced d
      → IsReduced m
      → ((b : List ℕ) → found ≡ some b → IsBytes b × (length b ≡ 32))
      → attempt curve (λ i. found) d m 0 ≡ some (some (r, s, recid))
      → IsAnswer curve d m r s
  unfolding attempt
  round none r s recid ud um p h = cc
  round (some b) r s recid ud um p h =
      let k = (set_b32 b).0 in
      let out = sig_sign curve d m k in
      let uk = (set_b32_lem b (p b refl).0 (p b refl).1).0 in
      let g =
        guard-eq-some (not (set_b32 b).1 && not (is_zero k) && out.1) {x = some out.0}
          {a = some (r, s, recid)} h in
      let same : out.0 ≡ (r, s, recid) = some-injective out.0 (r, s, recid) g.1 in
      let a = and_true (not (set_b32 b).1 && not (is_zero k)) out.1 g.0 in
      let nonzero = not-true (is_zero k) (and_true (not (set_b32 b).1) (not (is_zero k)) a.0).1 in
      subst (λ (x : Scalar × Scalar × ℕ). IsAnswer curve d m x.0 x.1) same
        (record {
          nonce = k;
          nonce_reduced = uk;
          nonce_nonzero = is_zero-false k nonzero;
          from_point = sig_sign_r curve d m k;
          signed =
              subst
                (λ (t : Bool).
                  IsSigned out.0.0 out.0.1 t
                    (equation (value k) (value ((nonce_point curve k).0).0) (value d) (value m)))
                a.1 (sig_sign_lem curve laws d m k ud um uk);
        })

attempt_at :
    (curve : Curve) (noncefp : ℕ → Option (List ℕ)) (d m : Scalar) (i : ℕ)
    → attempt curve noncefp d m i ≡ attempt curve (λ j. noncefp i) d m 0
unfolding attempt
attempt_at curve noncefp d m i = refl

-- What the call makes of the end of its loop.
abbrev finish : Option (Option (Scalar × Scalar × ℕ)) → Option (Signature × Bool)
finish none = none
finish (some none) = some (cleared, false)
finish (some (some (r, s, recid))) = some (signature_save r s, true)

finished :
    (o : Option (Option (Scalar × Scalar × ℕ))) (sig : Signature)
    → finish o ≡ some (sig, true)
    → (recid : ℕ) × (o ≡ some (some (sig.sig_r, sig.sig_s, recid)))
finished none sig h = cc
finished (some none) sig h = absurd (
    false≢true (ap (λ (x : Signature × Bool). x.1) (some-injective (cleared, false) (sig, true) h)))
finished (some (some (r, s, recid))) sig h =
    let e : signature_save r s ≡ sig =
      ap (λ (x : Signature × Bool). x.0)
        (some-injective (signature_save r s, true) (sig, true) h) in
    (recid, ap (λ (x : Signature). some (some (x.sig_r, x.sig_s, recid))) e)

module _ (curve : Curve) (noncefp : List ℕ → List ℕ → ℕ → Option (List ℕ)) (msg32 seckey : List ℕ)
    (bytes_msg : IsBytes msg32) (length_msg : length msg32 ≡ 32) (bytes_key : IsBytes seckey)
    (length_key : length seckey ≡ 32) where
  is_key :
      1 ≤ be seckey
      → be seckey < order
      → ((set_b32 seckey).1 ≡ false) × (is_zero (set_b32 seckey).0 ≡ false)
  is_key p q =
      let s = set_b32_lem seckey bytes_key length_key in
      let z = is_zero_iff (set_b32 seckey).0 in ground arith

  sign_valid :
      (fuel : ℕ)
      → (set_b32 seckey).1 ≡ false
      → is_zero (set_b32 seckey).0 ≡ false
      → ecdsa_sign curve fuel noncefp msg32 seckey
        ≡ finish
            (sign_loop curve fuel (noncefp msg32 seckey) (set_b32 seckey).0 (set_b32 msg32).0 0)
  unfolding ecdsa_sign
  sign_valid fuel e e' = rw (e, e') refl

  -- A key that is 0 or at least n is refused whatever the nonces, and the signature is cleared.
  pub ecdsa_sign_refuses :
      (fuel : ℕ)
      → (be seckey ≡ 0) ⊎ (order ≤ be seckey)
      → ecdsa_sign curve fuel noncefp msg32 seckey ≡ some (cleared, false)
  unfolding ecdsa_sign
  ecdsa_sign_refuses fuel p =
      let s = set_b32_lem seckey bytes_key length_key in
      let z = is_zero_iff (set_b32 seckey).0 in
      elim (Bool-cases (set_b32 seckey).1) [
        | inl e ↦ rw e refl
        | inr e ↦ let e' : is_zero (set_b32 seckey).0 ≡ true = ground arith in rw (e, e') refl
      ]

  -- With a key from 1 to n - 1: if the k-th round is the first that ends the loop, and ends it with
  -- a signature, then any fuel above k returns this signature.
  pub ecdsa_sign_returns :
      (k fuel : ℕ) (r s : Scalar) (recid : ℕ)
      → 1 ≤ be seckey
      → be seckey < order
      → k < fuel
      → k < 2 ^ 32
      → ((i : ℕ)
          → i < k
          → attempt curve (noncefp msg32 seckey) (set_b32 seckey).0 (set_b32 msg32).0 i ≡ none)
      → attempt curve (noncefp msg32 seckey) (set_b32 seckey).0 (set_b32 msg32).0 k
        ≡ some (some (r, s, recid))
      → ecdsa_sign curve fuel noncefp msg32 seckey ≡ some (signature_save r s, true)
  ecdsa_sign_returns k fuel r s recid p q f w on end =
      let key = is_key p q in
      sign_valid fuel key.0 key.1
      ∙ ap finish (
          sign_loop_lem curve (noncefp msg32 seckey) (set_b32 seckey).0 (set_b32 msg32).0 k fuel 0
            (some (r, s, recid)) f (omega arith)
            (λ i j.
              ap (attempt curve (noncefp msg32 seckey) (set_b32 seckey).0 (set_b32 msg32).0)
                (omega arith)
              ∙ on i j)
            (ap (attempt curve (noncefp msg32 seckey) (set_b32 seckey).0 (set_b32 msg32).0)
                (omega arith)
              ∙ end))

  -- If field elements and nonces are serialized as 32 bytes: a signature that the call returns with
  -- 1, whatever the fuel, comes from a key from 1 to n - 1 and answers the signing equation of this
  -- key and the message, as `IsAnswer` says.
  pub ecdsa_sign_sound :
      HasBytes curve
      → ((i : ℕ) (b : List ℕ) → noncefp msg32 seckey i ≡ some b → IsBytes b × (length b ≡ 32))
      → (fuel : ℕ) (sig : Signature) → ecdsa_sign curve fuel noncefp msg32 seckey ≡ some (sig, true)
      → (1 ≤ be seckey)
        × (be seckey < order)
        × IsAnswer curve (set_b32 seckey).0 (set_b32 msg32).0 sig.sig_r sig.sig_s
  ecdsa_sign_sound laws nonces fuel sig h =
      elim (Bool-cases (leb 1 (be seckey) && ltb (be seckey) order)) [
        | inl e ↦
            let low : 1 ≤ be seckey = ground arith in
            let high : be seckey < order = ground arith in
            let key = is_key low high in
            let found =
              finished
                (sign_loop curve fuel (noncefp msg32 seckey) (set_b32 seckey).0 (set_b32 msg32).0 0)
                sig (sym (sign_valid fuel key.0 key.1) ∙ h) in
            let at_ =
              sign_loop_sound curve (noncefp msg32 seckey) (set_b32 seckey).0 (set_b32 msg32).0 fuel
                0 (some (sig.sig_r, sig.sig_s, found.0)) found.1 in
            (
              low,
              high,
              round curve laws (set_b32 seckey).0 (set_b32 msg32).0 (noncefp msg32 seckey at_.0)
                  sig.sig_r sig.sig_s found.0 (set_b32_lem seckey bytes_key length_key).0
                  (set_b32_lem msg32 bytes_msg length_msg).0 (nonces at_.0)
                  (sym (
                      attempt_at curve (noncefp msg32 seckey) (set_b32 seckey).0 (set_b32 msg32).0
                        at_.0)
                    ∙ at_.1),
            )
        | inr e ↦
            let bad : (be seckey ≡ 0) ⊎ (order ≤ be seckey) = ground arith in
            let no : (cleared, false) ≡ (sig, true) =
              some-injective (cleared, false) (sig, true) (sym (ecdsa_sign_refuses fuel bad) ∙ h) in
            let e : false ≡ true = ap (λ (x : Signature × Bool). x.1) no in absurd (false≢true e)
      ]
