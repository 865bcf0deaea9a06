-- ===== src/Signature/Compact.antt =====
-- The compact form of signatures: 64 bytes, `r` before `s`.
use zipologger.Base.{ℕ, ◌<◌, ◌≡◌, refl, arith}
use zipologger.Base.{true, false, ◌↔◌, Bool-cases, inl, inr}
use zipologger.Base.{List, ◌++◌, length, take, drop, length-take, length-drop, take-append-drop}
use zipologger.Base.Bytes.{be, IsBytes, split-IsBytes}
use zipologger.Scalar.{Scalar, set_b32, get_b32}
use zipologger.Scalar.Value.{order, value, IsReduced}
use zipologger.Scalar.Bytes.{set_b32_lem, set_b32_fits, set_b32-get_b32, get_b32-set_b32}
use zipologger.Signature.{Signature, cleared, signature_parse_compact, signature_serialize_compact}

-- Both scalars are below the order.
pub record IsSignature (sig : Signature) : Type 0 where
  pub r_reduced : IsReduced sig.sig_r
  pub s_reduced : IsReduced sig.sig_s

pub take_r : (r s : Scalar) → take 32 (get_b32 r ++ get_b32 s) ≡ get_b32 r
unfolding get_b32
take_r r s = refl

pub drop_r : (r s : Scalar) → drop 32 (get_b32 r ++ get_b32 s) ≡ get_b32 s
unfolding get_b32
drop_r r s = refl

refuse :
    {P Q : Type 0}
    → ¬ P
    → ((false ≡ true) ↔ P) × (false ≡ true → Q) × (false ≡ false → cleared ≡ cleared)
refuse h = ((λ e. cc, λ p. absurd (h p)), λ e. cc, λ e. refl)

-- Of 64 bytes: the call returns 1 exactly when both numbers are below the order, and the object
-- then holds them; otherwise it is all zero.
pub signature_parse_compact_lem :
    (b : List ℕ)
    → IsBytes b
    → length b ≡ 64
    → let out = signature_parse_compact b in
      ((out.1 ≡ true) ↔ ((be (take 32 b) < order) × (be (drop 32 b) < order)))
      × (out.1 ≡ true
          → IsSignature out.0
            × (value out.0.sig_r ≡ be (take 32 b))
            × (value out.0.sig_s ≡ be (drop 32 b)))
      × (out.1 ≡ false → out.0 ≡ cleared)
unfolding signature_parse_compact
signature_parse_compact_lem b h l =
    let c = split-IsBytes 32 b h in
    let lr : length (take 32 b) ≡ 32 = omega (arith, length-take 32 b) in
    let ls : length (drop 32 b) ≡ 32 = omega (arith, length-drop 32 b) in
    let r = set_b32_lem (take 32 b) c.0 lr in
    let s = set_b32_lem (drop 32 b) c.1 ls in
    elim (Bool-cases (set_b32 (take 32 b)).1) [
      | inl e ↦ rw e (refuse (omega arith))
      | inr e ↦ elim (Bool-cases (set_b32 (drop 32 b)).1) [
        | inl e' ↦ rw (e, e') (refuse (omega arith))
        | inr e' ↦
            let fits_r = set_b32_fits (take 32 b) c.0 lr e in
            let fits_s = set_b32_fits (drop 32 b) c.1 ls e' in
            rw (e, e')
              (
                (λ p. (fits_r.0, fits_s.0), λ p. refl),
                λ p. (record { r_reduced = r.0; s_reduced = s.0 }, fits_r.1, fits_s.1),
                λ p. cc,
              )
      ]
    ]

-- A signature that is written in the compact form is read back.
pub signature_parse_compact-signature_serialize_compact :
    (sig : Signature)
    → IsSignature sig
    → signature_parse_compact (signature_serialize_compact sig) ≡ (sig, true)
unfolding signature_parse_compact signature_serialize_compact
signature_parse_compact-signature_serialize_compact sig v =
    rw
      (
        take_r sig.sig_r sig.sig_s,
        drop_r sig.sig_r sig.sig_s,
        set_b32-get_b32 sig.sig_r v.r_reduced,
        set_b32-get_b32 sig.sig_s v.s_reduced,
      )
      refl

accepted :
    (b : List ℕ)
    → get_b32 (set_b32 (take 32 b)).0 ≡ take 32 b
    → get_b32 (set_b32 (drop 32 b)).0 ≡ drop 32 b
    → (signature_parse_compact b).1 ≡ true
    → signature_serialize_compact (signature_parse_compact b).0 ≡ b
unfolding signature_parse_compact signature_serialize_compact
accepted b hr hs e = elim (Bool-cases (set_b32 (take 32 b)).1) [
  | inl x ↦ cc
  | inr x ↦ elim (Bool-cases (set_b32 (drop 32 b)).1) [
    | inl y ↦ cc
    | inr y ↦ rw (x, y, hr, hs) (take-append-drop 32 b)
  ]
]

-- The 64 bytes of an accepted signature are written back as they were read.
pub signature_serialize_compact-signature_parse_compact :
    (b : List ℕ)
    → IsBytes b
    → length b ≡ 64
    → (signature_parse_compact b).1 ≡ true
    → signature_serialize_compact (signature_parse_compact b).0 ≡ b
unfolding signature_parse_compact signature_serialize_compact
signature_serialize_compact-signature_parse_compact b h l e =
    let c = split-IsBytes 32 b h in
    let lr : length (take 32 b) ≡ 32 = omega (arith, length-take 32 b) in
    let ls : length (drop 32 b) ≡ 32 = omega (arith, length-drop 32 b) in
    let p = ((signature_parse_compact_lem b h l).0).0 e in
    accepted b (get_b32-set_b32 (take 32 b) c.0 lr p.0) (get_b32-set_b32 (drop 32 b) c.1 ls p.1) e
