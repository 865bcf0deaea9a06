-- ===== src/Der/Minimal.antt =====
-- The shortest form of a nonnegative integer: what `strip` makes, and what the parser undoes.
use zipologger.Base.{ℕ, zero, suc, ◌-◌, ◌*◌, ◌^◌, ◌≤◌, ◌<◌, ◌≡◌, refl, ◌∙◌, arith}
use zipologger.Base.{false, inl, inr, List, [], ◌∷◌, ◌++◌, length, length-append, replicate}
use zipologger.Base.{length-replicate, take-append, ltb, ltb→ge, Bool-cases}
use zipologger.Base.Bytes.{be, IsBytes, be-cons, be-replicate, append-IsBytes, replicate-IsBytes}
use native.Mathlib.Nat.{pow-le-pow_right}
use zipologger.Scalar.{Scalar, set_b32}
use zipologger.Scalar.Value.{value, IsReduced, value_injective}
use zipologger.Scalar.Bytes.{set_b32_lem}
use zipologger.Der.{strip, skip_zeros, scalar_of}

-- One byte at least, the sign bit clear, and no zero byte in front that could be left out.
abbrev pub IsMinimal : List ℕ → Type 0
IsMinimal [] = ⊥
IsMinimal (x ∷ []) = x < 128
IsMinimal (x ∷ y ∷ bs) = (x < 128) × (x ≡ 0 → 128 ≤ y)

abbrev pub Starts : List ℕ → Type 0
Starts [] = ⊥
Starts (x ∷ bs) = x < 128

-- From bytes that begin below 128 `strip` makes the shortest form of the same number.
pub record IsStripped (bs out : List ℕ) : Type 0 where
  pub minimal : IsMinimal out
  pub bytes : IsBytes out
  pub same : be out ≡ be bs
  pub shorter : length out ≤ length bs

pub strip_lem : (bs : List ℕ) → IsBytes bs → Starts bs → IsStripped bs (strip bs)
unfolding strip
strip_lem [] h s = absurd s
strip_lem (x ∷ []) h s = record { minimal = s; bytes = h; same = refl; shorter = omega arith }
strip_lem (zero ∷ y ∷ bs) h s = elim (Bool-cases (ltb y 128)) [
  | inl e ↦ rw e (
      let r = strip_lem (y ∷ bs) h.1 (ground arith) in
      record {
        minimal = r.minimal;
        bytes = r.bytes;
        same = r.same;
        shorter = omega (arith, r.shorter);
      })
  | inr e ↦ rw e (record {
    minimal = (omega arith, λ _. ground arith);
    bytes = h;
    same = refl;
    shorter = omega arith;
  })
]
strip_lem (suc x ∷ y ∷ bs) h s =
    let e : strip (suc x ∷ y ∷ bs) ≡ suc x ∷ y ∷ bs = ground arith in
    rw e (record {
      minimal = (s, λ e. absurd (omega arith));
      bytes = h;
      same = refl;
      shorter = omega arith;
    })

-- What is left of bytes without the zero bytes in front.
pub drop_zeros : List ℕ → List ℕ
drop_zeros [] = []
drop_zeros (zero ∷ bs) = drop_zeros bs
drop_zeros (suc b ∷ bs) = suc b ∷ bs

pub skip_zeros-append :
    (bs rest : List ℕ)
    → skip_zeros (length bs) (bs ++ rest) ≡ (length (drop_zeros bs), drop_zeros bs ++ rest)
unfolding skip_zeros drop_zeros
skip_zeros-append [] rest = refl
skip_zeros-append (zero ∷ bs) rest = skip_zeros-append bs rest
skip_zeros-append (suc b ∷ bs) rest = ground arith

pub drop_zeros-IsBytes : (bs : List ℕ) → IsBytes bs → IsBytes (drop_zeros bs)
unfolding drop_zeros
drop_zeros-IsBytes [] h = tt
drop_zeros-IsBytes (zero ∷ bs) h = drop_zeros-IsBytes bs h.1
drop_zeros-IsBytes (suc b ∷ bs) h = h

pub be-drop_zeros : (bs : List ℕ) → be (drop_zeros bs) ≡ be bs
unfolding drop_zeros
be-drop_zeros [] = refl
be-drop_zeros (zero ∷ bs) = be-drop_zeros bs
be-drop_zeros (suc b ∷ bs) = refl

-- Without zero bytes in front, a number below 2^256 has at most 32 bytes.
pub length-drop_zeros : (bs : List ℕ) → IsBytes bs → be bs < 2 ^ 256 → length (drop_zeros bs) ≤ 32
unfolding drop_zeros
length-drop_zeros [] h l = omega arith
length-drop_zeros (zero ∷ bs) h l = length-drop_zeros bs h.1 l
length-drop_zeros (suc b ∷ bs) h l = elim (Bool-cases (ltb (length bs) 32)) [
  | inl e ↦ ground arith
  | inr e ↦
      let long : 32 ≤ length bs = ltb→ge (length bs) 32 e in
      let big : 256 ^ 32 ≤ 256 ^ length bs = pow-le-pow_right (omega arith) long in
      let lead : 256 ^ length bs ≤ suc b * 256 ^ length bs = grind arith in
      absurd (omega (arith, be-cons (suc b) bs))
]

-- Reading a scalar from bytes that stand for it.
pub set_b32_of :
    (b : List ℕ) (a : Scalar)
    → IsBytes b
    → length b ≡ 32
    → IsReduced a
    → be b ≡ value a
    → set_b32 b ≡ (a, false)
set_b32_of b a h l u e =
    let s = set_b32_lem b h l in
    ground (
      arith,
      value_injective (set_b32 b).0 a s.0.limbs u.limbs (omega (arith, s.1, u.below)),
      s.2,
      u.below,
    )

-- What the parser makes of at most 32 bytes that stand for a scalar: that scalar.
pub scalar_of-append :
    (bs rest : List ℕ) (a : Scalar)
    → IsBytes bs
    → length bs ≤ 32
    → IsReduced a
    → be bs ≡ value a
    → scalar_of false (length bs) (bs ++ rest) ≡ a
unfolding scalar_of
scalar_of-append bs rest a h l u e =
    let padded = replicate (32 - length bs) 0 ++ bs in
    let size : length padded ≡ 32 = omega (
      arith,
      length-append (replicate (32 - length bs) 0) bs,
      length-replicate {A = ℕ} (32 - length bs) 0,
    ) in
    let whole =
      set_b32_of padded a
        (append-IsBytes (replicate (32 - length bs) 0) bs (replicate-IsBytes (32 - length bs)) h)
        size u (be-replicate (32 - length bs) bs ∙ e) in
    rw (take-append bs rest, whole)
