-- ===== src/Scalar/Bytes.antt =====
-- Scalars as 32 big-endian bytes.
use zipologger.Base.{ℕ, ◌+◌, ◌*◌, ◌%◌, ◌^◌, ◌≤◌, ◌<◌, ◌≡◌, refl, ◌∙◌, ap, sym, arith}
use zipologger.Base.{List, [], ◌∷◌, length, get_or, tabulate_lem, bit_or, shl64, ◌↔◌, true, false}
use zipologger.Base.Bits.{bit_or_low}
use zipologger.Base.Bytes.{be, IsBytes, get_or-IsBytes, be_injective}
use zipologger.Scalar.{Scalar, limb_of_bytes, set_b32, get_b32}
use zipologger.Scalar.Value.{order, value, IsLimbs, IsReduced, check_overflow_iff, value_injective}
use zipologger.Scalar.Sum.{reduce-mod}
use native.Mathlib.Nat.{mod-eq_of_lt}

or_byte :
    (k acc x : ℕ) → acc < 2 ^ k → x * 2 ^ k < 2 ^ 64 → bit_or acc (shl64 x k) ≡ acc + x * 2 ^ k
or_byte k acc x h l = ap (bit_or acc) (mod-eq_of_lt l) ∙ bit_or_low k acc x h

-- Eight bytes joined by shifts and `|` are a sum.
or_bytes :
    (x0 x1 x2 x3 x4 x5 x6 x7 : ℕ)
    → IsBytes (x0 ∷ x1 ∷ x2 ∷ x3 ∷ x4 ∷ x5 ∷ x6 ∷ x7 ∷ [])
    → bit_or
        (bit_or
          (bit_or
            (bit_or
              (bit_or (bit_or (bit_or x0 (shl64 x1 8)) (shl64 x2 16)) (shl64 x3 24))
              (shl64 x4 32))
            (shl64 x5 40))
          (shl64 x6 48))
        (shl64 x7 56)
      ≡ x0
        + x1 * 2 ^ 8
        + x2 * 2 ^ 16
        + x3 * 2 ^ 24
        + x4 * 2 ^ 32
        + x5 * 2 ^ 40
        + x6 * 2 ^ 48
        + x7 * 2 ^ 56
or_bytes x0 x1 x2 x3 x4 x5 x6 x7 h =
    let s1 : ℕ = x0 + x1 * 2 ^ 8 in
    let s2 : ℕ = s1 + x2 * 2 ^ 16 in
    let s3 : ℕ = s2 + x3 * 2 ^ 24 in
    let s4 : ℕ = s3 + x4 * 2 ^ 32 in
    let s5 : ℕ = s4 + x5 * 2 ^ 40 in
    let s6 : ℕ = s5 + x6 * 2 ^ 48 in
    rw (
      or_byte 8 x0 x1 (omega arith) (omega arith),
      or_byte 16 s1 x2 (omega arith) (omega arith),
      or_byte 24 s2 x3 (omega arith) (omega arith),
      or_byte 32 s3 x4 (omega arith) (omega arith),
      or_byte 40 s4 x5 (omega arith) (omega arith),
      or_byte 48 s5 x6 (omega arith) (omega arith),
      or_byte 56 s6 x7 (omega arith) (omega arith),
    )

-- The number that eight bytes from index `i` on stand for, the first the highest.
abbrev word_at : List ℕ → ℕ → ℕ
word_at b i =
    get_or b (i + 7) 0
    + get_or b (i + 6) 0 * 2 ^ 8
    + get_or b (i + 5) 0 * 2 ^ 16
    + get_or b (i + 4) 0 * 2 ^ 24
    + get_or b (i + 3) 0 * 2 ^ 32
    + get_or b (i + 2) 0 * 2 ^ 40
    + get_or b (i + 1) 0 * 2 ^ 48
    + get_or b i 0 * 2 ^ 56

module _ (b : List ℕ) (i : ℕ) (h : IsBytes b) where
  eight-IsBytes : IsBytes (
      get_or b (i + 7) 0
      ∷ get_or b (i + 6) 0
      ∷ get_or b (i + 5) 0
      ∷ get_or b (i + 4) 0
      ∷ get_or b (i + 3) 0
      ∷ get_or b (i + 2) 0
      ∷ get_or b (i + 1) 0
      ∷ get_or b i 0
      ∷ [])
  eight-IsBytes =
      let byte = λ (j : ℕ). get_or-IsBytes b j h in
      omega (
        arith,
        byte (i + 7),
        byte (i + 6),
        byte (i + 5),
        byte (i + 4),
        byte (i + 3),
        byte (i + 2),
        byte (i + 1),
        byte i,
      )

  limb_value : (limb_of_bytes b i ≡ word_at b i) × (limb_of_bytes b i < 2 ^ 64)
  unfolding limb_of_bytes
  limb_value =
      let e =
        or_bytes (get_or b (i + 7) 0) (get_or b (i + 6) 0) (get_or b (i + 5) 0) (get_or b (i + 4) 0)
          (get_or b (i + 3) 0) (get_or b (i + 2) 0) (get_or b (i + 1) 0) (get_or b i 0)
          eight-IsBytes in
      (e, omega (arith, e, eight-IsBytes))

-- The limbs that `secp256k1_scalar_set_b32` reads, before the reduction.
abbrev read : List ℕ → Scalar
read b = record {
  d0 = limb_of_bytes b 24;
  d1 = limb_of_bytes b 16;
  d2 = limb_of_bytes b 8;
  d3 = limb_of_bytes b 0;
}

read-value : (b : List ℕ) → IsBytes b → length b ≡ 32 → IsLimbs (read b) × (value (read b) ≡ be b)
read-value b h l =
    let e = ap be (tabulate_lem b 0 32 l) in
    omega (arith, limb_value b 24 h, limb_value b 16 h, limb_value b 8 h, limb_value b 0 h, e)

-- `secp256k1_scalar_set_b32` reads 32 bytes as a big-endian number, modulo the order, and stores
-- through `overflow` whether the number reaches the order.
pub set_b32_lem :
    (b : List ℕ)
    → IsBytes b
    → length b ≡ 32
    → IsReduced (set_b32 b).0
      × (value (set_b32 b).0 ≡ be b % order)
      × (((set_b32 b).1 ≡ true) ↔ (order ≤ be b))
unfolding set_b32
set_b32_lem b h l =
    let r = read-value b h l in
    let m = reduce-mod (read b) r.0 in
    let o = check_overflow_iff (read b) r.0 in (m.0, omega (arith, m.1, r.1), rw r.1 at o)

pub set_b32_over : (b : List ℕ) → IsBytes b → length b ≡ 32 → (set_b32 b).1 ≡ true → order ≤ be b
set_b32_over b h l e = ((set_b32_lem b h l).2).0 e

pub set_b32_fits :
    (b : List ℕ)
    → IsBytes b
    → length b ≡ 32
    → (set_b32 b).1 ≡ false
    → (be b < order) × (value (set_b32 b).0 ≡ be b)
set_b32_fits b h l e = let s = set_b32_lem b h l in ground arith

-- `secp256k1_scalar_get_b32` writes 32 bytes.
pub get_b32-length : (a : Scalar) → length (get_b32 a) ≡ 32
unfolding get_b32
get_b32-length a = refl

-- They are bytes, and stand for the number.
pub get_b32_lem : (a : Scalar) → IsLimbs a → IsBytes (get_b32 a) × (be (get_b32 a) ≡ value a)
unfolding get_b32
get_b32_lem a u = omega arith

-- Of a scalar below the order, reading what was written gives the scalar back, with no overflow.
pub set_b32-get_b32 : (a : Scalar) → IsReduced a → set_b32 (get_b32 a) ≡ (a, false)
set_b32-get_b32 a u =
    let g = get_b32_lem a u.limbs in
    let s = set_b32_lem (get_b32 a) g.0 (get_b32-length a) in
    ground (
      arith,
      value_injective (set_b32 (get_b32 a)).0 a s.0.limbs u.limbs
          (omega (arith, s.1, g.1, u.below)),
      s.2,
      g.1,
      u.below,
    )

-- The 32 bytes of a number below the order are written back as they were read.
pub get_b32-set_b32 :
    (b : List ℕ) → IsBytes b → length b ≡ 32 → be b < order → get_b32 (set_b32 b).0 ≡ b
get_b32-set_b32 b h l p =
    let s = set_b32_lem b h l in
    let g = get_b32_lem (set_b32 b).0 s.0.limbs in
    be_injective (get_b32 (set_b32 b).0) b g.0 h (get_b32-length (set_b32 b).0 ∙ sym l)
      (omega (arith, s.1, g.1))
