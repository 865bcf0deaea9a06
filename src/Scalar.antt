-- ===== src/Scalar.antt =====
-- libsecp256k1/src/scalar_4x64_impl.h: scalars modulo the group order as four 64-bit limbs.
-- A C `int` that is only ever 0 or 1 is a `Bool`: on such values `x & ~y` is `x && not y`.
-- VERIFY_CHECK does nothing in the build that cgo makes, where VERIFY is not defined.
pub mod Value
pub mod Sum
pub mod Wide
pub mod Bytes
pub mod Inverse
mod Tests
use zipologger.Base.{ℕ, ◌+◌, ◌-◌, ◌*◌, ◌/◌, ◌%◌, ◌^◌, bit_or, bit_xor, List, [], ◌∷◌, get_or}
use zipologger.Base.{Bool, true, false, not, ◌&&◌, ◌||◌, ltb, leb, ◌==◌, if◌then◌else◌}
use zipologger.Base.{u8, u32, u64, u128, not64, shl64, flag}

-- `secp256k1_scalar`, the lowest limb first.
pub record Scalar : Type 0 where
  pub d0 : ℕ
  pub d1 : ℕ
  pub d2 : ℕ
  pub d3 : ℕ

-- SECP256K1_N_0 to SECP256K1_N_3
abbrev pub n_0 : ℕ
n_0 = 0xBFD25E8CD0364141

abbrev pub n_1 : ℕ
n_1 = 0xBAAEDCE6AF48A03B

abbrev pub n_2 : ℕ
n_2 = 0xFFFFFFFFFFFFFFFE

abbrev pub n_3 : ℕ
n_3 = 0xFFFFFFFFFFFFFFFF

-- SECP256K1_N_C_0 to SECP256K1_N_C_2
abbrev pub n_c_0 : ℕ
n_c_0 = u64 (not64 n_0 + 1)

abbrev pub n_c_1 : ℕ
n_c_1 = not64 n_1

abbrev pub n_c_2 : ℕ
n_c_2 = 1

-- SECP256K1_N_H_0 to SECP256K1_N_H_3
abbrev pub n_h_0 : ℕ
n_h_0 = 0xDFE92F46681B20A0

abbrev pub n_h_1 : ℕ
n_h_1 = 0x5D576E7357A4501D

abbrev pub n_h_2 : ℕ
n_h_2 = 0xFFFFFFFFFFFFFFFF

abbrev pub n_h_3 : ℕ
n_h_3 = 0x7FFFFFFFFFFFFFFF

unfoldable pub set_int : ℕ → Scalar
set_int v = record { d0 = v; d1 = 0; d2 = 0; d3 = 0 }

-- The `yes` and `no` of the source after each of its lines.
unfoldable pub check_overflow : Scalar → Bool
check_overflow a =
    let no1 = ltb a.d3 n_3 in
    let no2 = no1 || ltb a.d2 n_2 in
    let yes1 = ltb n_2 a.d2 && not no2 in
    let no3 = no2 || ltb a.d1 n_1 in
    let yes2 = yes1 || (ltb n_1 a.d1 && not no3) in yes2 || (leb n_0 a.d0 && not no3)

-- The new scalar; the source also returns `overflow` unchanged.
unfoldable pub reduce : Scalar → ℕ → Scalar
reduce r overflow =
    let t0 = u128 (r.d0 + overflow * n_c_0) in
    let t1 = u128 (t0 / 2 ^ 64 + (r.d1 + overflow * n_c_1)) in
    let t2 = u128 (t1 / 2 ^ 64 + (r.d2 + overflow * n_c_2)) in
    let t3 = u128 (t2 / 2 ^ 64 + r.d3) in
    record { d0 = u64 t0; d1 = u64 t1; d2 = u64 t2; d3 = u64 t3 }

-- The limb-wise sum before the reduction, and the carry out of it.
pub add_limbs : Scalar → Scalar → Scalar × ℕ
add_limbs a b =
    let t0 = u128 (a.d0 + b.d0) in
    let t1 = u128 (t0 / 2 ^ 64 + (a.d1 + b.d1)) in
    let t2 = u128 (t1 / 2 ^ 64 + (a.d2 + b.d2)) in
    let t3 = u128 (t2 / 2 ^ 64 + (a.d3 + b.d3)) in
    (record { d0 = u64 t0; d1 = u64 t1; d2 = u64 t2; d3 = u64 t3 }, t3 / 2 ^ 64)

-- The sum, and the `overflow` that the source returns.
pub add : Scalar → Scalar → Scalar × ℕ
add a b =
    let (r, t) = add_limbs a b in
    let overflow = t + flag (check_overflow r) in (reduce r overflow, overflow)

pub is_zero : Scalar → Bool
is_zero a = bit_or (bit_or (bit_or a.d0 a.d1) a.d2) a.d3 == 0

pub is_one : Scalar → Bool
is_one a = bit_or (bit_or (bit_or (bit_xor a.d0 1) a.d1) a.d2) a.d3 == 0

pub eq : Scalar → Scalar → Bool
eq a b =
    bit_or (bit_or (bit_or (bit_xor a.d0 b.d0) (bit_xor a.d1 b.d1)) (bit_xor a.d2 b.d2))
      (bit_xor a.d3 b.d3)
    == 0

-- `t & nonzero`, where `nonzero` is a `uint64_t` with all bits set or none.
abbrev pub mask : Bool → ℕ → ℕ
mask nonzero t = if nonzero then u64 t else 0

pub negate : Scalar → Scalar
negate a =
    let nonzero = not (is_zero a) in
    let t0 = u128 (not64 a.d0 + n_0 + 1) in
    let t1 = u128 (t0 / 2 ^ 64 + (not64 a.d1 + n_1)) in
    let t2 = u128 (t1 / 2 ^ 64 + (not64 a.d2 + n_2)) in
    let t3 = u128 (t2 / 2 ^ 64 + (not64 a.d3 + n_3)) in
    record {
      d0 = mask nonzero t0;
      d1 = mask nonzero t1;
      d2 = mask nonzero t2;
      d3 = mask nonzero t3;
    }

pub is_high : Scalar → Bool
is_high a =
    let no1 = ltb a.d3 n_h_3 in
    let yes1 = ltb n_h_3 a.d3 && not no1 in
    let no2 = no1 || (ltb a.d2 n_h_2 && not yes1) in
    let no3 = no2 || (ltb a.d1 n_h_1 && not yes1) in
    let yes2 = yes1 || (ltb n_h_1 a.d1 && not no3) in yes2 || (ltb n_h_0 a.d0 && not no3)

-- `mask` of the source has all bits set if `f`, and none otherwise: `x ^ mask` is `~x` or `x`,
-- and `x & mask` is `x` or 0. The second part is whether the source returns -1 (else it returns 1).
pub cond_negate : Scalar → Bool → Scalar × Bool
cond_negate r f =
    let flip = λ (x : ℕ). if f then not64 x else x in
    let keep = λ (x : ℕ). if f then x else 0 in
    let nonzero = not (is_zero r) in
    let t0 = u128 (flip r.d0 + keep (u64 (n_0 + 1))) in
    let t1 = u128 (t0 / 2 ^ 64 + (flip r.d1 + keep n_1)) in
    let t2 = u128 (t1 / 2 ^ 64 + (flip r.d2 + keep n_2)) in
    let t3 = u128 (t2 / 2 ^ 64 + (flip r.d3 + keep n_3)) in
    (
      record {
        d0 = mask nonzero t0;
        d1 = mask nonzero t1;
        d2 = mask nonzero t2;
        d3 = mask nonzero t3;
      },
      f,
    )

-- The shifted scalar and the bits shifted out; the source asks for 0 < n < 16.
pub shr_int : Scalar → ℕ → Scalar × ℕ
shr_int r n = (
  record {
    d0 = u64 (r.d0 / 2 ^ n + shl64 r.d1 (64 - n));
    d1 = u64 (r.d1 / 2 ^ n + shl64 r.d2 (64 - n));
    d2 = u64 (r.d2 / 2 ^ n + shl64 r.d3 (64 - n));
    d3 = r.d3 / 2 ^ n;
  },
  r.d0 % 2 ^ n,
)

pub split_128 : Scalar → Scalar × Scalar
split_128 a = (
  record { d0 = a.d0; d1 = a.d1; d2 = 0; d3 = 0 },
  record { d0 = a.d2; d1 = a.d3; d2 = 0; d3 = 0 },
)

-- A limb from the eight big-endian bytes that begin at index `i`.
unfoldable pub limb_of_bytes : List ℕ → ℕ → ℕ
limb_of_bytes b i =
    bit_or
      (bit_or
        (bit_or
          (bit_or
            (bit_or
              (bit_or (bit_or (get_or b (i + 7) 0) (shl64 (get_or b (i + 6) 0) 8))
                (shl64 (get_or b (i + 5) 0) 16))
              (shl64 (get_or b (i + 4) 0) 24))
            (shl64 (get_or b (i + 3) 0) 32))
          (shl64 (get_or b (i + 2) 0) 40))
        (shl64 (get_or b (i + 1) 0) 48))
      (shl64 (get_or b i 0) 56)

-- The scalar, and what the source stores through `overflow`.
unfoldable pub set_b32 : List ℕ → Scalar × Bool
unfolding limb_of_bytes
set_b32 b32 =
    let r : Scalar = record {
      d0 = limb_of_bytes b32 24;
      d1 = limb_of_bytes b32 16;
      d2 = limb_of_bytes b32 8;
      d3 = limb_of_bytes b32 0;
    } in
    let over = check_overflow r in (reduce r (flag over), over)

-- The eight bytes of a limb, the highest first, before `rest`.
unfoldable pub bytes_of_limb : ℕ → List ℕ → List ℕ
bytes_of_limb d rest =
    u8 (d / 2 ^ 56)
    ∷ u8 (d / 2 ^ 48)
    ∷ u8 (d / 2 ^ 40)
    ∷ u8 (d / 2 ^ 32)
    ∷ u8 (d / 2 ^ 24)
    ∷ u8 (d / 2 ^ 16)
    ∷ u8 (d / 2 ^ 8)
    ∷ u8 d
    ∷ rest

unfoldable pub get_b32 : Scalar → List ℕ
unfolding bytes_of_limb
get_b32 a = bytes_of_limb a.d3 (bytes_of_limb a.d2 (bytes_of_limb a.d1 (bytes_of_limb a.d0 [])))
