-- ===== src/Base/Bits.antt =====
-- `|` and `^` at variables: when a result is zero, and that `|` of disjoint fields is a sum.
use Prim.Native.Nat.{ℕ, zero, suc, ◌+◌, ◌*◌, ◌/◌, ◌%◌, ◌^◌, ◌≤◌, ◌<◌, max, digits, differ}
use Prim.Native.Nat.{bit_or, bit_xor, bit_or-bitwise, bit_xor-bitwise}
use mathlib.Core.Path.{◌≡◌, refl, ap, ◌∙◌}
use mathlib.Core.Logic.{◌↔◌}
use native.Mathlib.Nat.{pow-suc}
use native.Mathlib.Omega.{arith}

module _ (f : ℕ → ℕ → ℕ) where
  -- More fuel than digits changes nothing.
  digits_fuel : (n m a b : ℕ) → a ≤ n → a ≤ m → digits (λ y. y) f n a b ≡ digits (λ y. y) f m a b
  digits_fuel zero zero zero b p q = refl
  digits_fuel zero (suc m) zero b p q = refl
  digits_fuel (suc n) zero zero b p q = refl
  digits_fuel (suc n) (suc m) zero b p q = refl
  digits_fuel zero m (suc a) b p q = absurd (omega arith)
  digits_fuel (suc n) zero (suc a) b p q = absurd (omega arith)
  digits_fuel (suc n) (suc m) (suc a) b p q =
      omega (arith, digits_fuel n m (suc a / 2) (b / 2) (omega arith) (omega arith))

pub bit_or_step : (a b : ℕ) → bit_or a b ≡ bit_or (a / 2) (b / 2) * 2 + max (a % 2) (b % 2)
bit_or_step zero b = omega (arith, bit_or-bitwise 0 b, bit_or-bitwise 0 (b / 2))
bit_or_step (suc a) b = omega (
  arith,
  bit_or-bitwise (suc a) b,
  bit_or-bitwise (suc a / 2) (b / 2),
  digits_fuel max a (suc a / 2) (suc a / 2) (b / 2) (omega arith) (omega arith),
)

bit_xor_step : (a b : ℕ) → bit_xor a b ≡ bit_xor (a / 2) (b / 2) * 2 + differ (a % 2) (b % 2)
bit_xor_step zero b = ground (arith, bit_xor-bitwise 0 b, bit_xor-bitwise 0 (b / 2))
bit_xor_step (suc a) b = omega (
  arith,
  bit_xor-bitwise (suc a) b,
  bit_xor-bitwise (suc a / 2) (b / 2),
  digits_fuel differ a (suc a / 2) (suc a / 2) (b / 2) (omega arith) (omega arith),
)

differ_bounds : (x y : ℕ) → (x ≤ differ x y + y) × (y ≤ differ x y + x)
differ_bounds zero y = omega arith
differ_bounds (suc x) zero = omega arith
differ_bounds (suc x) (suc y) = omega (arith, differ_bounds x y)

differ_self : (x : ℕ) → differ x x ≡ 0
differ_self zero = refl
differ_self (suc x) = differ_self x

bit_or-eq-zero_fuel : (n a b : ℕ) → a ≤ n → bit_or a b ≡ 0 → (a ≡ 0) × (b ≡ 0)
bit_or-eq-zero_fuel n zero b h e = (refl, omega (arith, bit_or-bitwise 0 b))
bit_or-eq-zero_fuel zero (suc a) b h e = absurd (omega arith)
bit_or-eq-zero_fuel (suc n) (suc a) b h e =
    let e' : bit_or (suc a / 2) (b / 2) ≡ 0 = omega (arith, bit_or_step (suc a) b) in
    omega (arith, bit_or_step (suc a) b, bit_or-eq-zero_fuel n (suc a / 2) (b / 2) (omega arith) e')

-- `a | b` is zero exactly when both are.
pub bit_or-eq-zero : (a b : ℕ) → (bit_or a b ≡ 0) ↔ ((a ≡ 0) × (b ≡ 0))
bit_or-eq-zero a b = (bit_or-eq-zero_fuel a a b (omega arith), λ h. rw (h.0, h.1))

bit_xor-eq-zero_fuel : (n a b : ℕ) → a ≤ n → bit_xor a b ≡ 0 → a ≡ b
bit_xor-eq-zero_fuel n zero b h e = omega (arith, bit_xor-bitwise 0 b)
bit_xor-eq-zero_fuel zero (suc a) b h e = absurd (omega arith)
bit_xor-eq-zero_fuel (suc n) (suc a) b h e =
    let e' : bit_xor (suc a / 2) (b / 2) ≡ 0 = omega (arith, bit_xor_step (suc a) b) in
    omega (
      arith,
      bit_xor_step (suc a) b,
      differ_bounds (suc a % 2) (b % 2),
      bit_xor-eq-zero_fuel n (suc a / 2) (b / 2) (omega arith) e',
    )

bit_xor_self_fuel : (n a : ℕ) → a ≤ n → bit_xor a a ≡ 0
bit_xor_self_fuel n zero h = refl
bit_xor_self_fuel zero (suc a) h = absurd (omega arith)
bit_xor_self_fuel (suc n) (suc a) h = omega (
  arith,
  bit_xor_step (suc a) (suc a),
  differ_self (suc a % 2),
  bit_xor_self_fuel n (suc a / 2) (omega arith),
)

-- `a ^ b` is zero exactly when the two are equal.
pub bit_xor-eq-zero : (a b : ℕ) → (bit_xor a b ≡ 0) ↔ (a ≡ b)
bit_xor-eq-zero a b =
    (bit_xor-eq-zero_fuel a a b (omega arith), λ e. rw e (bit_xor_self_fuel b b (omega arith)))

bit_or_zero_left : (b : ℕ) → bit_or 0 b ≡ b
bit_or_zero_left b = omega (arith, bit_or-bitwise 0 b)

-- `r | (q << k)` is a sum when `r` fits `k` bits.
pub bit_or_low : (k r q : ℕ) → r < 2 ^ k → bit_or r (q * 2 ^ k) ≡ r + q * 2 ^ k
bit_or_low zero r q h = let e : r ≡ 0 = omega arith in rw (e, bit_or_zero_left) (omega arith)
bit_or_low (suc k) r q h =
    let double : q * 2 ^ suc k ≡ 2 * (q * 2 ^ k) =
      omega (arith, ap (λ (t : ℕ). q * t) (pow-suc 2 k)) in
    omega (
      arith,
      double,
      pow-suc 2 k,
      bit_or_step r (q * 2 ^ suc k),
      ap (bit_or (r / 2)) half,
      bit_or_low k (r / 2) q (omega (arith, pow-suc 2 k)),
    )
  where
    half : q * 2 ^ suc k / 2 ≡ q * 2 ^ k
    half = omega (arith, ap (λ (t : ℕ). q * t) (pow-suc 2 k))

bit_or_comm_fuel : (n a b : ℕ) → a ≤ n → b ≤ n → bit_or a b ≡ bit_or b a
bit_or_comm_fuel n zero zero h k = refl
bit_or_comm_fuel zero zero (suc b) h k = absurd (omega arith)
bit_or_comm_fuel zero (suc a) b h k = absurd (omega arith)
bit_or_comm_fuel (suc n) (suc a) b h k = omega (
  arith,
  bit_or_step (suc a) b,
  bit_or_step b (suc a),
  bit_or_comm_fuel n (suc a / 2) (b / 2) (omega arith) (omega arith),
)
bit_or_comm_fuel (suc n) zero (suc b) h k = omega (
  arith,
  bit_or_step zero (suc b),
  bit_or_step (suc b) zero,
  bit_or_comm_fuel n (zero / 2) (suc b / 2) (omega arith) (omega arith),
)

pub bit_or_comm : (a b : ℕ) → bit_or a b ≡ bit_or b a
bit_or_comm a b = bit_or_comm_fuel (a + b) a b (omega arith) (omega arith)

-- `(q << k) | r` is a sum when `r` fits `k` bits.
pub bit_or_high : (k q r : ℕ) → r < 2 ^ k → bit_or (q * 2 ^ k) r ≡ q * 2 ^ k + r
bit_or_high k q r h = bit_or_comm (q * 2 ^ k) r ∙ bit_or_low k r q h ∙ omega arith
