-- ===== src/Scalar/Wide/Carry.antt =====
-- The macros on the accumulator do what their comments say, where it does not overflow.
use zipologger.Base.{
  ℕ, ◌+◌, ◌-◌, ◌*◌, ◌/◌, ◌^◌, ◌≤◌, ◌<◌, ◌≡◌, Bool, true, false, ◌&&◌, arith, ltb, ◌==◌,
}
use zipologger.Base.{flag, u64, u128}
use native.Mathlib.Nat.{mod-eq_of_lt}
use zipologger.Scalar.Wide.{Column, muladd, muladd2, sumadd, muladd_fast, sumadd_fast}

abbrev pub total : Column → ℕ
total c = c.c0 + c.c1 * 2 ^ 64 + c.c2 * 2 ^ 128

pub record IsWords (c : Column) : Type 0 where
  pub b0 : c.c0 < 2 ^ 64
  pub b1 : c.c1 < 2 ^ 64

-- A product of two words leaves room for two more words.
pub product_bound : (a b : ℕ) → a < 2 ^ 64 → b < 2 ^ 64 → a * b ≤ (2 ^ 64 - 1) * (2 ^ 64 - 1)
product_bound a b p q = grind arith

-- The carry out of a wrapped addition, found by comparing the result with a summand.
pub carry : ℕ → ℕ → ℕ
carry x y = flag (ltb (u64 (x + y)) y)

carry_lem :
    (x y : ℕ)
    → x < 2 ^ 64
    → y < 2 ^ 64
    → (u64 (x + y) + carry x y * 2 ^ 64 ≡ x + y) × (carry x y ≤ 1)
unfolding carry
carry_lem x y p q = ground arith

-- The number that `muladd` adds to c1, and what is carried out of the two words.
module _ (m a b : ℕ) (c : Column) (w : IsWords c) (p : a < 2 ^ 64) (q : b < 2 ^ 64) where
  high : ℕ
  high = u64 (u64 (u128 (a * b) / 2 ^ 64) + carry c.c0 (u64 (u128 (a * b))))

  high_lem : (u64 (c.c0 + u64 (u128 (a * b))) + high * 2 ^ 64 ≡ c.c0 + a * b) × (high < 2 ^ 64)
  unfolding high
  high_lem =
      omega (arith, product_bound a b p q, carry_lem c.c0 (u64 (u128 (a * b))) w.b0 (omega arith))

  -- `muladd(a, b)` adds the product to the accumulator.
  pub muladd_lem :
      c.c2 + 1 < m
      → IsWords (muladd m a b c)
        × ((muladd m a b c).c2 ≤ c.c2 + 1)
        × (total (muladd m a b c) ≡ total c + a * b)
  unfolding muladd high carry
  muladd_lem h = omega (
    arith,
    high_lem,
    carry_lem c.c1 high w.b1 (high_lem.1),
    mod-eq_of_lt {n = c.c2 + carry c.c1 high} {m = m}
        (omega (arith, carry_lem c.c1 high w.b1 high_lem.1)),
  )

  -- `muladd_fast(a, b)` adds the product to the two lower words, where they can hold the sum.
  pub muladd_fast_lem :
      c.c0 + c.c1 * 2 ^ 64 + a * b < 2 ^ 128
      → IsWords (muladd_fast a b c)
        × ((muladd_fast a b c).c2 ≡ c.c2)
        × (total (muladd_fast a b c) ≡ total c + a * b)
  unfolding muladd_fast high carry
  muladd_fast_lem h = omega (arith, high_lem)

-- The carry that `muladd2` detects by the sum being zero.
zero_carry_lem :
    (x : ℕ) (b : Bool)
    → x < 2 ^ 64
    → (u64 (x + flag b) + flag (b && u64 (x + flag b) == 0) * 2 ^ 64 ≡ x + flag b)
      × (flag (b && u64 (x + flag b) == 0) ≤ 1)
zero_carry_lem x true h = ground arith
zero_carry_lem x false h = ground arith

-- `muladd2(a, b)` adds the product twice.
pub muladd2_lem :
    (m a b : ℕ) (c : Column)
    → IsWords c
    → a < 2 ^ 64
    → b < 2 ^ 64
    → c.c2 + 3 < m
    → IsWords (muladd2 m a b c)
      × ((muladd2 m a b c).c2 ≤ c.c2 + 2)
      × (total (muladd2 m a b c) ≡ total c + 2 * (a * b))
unfolding muladd2 carry
muladd2_lem m a b c w p q h =
    let pb = product_bound a b p q in
    let th = u64 (u128 (a * b) / 2 ^ 64) in
    let tl = u64 (u128 (a * b)) in
    let f1 = carry_lem th th (omega arith) (omega arith) in
    let f2 = carry_lem tl tl (omega arith) (omega arith) in
    let th2 = u64 (u64 (th + th) + carry tl tl) in
    let f3 = carry_lem c.c0 (u64 (tl + tl)) w.b0 (omega arith) in
    let b3 = ltb (u64 (c.c0 + u64 (tl + tl))) (u64 (tl + tl)) in
    let f4 = zero_carry_lem th2 b3 (omega arith) in
    let th3 = u64 (th2 + flag b3) in
    let f5 = carry_lem c.c1 th3 w.b1 (omega arith) in
    let k1 = carry th th in
    let k4 = flag (b3 && th3 == 0) in
    let m1 = mod-eq_of_lt {n = c.c2 + k1} {m = m} (omega (arith, f1)) in
    let m2 = mod-eq_of_lt {n = c.c2 + k1 + k4} {m = m} (omega (arith, f1, f4)) in
    let m3 =
      mod-eq_of_lt {n = c.c2 + k1 + k4 + carry c.c1 th3} {m = m} (omega (arith, f1, f4, f5)) in
    rw (m1, m2, m3) (omega (arith, f1, f2, f3, f4, f5, pb))

-- `sumadd(a)` adds a word.
pub sumadd_lem :
    (m a : ℕ) (c : Column)
    → IsWords c
    → a < 2 ^ 64
    → c.c2 + 1 < m
    → IsWords (sumadd m a c) × ((sumadd m a c).c2 ≤ c.c2 + 1) × (total (sumadd m a c) ≡ total c + a)
unfolding sumadd carry
sumadd_lem m a c w p h =
    let f = carry_lem c.c0 a w.b0 p in
    let g = carry_lem c.c1 (carry c.c0 a) w.b1 (omega (arith, f)) in
    omega
      (arith, f, g, mod-eq_of_lt {n = c.c2 + carry c.c1 (carry c.c0 a)} {m = m} (omega (arith, g)))

-- `sumadd_fast(a)` adds a word to the two lower words, where they can hold the sum.
pub sumadd_fast_lem :
    (a : ℕ) (c : Column)
    → IsWords c
    → a < 2 ^ 64
    → c.c0 + c.c1 * 2 ^ 64 + a < 2 ^ 128
    → IsWords (sumadd_fast a c)
      × ((sumadd_fast a c).c2 ≡ c.c2)
      × (total (sumadd_fast a c) ≡ total c + a)
unfolding sumadd_fast carry
sumadd_fast_lem a c w p h = omega (arith, carry_lem c.c0 a w.b0 p)
