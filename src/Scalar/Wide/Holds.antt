-- ===== src/Scalar/Wide/Holds.antt =====
-- What an accumulator holds through a chain of the macros.
use zipologger.Base.{ℕ, ◌+◌, ◌*◌, ◌/◌, ◌%◌, ◌^◌, ◌≤◌, ◌<◌, ◌≡◌, arith}
use zipologger.Scalar.Wide.{
  Column, muladd, muladd2, sumadd, muladd_fast, sumadd_fast, extract, extract_fast,
}
use zipologger.Scalar.Wide.Carry.{
  total, IsWords, muladd_lem, muladd2_lem, muladd_fast_lem, sumadd_lem, sumadd_fast_lem,
}

-- The accumulator stands for `v`, and c2 is at most `n`.
pub record Holds (c : Column) (v n : ℕ) : Type 0 where
  pub words : IsWords c
  pub top : c.c2 ≤ n
  pub sum : total c ≡ v

pub word-Holds : (x : ℕ) → x < 2 ^ 64 → Holds (record { c0 = x; c1 = 0; c2 = 0 }) x 0
word-Holds x h = omega arith

module _ {c : Column} {v n : ℕ} (h : Holds c v n) where
  pub muladd-Holds :
      (m a b : ℕ) → a < 2 ^ 64 → b < 2 ^ 64 → n + 1 < m → Holds (muladd m a b c) (v + a * b) (n + 1)
  muladd-Holds m a b p q l = omega (arith, muladd_lem m a b c h.words p q (omega arith))

  pub muladd2-Holds :
      (m a b : ℕ)
      → a < 2 ^ 64
      → b < 2 ^ 64
      → n + 3 < m
      → Holds (muladd2 m a b c) (v + 2 * (a * b)) (n + 2)
  muladd2-Holds m a b p q l = omega (arith, muladd2_lem m a b c h.words p q (omega arith))

  pub sumadd-Holds : (m a : ℕ) → a < 2 ^ 64 → n + 1 < m → Holds (sumadd m a c) (v + a) (n + 1)
  sumadd-Holds m a p l = omega (arith, sumadd_lem m a c h.words p (omega arith))

  pub muladd_fast-Holds :
      (a b : ℕ)
      → a < 2 ^ 64
      → b < 2 ^ 64
      → v + a * b < 2 ^ 128
      → Holds (muladd_fast a b c) (v + a * b) n
  muladd_fast-Holds a b p q l = omega (arith, muladd_fast_lem 1 a b c h.words p q (omega arith))

  pub sumadd_fast-Holds : (a : ℕ) → a < 2 ^ 64 → v + a < 2 ^ 128 → Holds (sumadd_fast a c) (v + a) n
  sumadd_fast-Holds a p l = omega (arith, sumadd_fast_lem a c h.words p (omega arith))

  -- The extracted word is the lowest 64 bits, and the rest moves down.
  pub extract-Holds : n < 2 ^ 64 → Holds (extract c) (v / 2 ^ 64) 0
  unfolding extract
  extract-Holds l = omega (arith, h)

  pub extract_fast-Holds : v < 2 ^ 128 → Holds (extract_fast c) (v / 2 ^ 64) 0
  unfolding extract_fast
  extract_fast-Holds l = omega (arith, h)

  pub lowest : c.c0 ≡ v % 2 ^ 64
  lowest = omega (arith, h)
