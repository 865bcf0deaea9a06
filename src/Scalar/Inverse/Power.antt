-- ===== src/Scalar/Inverse/Power.antt =====
-- Powers modulo the group order, step by step of the chain.
use mathlib.Core.Path.{ap₂}
use zipologger.Base.{ℕ, zero, suc, ◌+◌, ◌*◌, ◌/◌, ◌%◌, ◌^◌, ◌≡◌, sym, ◌∙◌, ap, arith}
use native.Mathlib.Nat.{pow-zero, pow-suc, mul-one, add-zero, div-add-mod}
use native.Mathlib.Nat.{add-mul-mod_self_left, mod-eq_of_lt}
use zipologger.Scalar.{Scalar}
use zipologger.Scalar.Value.{order, value, IsReduced}
use zipologger.Scalar.Wide.{mul, sqr}
use zipologger.Scalar.Wide.Mul.{mul_lem, sqr-eq-mul}
use zipologger.Scalar.Inverse.{sqr_times, then_mul}

pow-one : (x : ℕ) → x ^ 1 ≡ x
pow-one x = pow-suc x 0 ∙ ap (λ (t : ℕ). t * x) (pow-zero x) ∙ omega arith

pow-add : (x m n : ℕ) → x ^ (m + n) ≡ x ^ m * x ^ n
pow-add x m zero = rw (add-zero, pow-zero) (omega arith)
pow-add x m (suc n) =
    ap (λ (e : ℕ). x ^ e) step
    ∙ pow-suc x (m + n)
    ∙ ap (λ (t : ℕ). t * x) (pow-add x m n)
    ∙ omega arith
    ∙ ap (λ (t : ℕ). x ^ m * t) (sym (pow-suc x n))
  where
    step : m + suc n ≡ suc (m + n)
    step = omega arith

expand : (q p r s n : ℕ) → (n * q + r) * (n * p + s) ≡ r * s + n * (r * p + q * s + n * q * p)
expand q p r s n = omega arith

-- A remainder may be taken before a product.
pub mod-mul-mod : (a b n : ℕ) → a % n * (b % n) % n ≡ a * b % n
mod-mul-mod a b n = sym (
    ap (λ (t : ℕ). t % n)
      (ap₂ ◌*◌ (sym (div-add-mod a n)) (sym (div-add-mod b n))
        ∙ expand (a / n) (b / n) (a % n) (b % n) n)
    ∙ add-mul-mod_self_left (a % n * (b % n)) n
        (a % n * (b / n) + a / n * (b % n) + n * (a / n) * (b / n)))

-- `a` is the power of `x` with exponent `e`.
pub record IsPower (x : Scalar) (e : ℕ) (a : Scalar) : Type 0 where
  pub reduced : IsReduced a
  pub power : value a ≡ value x ^ e % order

module _ (x : Scalar) where
  pub mul-IsPower :
      (e f : ℕ) {a b : Scalar} → IsPower x e a → IsPower x f b → IsPower x (e + f) (mul a b)
  mul-IsPower e f {a} {b} p q =
      let m = mul_lem a b p.reduced.limbs q.reduced.limbs in
      record {
        reduced = m.0;
        power =
            m.1
            ∙ ap (λ (t : ℕ). t % order) (ap₂ ◌*◌ p.power q.power)
            ∙ mod-mul-mod (value x ^ e) (value x ^ f) order
            ∙ ap (λ (t : ℕ). t % order) (sym (pow-add (value x) e f));
      }

  pub sqr-IsPower : (e : ℕ) {a : Scalar} → IsPower x e a → IsPower x (e + e) (sqr a)
  sqr-IsPower e {a} p = rw (sqr-eq-mul a p.reduced.limbs) (mul-IsPower e e p p)

  pub sqr_times-IsPower :
      (k e : ℕ) {a : Scalar} → IsPower x e a → IsPower x (e * 2 ^ k) (sqr_times k a)
  unfolding sqr_times
  sqr_times-IsPower zero e p = rw (pow-zero, mul-one) p
  sqr_times-IsPower (suc k) e p =
      let same : (e + e) * 2 ^ k ≡ e * 2 ^ suc k =
        omega (arith, ap (λ (t : ℕ). e * t) (pow-suc 2 k)) in
      rw same at (sqr_times-IsPower k (e + e) (sqr-IsPower e p))

  pub then_mul-IsPower :
      (k e f : ℕ) {t b : Scalar}
      → IsPower x f b
      → IsPower x e t
      → IsPower x (e * 2 ^ k + f) (then_mul k b t)
  unfolding then_mul
  then_mul-IsPower k e f q p = mul-IsPower (e * 2 ^ k) f (sqr_times-IsPower k e p) q

  pub self-IsPower : IsReduced x → IsPower x 1 x
  self-IsPower u = record {
    reduced = u;
    power = sym (ap (λ (t : ℕ). t % order) (pow-one (value x)) ∙ mod-eq_of_lt u.below);
  }
