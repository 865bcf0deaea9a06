-- ===== src/Scalar/Inverse/Chain.antt =====
-- The chain of `secp256k1_scalar_inverse` computes the power with exponent n - 2.
use zipologger.Base.{ℕ, ◌+◌, ◌-◌, ◌*◌, ◌%◌, ◌^◌, ◌≡◌, ◌∙◌, arith}
use zipologger.Scalar.{Scalar, set_int}
use zipologger.Scalar.Value.{order, value, IsReduced, value_injective}
use zipologger.Scalar.Wide.{mul}
use zipologger.Scalar.Inverse.{
  Ladder, ladder, then_mul, chain_upper, chain_middle, chain_lower, inverse,
}
use zipologger.Scalar.Inverse.Power.{
  IsPower, self-IsPower, mul-IsPower, sqr-IsPower, sqr_times-IsPower, then_mul-IsPower,
}

module _ (x : Scalar) where
  record IsLadder (l : Ladder) : Type 0 where
    p1 : IsPower x 1 l.x1
    p2 : IsPower x (2 ^ 2 - 1) l.x2
    p3 : IsPower x (2 ^ 3 - 1) l.x3
    p4 : IsPower x (2 ^ 4 - 1) l.x4
    p6 : IsPower x (2 ^ 6 - 1) l.x6
    p7 : IsPower x (2 ^ 7 - 1) l.x7
    p8 : IsPower x (2 ^ 8 - 1) l.x8
    p127 : IsPower x (2 ^ 127 - 1) l.x127

  ladder-IsLadder : IsReduced x → IsLadder (ladder x)
  unfolding ladder
  ladder-IsLadder u =
      let p1 = self-IsPower x u in
      let p2 = mul-IsPower x 2 1 (sqr-IsPower x 1 p1) p1 in
      let p3 = mul-IsPower x 6 1 (sqr-IsPower x 3 p2) p1 in
      let p4 = mul-IsPower x 14 1 (sqr-IsPower x 7 p3) p1 in
      let p6 = mul-IsPower x 60 3 (sqr-IsPower x 30 (sqr-IsPower x 15 p4)) p2 in
      let p7 = mul-IsPower x 126 1 (sqr-IsPower x 63 p6) p1 in
      let p8 = mul-IsPower x 254 1 (sqr-IsPower x 127 p7) p1 in
      let square = λ (k e : ℕ).
        λ (a : Scalar). λ (p : IsPower x e a). sqr_times-IsPower x k (e + e) (sqr-IsPower x e p) in
      let p15 = mul-IsPower x (510 * 2 ^ 6) 127 (square 6 255 _ p8) p7 in
      let p30 =
        mul-IsPower x (2 * (2 ^ 15 - 1) * 2 ^ 14) (2 ^ 15 - 1) (square 14 (2 ^ 15 - 1) _ p15) p15 in
      let p60 =
        mul-IsPower x (2 * (2 ^ 30 - 1) * 2 ^ 29) (2 ^ 30 - 1) (square 29 (2 ^ 30 - 1) _ p30) p30 in
      let p120 =
        mul-IsPower x (2 * (2 ^ 60 - 1) * 2 ^ 59) (2 ^ 60 - 1) (square 59 (2 ^ 60 - 1) _ p60) p60 in
      let p127 = mul-IsPower x (2 * (2 ^ 120 - 1) * 2 ^ 6) 127 (square 6 (2 ^ 120 - 1) _ p120) p7 in
      record { p1 = p1; p2 = p2; p3 = p3; p4 = p4; p6 = p6; p7 = p7; p8 = p8; p127 = p127 }

  -- The exponents are read off the chain, and the last is n - 2.
  module _ (m : Ladder) (l : IsLadder m) where
    step :
        (k e f : ℕ) {t b : Scalar}
        → IsPower x f b
        → IsPower x e t
        → IsPower x (e * 2 ^ k + f) (then_mul k b t)
    step = then_mul-IsPower x

    upper : IsPower x 0x7fffffffffffffffffffffffffffffff5d576e735 (chain_upper m)
    unfolding chain_upper
    upper =
        let t0 = step 2 _ _ l.p1 l.p127 in
        let t1 = step 4 _ _ l.p3 t0 in
        let t2 = step 2 _ _ l.p1 t1 in
        let t3 = step 2 _ _ l.p1 t2 in
        let t4 = step 2 _ _ l.p1 t3 in
        let t5 = step 4 _ _ l.p3 t4 in
        let t6 = step 3 _ _ l.p2 t5 in
        let t7 = step 4 _ _ l.p3 t6 in
        let t8 = step 5 _ _ l.p3 t7 in
        let t9 = step 4 _ _ l.p2 t8 in let t10 = step 2 _ _ l.p1 t9 in step 2 _ _ l.p1 t10

    middle :
        {t : Scalar}
        → IsPower x 0x7fffffffffffffffffffffffffffffff5d576e735 t
        → IsPower x 0x3fffffffffffffffffffffffffffffffaeabb739abd2280eeff49 (chain_middle m t)
    unfolding chain_middle
    middle p =
        let t0 = step 5 _ _ l.p4 p in
        let t1 = step 2 _ _ l.p1 t0 in
        let t2 = step 3 _ _ l.p1 t1 in
        let t3 = step 4 _ _ l.p1 t2 in
        let t4 = step 2 _ _ l.p1 t3 in
        let t5 = step 10 _ _ l.p3 t4 in
        let t6 = step 4 _ _ l.p3 t5 in
        let t7 = step 9 _ _ l.p8 t6 in
        let t8 = step 2 _ _ l.p1 t7 in let t9 = step 3 _ _ l.p1 t8 in step 3 _ _ l.p1 t9

    lower :
        {t : Scalar}
        → IsPower x 0x3fffffffffffffffffffffffffffffffaeabb739abd2280eeff49 t
        → IsPower x (order - 2) (chain_lower m t)
    unfolding chain_lower
    lower p =
        let t0 = step 5 _ _ l.p4 p in
        let t1 = step 2 _ _ l.p1 t0 in
        let t2 = step 5 _ _ l.p2 t1 in
        let t3 = step 4 _ _ l.p2 t2 in
        let t4 = step 2 _ _ l.p1 t3 in
        let t5 = step 8 _ _ l.p2 t4 in
        let t6 = step 3 _ _ l.p2 t5 in
        let t7 = step 3 _ _ l.p1 t6 in let t8 = step 6 _ _ l.p1 t7 in step 8 _ _ l.p6 t8

-- Of a scalar below the order `secp256k1_scalar_inverse` gives the power n - 2 modulo the order n,
-- below the order.
pub inverse_lem :
    (x : Scalar)
    → IsReduced x
    → IsReduced (inverse x) × (value (inverse x) ≡ value x ^ (order - 2) % order)
unfolding inverse
inverse_lem x u =
    let l = ladder-IsLadder x u in
    let p = lower x (ladder x) l (middle x (ladder x) l (upper x (ladder x) l)) in
    (p.reduced, p.power)

-- Where Fermat's equation holds for a scalar (it does for each but 0 if n is prime), the product
-- with its inverse is 1.
pub mul-inverse :
    (x : Scalar) → IsReduced x → value x ^ (order - 1) % order ≡ 1 → mul x (inverse x) ≡ set_int 1
mul-inverse x u fermat =
    let p : IsPower x (1 + (order - 2)) (mul x (inverse x)) =
      mul-IsPower x 1 (order - 2) (self-IsPower x u)
        (record { reduced = (inverse_lem x u).0; power = (inverse_lem x u).1 }) in
    value_injective (mul x (inverse x)) (set_int 1) p.reduced.limbs (unfold set_int in omega arith)
      (p.power ∙ fermat ∙ unfold set_int in omega arith)
