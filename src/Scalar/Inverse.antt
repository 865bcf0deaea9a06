-- ===== src/Scalar/Inverse.antt =====
-- libsecp256k1/src/scalar_impl.h: the inverse modulo the group order, as a power, and the split of
-- a scalar for the endomorphism.
pub mod Power
pub mod Chain
use zipologger.Base.{ℕ, zero, suc}
use zipologger.Scalar.{Scalar}
use zipologger.Scalar.Wide.{mul, sqr}

-- A loop that squares `k` times.
pub sqr_times : ℕ → Scalar → Scalar
sqr_times zero a = a
sqr_times (suc k) a = sqr_times k (sqr a)

-- The powers x^(2^k - 1) that the chain needs.
pub record Ladder : Type 0 where
  pub x1 : Scalar
  pub x2 : Scalar
  pub x3 : Scalar
  pub x4 : Scalar
  pub x6 : Scalar
  pub x7 : Scalar
  pub x8 : Scalar
  pub x127 : Scalar

pub ladder : Scalar → Ladder
ladder x =
    let x2 = mul (sqr x) x in
    let x3 = mul (sqr x2) x in
    let x4 = mul (sqr x3) x in
    let x6 = mul (sqr (sqr x4)) x2 in
    let x7 = mul (sqr x6) x in
    let x8 = mul (sqr x7) x in
    let x15 = mul (sqr_times 6 (sqr x8)) x7 in
    let x30 = mul (sqr_times 14 (sqr x15)) x15 in
    let x60 = mul (sqr_times 29 (sqr x30)) x30 in
    let x120 = mul (sqr_times 59 (sqr x60)) x60 in
    let x127 = mul (sqr_times 6 (sqr x120)) x7 in
    record { x1 = x; x2 = x2; x3 = x3; x4 = x4; x6 = x6; x7 = x7; x8 = x8; x127 = x127 }

-- `k` squarings and a multiplication, the step of the final accumulation.
pub then_mul : ℕ → Scalar → Scalar → Scalar
then_mul k b t = mul (sqr_times k t) b

-- The accumulation, in three runs.
pub chain_upper : Ladder → Scalar
chain_upper l =
    let t = then_mul 2 l.x1 l.x127 in
    let t = then_mul 4 l.x3 t in
    let t = then_mul 2 l.x1 t in
    let t = then_mul 2 l.x1 t in
    let t = then_mul 2 l.x1 t in
    let t = then_mul 4 l.x3 t in
    let t = then_mul 3 l.x2 t in
    let t = then_mul 4 l.x3 t in
    let t = then_mul 5 l.x3 t in
    let t = then_mul 4 l.x2 t in let t = then_mul 2 l.x1 t in then_mul 2 l.x1 t

pub chain_middle : Ladder → Scalar → Scalar
chain_middle l t =
    let t = then_mul 5 l.x4 t in
    let t = then_mul 2 l.x1 t in
    let t = then_mul 3 l.x1 t in
    let t = then_mul 4 l.x1 t in
    let t = then_mul 2 l.x1 t in
    let t = then_mul 10 l.x3 t in
    let t = then_mul 4 l.x3 t in
    let t = then_mul 9 l.x8 t in
    let t = then_mul 2 l.x1 t in let t = then_mul 3 l.x1 t in then_mul 3 l.x1 t

pub chain_lower : Ladder → Scalar → Scalar
chain_lower l t =
    let t = then_mul 5 l.x4 t in
    let t = then_mul 2 l.x1 t in
    let t = then_mul 5 l.x2 t in
    let t = then_mul 4 l.x2 t in
    let t = then_mul 2 l.x1 t in
    let t = then_mul 8 l.x2 t in
    let t = then_mul 3 l.x2 t in
    let t = then_mul 3 l.x1 t in let t = then_mul 6 l.x1 t in then_mul 8 l.x6 t

pub inverse : Scalar → Scalar
inverse x = let l = ladder x in chain_lower l (chain_middle l (chain_upper l))
