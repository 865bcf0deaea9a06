-- ===== src/Curve.antt =====
-- The operations on the curve that libsecp256k1/src/ecdsa_impl.h, eckey_impl.h, secp256k1.c,
-- modules/recovery/main_impl.h and ext.h call, from field.h, group.h, ecmult.h and ecmult_gen.h,
-- as an interface. A pointer that the C function writes through is a result here.
pub mod Sample
use zipologger.Base.{ℕ, ◌+◌, ◌-◌, ◌%◌, ◌≤◌, ◌<◌, ◌≡◌, ◌↔◌, Bool, true, false, List, length, Option}
use zipologger.Base.Bytes.{be, IsBytes}
use zipologger.Scalar.Value.{order}
use zipologger.Scalar.{Scalar}

pub record Curve : Type 1 where
  -- `secp256k1_fe`, `secp256k1_ge` and `secp256k1_gej`
  pub Fe : Type 0
  pub Ge : Type 0
  pub Gej : Type 0
  -- Whether the 32 bytes are below the field's prime is the second part.
  pub fe_set_b32 : List ℕ → Fe × Bool
  pub fe_get_b32 : Fe → List ℕ
  pub fe_normalize : Fe → Fe
  pub fe_is_odd : Fe → Bool
  pub fe_is_zero : Fe → Bool
  -- Whether `secp256k1_fe_cmp_var` is not negative.
  pub fe_cmp_ge : Fe → Fe → Bool
  pub fe_add : Fe → Fe → Fe
  -- secp256k1_ecdsa_const_order_as_fe and secp256k1_ecdsa_const_p_minus_order
  pub order_as_fe : Fe
  pub p_minus_order : Fe
  pub ge_x : Ge → Fe
  pub ge_y : Ge → Fe
  pub ge_set_xy : Fe → Fe → Ge
  -- `none` where no point has the given x.
  pub ge_set_xo_var : Fe → Bool → Option Ge
  pub ge_is_valid_var : Ge → Bool
  pub ge_is_infinity : Ge → Bool
  pub ge_set_gej : Gej → Ge
  -- The 64 bytes of a `secp256k1_ge_storage`.
  pub ge_to_storage : Ge → List ℕ
  pub ge_from_storage : List ℕ → Ge
  pub gej_infinity : Gej
  pub gej_set_ge : Ge → Gej
  pub gej_is_infinity : Gej → Bool
  pub gej_eq_x_var : Fe → Gej → Bool
  pub gej_add_ge : Gej → Ge → Gej
  -- `secp256k1_ecmult ctx r a na ng` is na*a + ng*G; `secp256k1_ecmult_gen ctx r a` is a*G.
  pub ecmult : Gej → Scalar → Scalar → Gej
  pub ecmult_gen : Scalar → Gej
  pub ecmult_const : Ge → Scalar → Gej

-- What the serialization of field elements promises.
pub record HasBytes (curve : Curve) : Type 0 where
  pub bytes : (f : curve.Fe) → IsBytes (curve.fe_get_b32 f)
  pub thirty_two : (f : curve.Fe) → length (curve.fe_get_b32 f) ≡ 32

-- The prime of the field.
abbrev pub prime : ℕ
prime = 0xFFFFFFFFFFFFFFFFFFFFFFFFFFFFFFFFFFFFFFFFFFFFFFFFFFFFFFFEFFFFFC2F

-- What the field operations and `secp256k1_gej_eq_x_var` promise: `fe_value` is the number that a
-- field element stands for, `IsNormal` that it is normalized, which the comparison asks for, and `x_value` the affine x of a point that is not at infinity.
pub record HasField (curve : Curve) (fe_value : curve.Fe → ℕ) (x_value : curve.Gej → ℕ)
    : Type 1 where
  pub x_below : (a : curve.Gej) → x_value a < prime
  pub set_b32_value :
      (b : List ℕ)
      → IsBytes b
      → length b ≡ 32
      → be b < prime
      → fe_value (curve.fe_set_b32 b).0 ≡ be b
  pub order_value : fe_value curve.order_as_fe ≡ order
  pub p_minus_order_value : fe_value curve.p_minus_order ≡ prime - order
  pub IsNormal : curve.Fe → Type 0
  pub set_b32_normal :
      (b : List ℕ) → IsBytes b → length b ≡ 32 → be b < prime → IsNormal (curve.fe_set_b32 b).0
  pub p_minus_order_normal : IsNormal curve.p_minus_order
  pub cmp_ge_iff :
      (a b : curve.Fe)
      → IsNormal a
      → IsNormal b
      → (curve.fe_cmp_ge a b ≡ true) ↔ (fe_value b ≤ fe_value a)
  pub add_value : (a b : curve.Fe) → fe_value (curve.fe_add a b) ≡ (fe_value a + fe_value b) % prime
  pub eq_x_iff :
      (f : curve.Fe) (a : curve.Gej)
      → curve.gej_is_infinity a ≡ false
      → (curve.gej_eq_x_var f a ≡ true) ↔ (fe_value f ≡ x_value a)
