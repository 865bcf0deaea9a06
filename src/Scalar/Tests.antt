-- ===== src/Scalar/Tests.antt =====
-- Runs of the scalar functions, and the theorems about them at concrete scalars.
use zipologger.Base.{ℕ, ◌+◌, ◌*◌, ◌^◌, ◌≡◌, refl, arith}
use zipologger.Base.{List, [], ◌∷◌, ◌++◌, replicate}
use zipologger.Scalar.{Scalar, shr_int}
use zipologger.Scalar.Value.{IsReduced}

-- n - 1, the largest scalar, and a scalar that uses every limb.
abbrev pub top : Scalar
top = record {
  d0 = 0xBFD25E8CD0364140;
  d1 = 0xBAAEDCE6AF48A03B;
  d2 = 0xFFFFFFFFFFFFFFFE;
  d3 = 0xFFFFFFFFFFFFFFFF;
}

abbrev pub spread : Scalar
spread = record { d0 = 5; d1 = 6; d2 = 7; d3 = 8 }

-- n itself, in 32 bytes.
abbrev order_bytes : List ℕ
order_bytes =
    0xFF ∷ 0xFF ∷ 0xFF ∷ 0xFF ∷ 0xFF ∷ 0xFF ∷ 0xFF ∷ 0xFF ∷ 0xFF ∷ 0xFF ∷ 0xFF ∷ 0xFF ∷ 0xFF ∷ 0xFF
    ∷ 0xFF ∷ 0xFE ∷ 0xBA ∷ 0xAE ∷ 0xDC ∷ 0xE6 ∷ 0xAF ∷ 0x48 ∷ 0xA0 ∷ 0x3B ∷ 0xBF ∷ 0xD2 ∷ 0x5E
    ∷ 0x8C ∷ 0xD0 ∷ 0x36 ∷ 0x41 ∷ 0x41 ∷ []

abbrev seven_bytes : List ℕ
seven_bytes = replicate 31 0 ++ 7 ∷ []

pub top-IsReduced : IsReduced top
top-IsReduced = omega arith

pub spread-IsReduced : IsReduced spread
spread-IsReduced = omega arith

shifted :
    shr_int spread 2 ≡ (record { d0 = 1 + 2 * 2 ^ 62; d1 = 1 + 3 * 2 ^ 62; d2 = 1; d3 = 2 }, 1)
unfolding shr_int
shifted = refl
