-- ===== src/Text/Hex.antt =====
-- encoding/hex: `EncodeToString` with lower-case digits, and `DecodeString`, which takes both cases
-- and fails at any other character and at an odd length.
use zipologger.Base.{ℕ, ◌+◌, ◌-◌, ◌*◌, ◌/◌, ◌%◌, ◌≤◌, ◌<◌, ◌≡◌, refl, arith}
use zipologger.Base.{if◌then◌else◌, ltb, leb, ◌&&◌}
use zipologger.Base.{List, [], ◌∷◌, length, Option, none, some, ◌>>=◌, All}
use zipologger.Base.Bytes.{IsBytes}

unfoldable pub digit_of : ℕ → ℕ
digit_of n = if ltb n 10 then 48 + n else 87 + n

unfoldable pub value_of : ℕ → Option ℕ
value_of c =
    if leb 48 c && leb c 57
    then some (c - 48)
    else if leb 97 c && leb c 102
    then some (c - 87)
    else if leb 65 c && leb c 70
    then some (c - 55)
    else none

unfoldable pub encode_to_string : List ℕ → List ℕ
unfolding digit_of
encode_to_string [] = []
encode_to_string (b ∷ bs) = digit_of (b / 16) ∷ digit_of (b % 16) ∷ encode_to_string bs

unfoldable pub decode_string : List ℕ → Option (List ℕ)
unfolding value_of
decode_string [] = some []
decode_string (c ∷ []) = none
decode_string (c ∷ d ∷ cs) = do
  i ← value_of c
  j ← value_of d
  bs ← decode_string cs
  some ((i * 16 + j) ∷ bs)

value_of-digit_of : (n : ℕ) → n < 16 → value_of (digit_of n) ≡ some n
unfolding value_of digit_of
value_of-digit_of n h = ground arith

digit_of_visible : (n : ℕ) → n < 16 → (33 ≤ digit_of n) × (digit_of n < 127)
unfolding digit_of
digit_of_visible n h = (ground arith, ground arith)

-- Every character of an encoding is visible.
pub encode_to_string_visible :
    (s : List ℕ) → IsBytes s → All (λ c. (33 ≤ c) × (c < 127)) (encode_to_string s)
unfolding encode_to_string
encode_to_string_visible [] h = tt
encode_to_string_visible (b ∷ bs) h = (
  digit_of_visible (b / 16) (omega arith),
  (digit_of_visible (b % 16) (omega arith), encode_to_string_visible bs h.1),
)

pub length-encode_to_string : (s : List ℕ) → length (encode_to_string s) ≡ 2 * length s
unfolding encode_to_string
length-encode_to_string [] = refl
length-encode_to_string (b ∷ bs) = omega (arith, length-encode_to_string bs)

-- What was encoded is decoded to the same bytes.
pub decode_string-encode_to_string :
    (s : List ℕ) → IsBytes s → decode_string (encode_to_string s) ≡ some s
unfolding decode_string encode_to_string
decode_string-encode_to_string [] h = refl
decode_string-encode_to_string (b ∷ bs) h =
    rw
      (
        value_of-digit_of (b / 16) (omega arith),
        value_of-digit_of (b % 16) (omega arith),
        decode_string-encode_to_string bs h.1,
      )
      (ground arith)
