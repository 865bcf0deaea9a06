-- ===== src/Text/Base64.antt =====
-- base64.RawStdEncoding: `EncodeToString` and `DecodeString`, which skips `\r` and `\n`, knows no
-- padding, and does not look at the bits that are left over at the end.
use zipologger.Base.{ℕ, ◌+◌, ◌-◌, ◌*◌, ◌/◌, ◌%◌, ◌≤◌, ◌<◌, ◌≡◌, refl, arith}
use zipologger.Base.{◌||◌, if◌then◌else◌, ltb, leb, ◌==◌, ◌&&◌}
use zipologger.Base.{List, [], ◌∷◌, length, Option, none, some, ◌>>=◌, All}
use zipologger.Base.Bytes.{IsBytes}

-- The character of six bits.
unfoldable pub char_of : ℕ → ℕ
char_of n =
    if ltb n 26
    then 65 + n
    else if ltb n 52
    then 71 + n
    else if ltb n 62
    then n - 4
    else if n == 62
    then 43
    else 47

unfoldable pub bits_of : ℕ → Option ℕ
bits_of c =
    if leb 65 c && leb c 90
    then some (c - 65)
    else if leb 97 c && leb c 122
    then some (c - 71)
    else if leb 48 c && leb c 57
    then some (c + 4)
    else if c == 43
    then some 62
    else if c == 47
    then some 63
    else none

unfoldable pub encode_to_string : List ℕ → List ℕ
unfolding char_of
encode_to_string [] = []
encode_to_string (a ∷ []) = char_of (a / 4) ∷ char_of (a % 4 * 16) ∷ []
encode_to_string (a ∷ b ∷ []) =
    char_of (a / 4) ∷ char_of (a % 4 * 16 + b / 16) ∷ char_of (b % 16 * 4) ∷ []
encode_to_string (a ∷ b ∷ c ∷ rest) =
    char_of (a / 4)
    ∷ char_of (a % 4 * 16 + b / 16)
    ∷ char_of (b % 16 * 4 + c / 64)
    ∷ char_of (c % 64)
    ∷ encode_to_string rest

unfoldable pub without_newlines : List ℕ → List ℕ
without_newlines [] = []
without_newlines (c ∷ cs) =
    let rest = without_newlines cs in if c == 10 || c == 13 then rest else c ∷ rest

unfoldable pub decode_groups : List ℕ → Option (List ℕ)
unfolding bits_of
decode_groups [] = some []
decode_groups (w ∷ []) = none
decode_groups (w ∷ x ∷ []) = do i ← bits_of w; j ← bits_of x; some ((i * 4 + j / 16) ∷ [])
decode_groups (w ∷ x ∷ y ∷ []) = do
  i ← bits_of w
  j ← bits_of x
  k ← bits_of y
  some ((i * 4 + j / 16) ∷ (j % 16 * 16 + k / 4) ∷ [])
decode_groups (w ∷ x ∷ y ∷ z ∷ rest) = do
  i ← bits_of w
  j ← bits_of x
  k ← bits_of y
  l ← bits_of z
  more ← decode_groups rest
  some ((i * 4 + j / 16) ∷ (j % 16 * 16 + k / 4) ∷ (k % 4 * 64 + l) ∷ more)

unfoldable pub decode_string : List ℕ → Option (List ℕ)
unfolding decode_groups without_newlines
decode_string s = decode_groups (without_newlines s)

bits_of-char_of : (n : ℕ) → n < 64 → bits_of (char_of n) ≡ some n
unfolding bits_of char_of
bits_of-char_of n h = ground arith

-- The characters stand above the control characters and the space.
pub char_of-ge : (n : ℕ) → n < 64 → 43 ≤ char_of n
unfolding char_of
char_of-ge n h = ground arith

-- Every character of an encoding is printable.
pub encode_to_string_printable : (s : List ℕ) → IsBytes s → All (λ c. 43 ≤ c) (encode_to_string s)
unfolding encode_to_string
encode_to_string_printable [] h = tt
encode_to_string_printable (a ∷ []) h =
    (char_of-ge (a / 4) (omega arith), (char_of-ge (a % 4 * 16) (omega arith), tt))
encode_to_string_printable (a ∷ b ∷ []) h = (
  char_of-ge (a / 4) (omega arith),
  (char_of-ge (a % 4 * 16 + b / 16) (omega arith), (char_of-ge (b % 16 * 4) (omega arith), tt)),
)
encode_to_string_printable (a ∷ b ∷ c ∷ rest) h = (
  char_of-ge (a / 4) (omega arith),
  (
    char_of-ge (a % 4 * 16 + b / 16) (omega arith),
    (
      char_of-ge (b % 16 * 4 + c / 64) (omega arith),
      (char_of-ge (c % 64) (omega arith), encode_to_string_printable rest h.1.1.1),
    ),
  ),
)

without_newlines_lem : (s : List ℕ) → All (λ c. 43 ≤ c) s → without_newlines s ≡ s
unfolding without_newlines
without_newlines_lem [] h = refl
without_newlines_lem (c ∷ cs) h = ground (arith, without_newlines_lem cs h.1)

decode_groups_lem : (s : List ℕ) → IsBytes s → decode_groups (encode_to_string s) ≡ some s
unfolding decode_groups encode_to_string
decode_groups_lem [] h = refl
decode_groups_lem (a ∷ []) h =
    rw (bits_of-char_of (a / 4) (omega arith), bits_of-char_of (a % 4 * 16) (omega arith))
      (ground arith)
decode_groups_lem (a ∷ b ∷ []) h =
    rw
      (
        bits_of-char_of (a / 4) (omega arith),
        bits_of-char_of (a % 4 * 16 + b / 16) (omega arith),
        bits_of-char_of (b % 16 * 4) (omega arith),
      )
      (ground arith)
decode_groups_lem (a ∷ b ∷ c ∷ rest) h =
    rw
      (
        bits_of-char_of (a / 4) (omega arith),
        bits_of-char_of (a % 4 * 16 + b / 16) (omega arith),
        bits_of-char_of (b % 16 * 4 + c / 64) (omega arith),
        bits_of-char_of (c % 64) (omega arith),
        decode_groups_lem rest h.1.1.1,
      )
      (ground arith)

-- What was encoded is decoded to the same bytes.
pub decode_string-encode_to_string :
    (s : List ℕ) → IsBytes s → decode_string (encode_to_string s) ≡ some s
unfolding decode_string
decode_string-encode_to_string s h =
    rw (without_newlines_lem (encode_to_string s) (encode_to_string_printable s h))
      (decode_groups_lem s h)

-- An encoding has four characters for three bytes, rounded up to whole characters.
pub length-encode_to_string : (s : List ℕ) → length (encode_to_string s) ≡ (4 * length s + 2) / 3
unfolding encode_to_string
length-encode_to_string [] = refl
length-encode_to_string (a ∷ []) = refl
length-encode_to_string (a ∷ b ∷ []) = refl
length-encode_to_string (a ∷ b ∷ c ∷ rest) = omega (arith, length-encode_to_string rest)
