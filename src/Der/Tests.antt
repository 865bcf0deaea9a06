-- ===== src/Der/Tests.antt =====
-- A signature with the scalars 1 and 200, in DER form.
use zipologger.Base.{ℕ, ◌≡◌, refl, List, [], ◌∷◌, none, some}
use zipologger.Scalar.{
  Scalar, set_b32, limb_of_bytes, check_overflow, reduce, get_b32, bytes_of_limb,
}
use zipologger.Der.{
  read_len, skip_zeros, scalar_of, parse_body, parse_integer, parse_pair, sig_parse, strip,
  sig_serialize,
}

abbrev pub one : Scalar
one = record { d0 = 1; d1 = 0; d2 = 0; d3 = 0 }

abbrev pub two_hundred : Scalar
two_hundred = record { d0 = 200; d1 = 0; d2 = 0; d3 = 0 }

abbrev pub small_signature : List ℕ
small_signature = 0x30 ∷ 7 ∷ 0x02 ∷ 1 ∷ 1 ∷ 0x02 ∷ 2 ∷ 0 ∷ 200 ∷ []

pub serialize_small : sig_serialize 72 one two_hundred ≡ (9, some small_signature)
unfolding sig_serialize strip get_b32 bytes_of_limb
serialize_small = refl

parse_small : sig_parse small_signature ≡ some (one, two_hundred)
unfolding sig_parse parse_pair parse_integer parse_body skip_zeros scalar_of read_len set_b32
    limb_of_bytes check_overflow reduce
parse_small = refl

-- A zero byte that could be left out, and a byte behind the end.
parse_padded :
    (sig_parse (0x30 ∷ 8 ∷ 0x02 ∷ 2 ∷ 0 ∷ 1 ∷ 0x02 ∷ 2 ∷ 0 ∷ 200 ∷ []) ≡ none)
    × (sig_parse (0x30 ∷ 7 ∷ 0x02 ∷ 1 ∷ 1 ∷ 0x02 ∷ 2 ∷ 0 ∷ 200 ∷ 0 ∷ []) ≡ none)
unfolding sig_parse parse_pair parse_integer parse_body skip_zeros scalar_of read_len set_b32
    limb_of_bytes check_overflow reduce
parse_padded = (refl, refl)
