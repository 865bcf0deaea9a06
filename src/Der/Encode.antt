-- ===== src/Der/Encode.antt =====
-- What `sig_serialize` writes, `sig_parse` reads back.
use zipologger.Base.{ℕ, ◌+◌, ◌≤◌, ◌<◌, ◌≡◌, ◌∙◌, arith}
use zipologger.Base.{
  true, false, List, [], ◌∷◌, ◌++◌, length, length-append, drop, ltb, drop-append,
}
use zipologger.Base.{none, some, if◌then◌else◌, append-nil, not, ◌&&◌, ◌||◌, ◌==◌}
use zipologger.Base.Bytes.{be, IsBytes}
use zipologger.Scalar.{Scalar, get_b32}
use zipologger.Scalar.Value.{value, IsReduced}
use zipologger.Scalar.Bytes.{get_b32_lem, get_b32-length}
use zipologger.Der.{
  strip, read_len, skip_zeros, bit7, scalar_of, parse_body, parse_integer, parse_pair, sig_parse,
  sig_serialize,
}
use zipologger.Der.Minimal.{
  IsMinimal, IsStripped, strip_lem, drop_zeros, skip_zeros-append, drop_zeros-IsBytes,
  be-drop_zeros, length-drop_zeros, scalar_of-append,
}

-- A short length is one byte.
pub read_len-short : (n : ℕ) (p : List ℕ) → n < 128 → read_len (n ∷ p) ≡ some (n, p)
unfolding read_len
read_len-short n p h = ground arith

-- A minimal form passes the checks on padding and sign.
parse_body-checks :
    (bs rest : List ℕ)
    → IsMinimal bs
    → IsBytes bs
    → parse_body (length bs) (bs ++ rest) ≡ (
        let (n, p) = skip_zeros (length bs) (bs ++ rest) in
        some (scalar_of (ltb 32 n) n p, drop n p))
unfolding parse_body
parse_body-checks [] rest m h = absurd m
parse_body-checks (x ∷ []) rest m h = ground arith
parse_body-checks (x ∷ y ∷ bs) rest m h =
    let n = length (x ∷ y ∷ bs) in
    let fits : (n == 0 || ltb (length (x ∷ y ∷ bs ++ rest)) n) ≡ false =
      ground (arith, length-append bs rest) in
    let zeros : (x == 0x00 && ltb 1 n && not (bit7 y)) ≡ false = ground (arith, m.1, h.1) in
    let ones : (x == 0xFF && ltb 1 n && bit7 y) ≡ false = ground (arith, m.0) in
    let sign : bit7 x ≡ false = ground (arith, m.0) in rw (fits, zeros, ones, sign)

-- A minimal form of a scalar reads as the scalar, whatever follows.
pub parse_integer-append :
    (bs rest : List ℕ) (a : Scalar)
    → IsMinimal bs
    → IsBytes bs
    → length bs < 128
    → IsReduced a
    → be bs ≡ value a
    → parse_integer (0x02 ∷ length bs ∷ (bs ++ rest)) ≡ some (a, rest)
unfolding parse_integer
parse_integer-append bs rest a m h l u e =
    let n = length-drop_zeros bs h (omega (arith, u.below)) in
    let small : ltb 32 (length (drop_zeros bs)) ≡ false = ground arith in
    rw (
      read_len-short (length bs) (bs ++ rest) l,
      parse_body-checks bs rest m h,
      skip_zeros-append bs rest,
      small,
      drop-append (drop_zeros bs) rest,
      scalar_of-append (drop_zeros bs) rest a (drop_zeros-IsBytes bs h) n u (be-drop_zeros bs ∙ e),
    )

-- The stripped form of a scalar.
abbrev pub form : Scalar → List ℕ
form a = strip (0 ∷ get_b32 a)

pub form_lem : (a : Scalar) → IsReduced a → IsStripped (0 ∷ get_b32 a) (form a)
form_lem a u = strip_lem (0 ∷ get_b32 a) (omega arith, (get_b32_lem a u.limbs).0) (omega arith)

pub form-length : (a : Scalar) → IsReduced a → length (form a) ≤ 33
form-length a u = omega (arith, (form_lem a u).shorter, get_b32-length a)

-- The bytes of a signature.
abbrev pub encoding : Scalar → Scalar → List ℕ
encoding r s =
    0x30
    ∷ (4 + length (form s) + length (form r))
    ∷ 0x02
    ∷ length (form r)
    ∷ (form r ++ (0x02 ∷ length (form s) ∷ form s))

-- `secp256k1_ecdsa_sig_serialize` on every branch: the size that is needed is 6 more than the two
-- integers; with less it writes nothing, and with enough it writes the encoding.
pub sig_serialize_lem :
    (size : ℕ) (r s : Scalar)
    → IsReduced r
    → IsReduced s
    → sig_serialize size r s ≡ (
      6 + length (form s) + length (form r),
      if ltb size (6 + length (form s) + length (form r)) then none else some (encoding r s),
    )
unfolding sig_serialize
sig_serialize_lem size r s u v = let n = form-length r u in let n' = form-length s v in ground arith

-- What is written reads back.
pub sig_parse-encoding :
    (r s : Scalar) → IsReduced r → IsReduced s → sig_parse (encoding r s) ≡ some (r, s)
unfolding sig_parse parse_pair
sig_parse-encoding r s u v =
    let f = form_lem r u in
    let g = form_lem s v in
    let n = form-length r u in
    let n' = form-length s v in
    let back = 0x02 ∷ length (form s) ∷ form s in
    let body = 0x02 ∷ length (form r) ∷ (form r ++ back) in
    let total : length body ≡ 4 + length (form s) + length (form r) =
      omega (arith, length-append (form r) back) in
    let first : parse_integer body ≡ some (r, back) =
      parse_integer-append (form r) back r f.minimal f.bytes (omega arith) u
        (f.same ∙ (get_b32_lem r u.limbs).1) in
    let second : parse_integer back ≡ some (s, []) = rw append-nil at (
      parse_integer-append (form s) [] s g.minimal g.bytes (omega arith) v
        (g.same ∙ (get_b32_lem s v.limbs).1)) in
    let fits : ltb (length body) (4 + length (form s) + length (form r)) ≡ false = ground arith in
    let exact : (length body == 4 + length (form s) + length (form r)) ≡ true = ground arith in
    rw (
      read_len-short (4 + length (form s) + length (form r)) body (omega arith),
      fits,
      exact,
      first,
      second,
    )

-- Whatever `secp256k1_ecdsa_sig_serialize` writes for two scalars in their unique form, into a
-- buffer of any size, `secp256k1_ecdsa_sig_parse` reads back to the same scalars. The number of
-- bytes is the size that the call returns, is within the buffer, and is at most 72.
pub sig_parse-sig_serialize :
    (size n : ℕ) (r s : Scalar) (out : List ℕ)
    → IsReduced r
    → IsReduced s
    → sig_serialize size r s ≡ (n, some out)
    → (sig_parse out ≡ some (r, s)) × (length out ≡ n) × (n ≤ size) × (n ≤ 72)
sig_parse-sig_serialize size n r s out u v e =
    let total = length-append (form r) (0x02 ∷ length (form s) ∷ form s) in
    ground (
      arith,
      sig_serialize_lem size r s u v,
      sig_parse-encoding r s u v,
      total,
      form-length r u,
      form-length s v,
    )

-- With room for 72 bytes `secp256k1_ecdsa_sig_serialize` succeeds.
pub sig_serialize_total :
    (size : ℕ) (r s : Scalar)
    → IsReduced r
    → IsReduced s
    → 72 ≤ size
    → (n : ℕ) × (out : List ℕ) × (sig_serialize size r s ≡ (n, some out))
sig_serialize_total size r s u v h = (
  6 + length (form s) + length (form r),
  encoding r s,
  ground (arith, sig_serialize_lem size r s u v, form-length r u, form-length s v),
)
