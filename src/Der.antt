-- ===== src/Der.antt =====
-- libsecp256k1/src/ecdsa_impl.h: the DER form of signatures, read and written.
-- A pointer into the input is the list of the bytes from it up to `sigend`.
pub mod Minimal
pub mod Encode
pub mod Unique
pub mod Integer
pub mod Decode
pub mod Tests
use zipologger.Base.{ℕ, zero, suc, ◌+◌, ◌-◌, ◌*◌, ◌/◌, ◌%◌, ◌^◌, Bool, not, ◌&&◌, ◌||◌, bit_or}
use zipologger.Base.{List, [], ◌∷◌, ◌++◌, length, get_or, take, drop, replicate, Option, none, some}
use zipologger.Base.{ltb, ◌==◌, if◌then◌else◌, u8, u32, u64, shl64, ◌>>=◌}
use zipologger.Scalar.{Scalar, set_int, set_b32, get_b32}

-- `b & 0x80` of a byte.
abbrev pub bit7 : ℕ → Bool
bit7 b = b / 128 % 2 == 1

-- The conversion of a `size_t` to the `int` that `secp256k1_der_read_len` returns. A negative
-- result is `none`, as -1 is: both callers refuse it.
abbrev pub to_int : ℕ → List ℕ → Option (ℕ × List ℕ)
to_int n p = if ltb (u32 n) (2 ^ 31) then some (u32 n, p) else none

-- The loop over the length octets: what is left of `lenleft`, and `ret`. At the end of the input,
-- which the check before the loop excludes, the model stops.
pub len_loop : ℕ → ℕ → List ℕ → Option (ℕ × List ℕ)
len_loop zero ret p = if ltb ret 128 then none else to_int ret p
len_loop (suc lenleft) ret [] = none
len_loop (suc lenleft) ret (b ∷ p) =
    let ret' = bit_or (shl64 ret 8) b in
    let rest = len_loop lenleft ret' p in
    if ltb (length (b ∷ p)) (u64 (ret' + suc lenleft)) then none else rest

-- The length, and the pointer behind it; `sizeof(size_t)` is 8.
pub read_len : List ℕ → Option (ℕ × List ℕ)
read_len [] = none
read_len (b1 ∷ p) =
    let lenleft = b1 % 128 in
    if b1 == 0xFF
    then none
    else if not (bit7 b1)
    then some (b1, p)
    else if b1 == 0x80
    then none
    else if ltb (length p) lenleft
    then none
    else if get_or p 0 0 == 0
    then none
    else if ltb 8 lenleft
    then none
    else len_loop lenleft 0 p

-- The loop that skips leading zero bytes: `rlen` and the pointer after it.
pub skip_zeros : ℕ → List ℕ → ℕ × List ℕ
skip_zeros zero p = (0, p)
skip_zeros (suc rlen) [] = (suc rlen, [])
skip_zeros (suc rlen) (b ∷ p) = if b == 0 then skip_zeros rlen p else (suc rlen, b ∷ p)

-- The scalar from the `rlen` bytes at `p`, and 0 on an overflow.
pub scalar_of : Bool → ℕ → List ℕ → Scalar
scalar_of overflow rlen p =
    if overflow
    then set_int 0
    else (let (r, over) = set_b32 (replicate (32 - rlen) 0 ++ take rlen p) in
        if over then set_int 0 else r)

-- `secp256k1_der_parse_integer` behind the tag and the length.
pub parse_body : ℕ → List ℕ → Option (Scalar × List ℕ)
parse_body rlen p =
    let b0 = get_or p 0 0 in
    let b1 = get_or p 1 0 in
    if rlen == 0 || ltb (length p) rlen
    then none
    else if b0 == 0x00 && ltb 1 rlen && not (bit7 b1)
    then none
    else if b0 == 0xFF && ltb 1 rlen && bit7 b1
    then none
    else (let (rlen', p') = skip_zeros rlen p in
        some (scalar_of (bit7 b0 || ltb 32 rlen') rlen' p', drop rlen' p'))

-- The scalar, and the pointer behind the integer; `none` is the return of 0.
pub parse_integer : List ℕ → Option (Scalar × List ℕ)
parse_integer [] = none
parse_integer (tag ∷ p) =
    if tag == 0x02 then (read_len p >>= λ (rlen, q). parse_body rlen q) else none

-- The end of `secp256k1_ecdsa_sig_parse`, behind the length of the tuple.
pub parse_pair : List ℕ → Option (Scalar × Scalar)
parse_pair p = do
  (r, q) ← parse_integer p
  (s, q') ← parse_integer q
  if length q' == 0 then some (r, s) else none

pub sig_parse : List ℕ → Option (Scalar × Scalar)
sig_parse [] = none
sig_parse (tag ∷ p) =
    if tag == 0x30
    then (read_len p >>= λ (rlen, q).
        if ltb (length q) rlen then none else if length q == rlen then parse_pair q else none)
    else none

-- The loops over `rp` and `sp`.
pub strip : List ℕ → List ℕ
strip [] = []
strip (a ∷ []) = a ∷ []
strip (a ∷ b ∷ bs) = if a == 0 && ltb b 0x80 then strip (b ∷ bs) else a ∷ b ∷ bs

-- `*size` after the call, and the bytes written if it returns 1.
pub sig_serialize : ℕ → Scalar → Scalar → ℕ × Option (List ℕ)
sig_serialize size ar as' =
    let rp = strip (0 ∷ get_b32 ar) in
    let sp = strip (0 ∷ get_b32 as') in
    let need = 6 + length sp + length rp in
    if ltb size need then (need, none) else (
      need,
      some (
          0x30
          ∷ u8 (4 + length sp + length rp)
          ∷ 0x02
          ∷ u8 (length rp)
          ∷ (rp ++ (0x02 ∷ u8 (length sp) ∷ sp))),
    )
