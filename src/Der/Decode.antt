-- ===== src/Der/Decode.antt =====
-- What `sig_parse` accepts with two nonzero results is what `sig_serialize` writes.
use mathlib.Core.Path.{ap₂, subst}
use zipologger.Base.{ℕ, ◌+◌, ◌^◌, ◌≤◌, ◌<◌, ◌≡◌, ◌≢◌, sym, ◌∙◌, ap, arith}
use zipologger.Base.{ltb, ◌==◌, if◌then◌else◌, inl, inr}
use zipologger.Base.{List, [], ◌∷◌, ◌++◌, length, length-append}
use zipologger.Base.{append-nil, Option, none, some, ◌>>=◌, >>=-eq-some}
use zipologger.Base.Bytes.{IsBytes, append-IsBytes_right}
use zipologger.Scalar.{Scalar}
use zipologger.Scalar.Value.{value, IsReduced}
use zipologger.Der.{read_len, parse_integer, parse_pair, sig_parse, sig_serialize}
use zipologger.Der.Encode.{form, form-length, encoding, sig_serialize_lem}
use zipologger.Der.Unique.{read_len-cases, read_len-rest, read_len-int}
use zipologger.Der.Integer.{cons_eq, parse_integer-inverts}

-- The two integers of a signature.
abbrev pair_form : Scalar → Scalar → List ℕ
pair_form r s = 0x02 ∷ length (form r) ∷ (form r ++ (0x02 ∷ length (form s) ∷ form s))

pair_end :
    (q : List ℕ) (a b : Scalar) {r s : Scalar}
    → (if◌then◌else◌ {A = Option (Scalar × Scalar)} (length q == 0) (some (a, b)) none)
      ≡ some (r, s)
    → (q ≡ []) × (a ≡ r) × (b ≡ s)
pair_end [] a b e = ground arith
pair_end (x ∷ q) a b e = ground arith

parse_pair-inverts :
    (p : List ℕ) (r s : Scalar)
    → IsBytes p
    → length p < 2 ^ 31
    → parse_pair p ≡ some (r, s)
    → value r ≢ 0
    → value s ≢ 0
    → IsReduced r × IsReduced s × (p ≡ pair_form r s)
unfolding parse_pair
parse_pair-inverts p r s h l e nr ns =
    let m = >>=-eq-some (parse_integer p) _ e in
    let r' = m.0.0 in
    let q = m.0.1 in
    let m' = >>=-eq-some (parse_integer q) _ m.2 in
    let s' = m'.0.0 in
    let q' = m'.0.1 in
    let end : (q' ≡ []) × (r' ≡ r) × (s' ≡ s) = pair_end q' r' s' m'.2 in
    let first : parse_integer p ≡ some (r, q) = m.1 ∙ ap (λ t. some (t, q)) end.1 in
    let second : parse_integer q ≡ some (s, []) = m'.1 ∙ ap₂ (λ t u. some (t, u)) end.2 end.0 in
    let i = parse_integer-inverts p q r h l first nr in
    let hq = append-IsBytes_right (0x02 ∷ length (form r) ∷ form r) q (subst IsBytes i.1 h) in
    let lq : length q < 2 ^ 31 = omega (arith, ap length i.1, length-append (form r) q) in
    let j = parse_integer-inverts q [] s hq lq second ns in
    (i.0, j.0, i.1 ∙ ap (λ t. 0x02 ∷ length (form r) ∷ (form r ++ t)) (rw append-nil at j.1))

-- The checks of `sig_parse` on the length of the tuple.
abbrev sized : ℕ → List ℕ → Option (Scalar × Scalar)
sized n q = if ltb (length q) n then none else if length q == n then parse_pair q else none

sized-some :
    (n : ℕ) (q : List ℕ) (r s : Scalar)
    → sized n q ≡ some (r, s)
    → (length q ≡ n) × (parse_pair q ≡ some (r, s))
sized-some n q r s e = ground arith

sig_parse-inverts :
    (sig : List ℕ) (r s : Scalar)
    → IsBytes sig
    → sig_parse sig ≡ some (r, s)
    → value r ≢ 0
    → value s ≢ 0
    → IsReduced r × IsReduced s × (sig ≡ encoding r s)
unfolding sig_parse
sig_parse-inverts [] r s h e nr ns = cc
sig_parse-inverts (t ∷ p) r s h e nr ns =
    let tag : t ≡ 0x30 = ground arith in
    let e' : (read_len p >>= λ (n, q). sized n q) ≡ some (r, s) = ground arith in
    let m = >>=-eq-some (read_len p) (λ (n, q). sized n q) e' in
    let n = m.0.0 in
    let q = m.0.1 in
    let c = sized-some n q r s m.2 in
    let f = read_len-rest n p q h.1 m.1 in
    let int : length q < 2 ^ 31 = omega (arith, c.0, read_len-int n p q h.1 m.1) in
    let v = parse_pair-inverts q r s f.1 int c.1 nr ns in
    let total : n ≡ 4 + length (form s) + length (form r) =
      sym c.0
      ∙ ap length v.2
      ∙ omega (arith, length-append (form r) (0x02 ∷ length (form s) ∷ form s)) in
    let fits : n < 128 = omega (arith, total, form-length r v.0, form-length s v.1) in
    (
      v.0,
      v.1,
      elim (read_len-cases n p q h.1 m.1 int) [
        | inl (short, _) ↦ cons_eq tag (short ∙ cons_eq total v.2)
        | inr long ↦ absurd (omega arith)
      ],
    )

-- Of two nonzero scalars that `secp256k1_ecdsa_sig_parse` reads from a byte string, the bytes that
-- `secp256k1_ecdsa_sig_serialize` writes into a buffer of sufficient size are that very string: a
-- signature has one DER form.
pub sig_serialize-sig_parse :
    (sig : List ℕ) (size : ℕ) (r s : Scalar)
    → IsBytes sig
    → sig_parse sig ≡ some (r, s)
    → value r ≢ 0
    → value s ≢ 0
    → length sig ≤ size
    → sig_serialize size r s ≡ (length sig, some sig)
sig_serialize-sig_parse sig size r s h e nr ns fits =
    let v = sig_parse-inverts sig r s h e nr ns in
    let total = ap length v.2 in
    ground (
      arith,
      sig_serialize_lem size r s v.0 v.1,
      v.2,
      total,
      length-append (form r) (0x02 ∷ length (form s) ∷ form s),
    )
