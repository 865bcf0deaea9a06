-- ===== src/Der/Integer.antt =====
-- What an integer of a signature looks like, if it is read as a nonzero scalar.
use mathlib.Core.Path.{ap₂}
use zipologger.Base.{ℕ, ◌-◌, ◌^◌, ◌≤◌, ◌<◌, ◌≡◌, ◌≢◌, refl, sym, ◌∙◌, ap, arith}
use zipologger.Base.{true, false, not, ◌&&◌, ◌||◌, ltb, ◌==◌, Bool-cases, inl, inr}
use zipologger.Base.{
  List, [], ◌∷◌, ◌++◌, length, get_or, length-append, take, drop, replicate, length-take,
}
use zipologger.Base.{
  take-append, take-append-drop, drop-append, length-replicate, some, ◌>>=◌, >>=-eq-some,
}
use zipologger.Base.Bytes.{
  be, IsBytes, split-IsBytes, append-IsBytes, replicate-IsBytes, be-replicate,
}
use zipologger.Scalar.{Scalar, set_int, set_b32}
use zipologger.Scalar.Value.{order, value, IsReduced}
use zipologger.Scalar.Bytes.{set_b32_lem, get_b32_lem}
use zipologger.Der.{bit7, read_len, skip_zeros, scalar_of, parse_body, parse_integer}
use zipologger.Der.Minimal.{
  IsMinimal, drop_zeros, skip_zeros-append, drop_zeros-IsBytes, be-drop_zeros,
}
use zipologger.Der.Encode.{form, form_lem, form-length}
use zipologger.Der.Unique.{minimal_unique, read_len-cases, read_len-rest}

scalar_of-overflow : (n : ℕ) (p : List ℕ) → value (scalar_of true n p) ≡ 0
unfolding scalar_of set_int
scalar_of-overflow n p = refl

-- A nonzero scalar comes from bytes with no overflow, and is their number.
scalar_of-inverts :
    (bs rest : List ℕ) (a : Scalar)
    → IsBytes bs
    → length bs ≤ 32
    → scalar_of false (length bs) (bs ++ rest) ≡ a
    → value a ≢ 0
    → (be bs ≡ value a) × IsReduced a
unfolding scalar_of set_int
scalar_of-inverts bs rest a h l e ne =
    let zeros : List ℕ = replicate (32 - length bs) 0 in
    let size : length (zeros ++ bs) ≡ 32 =
      omega (arith, length-append zeros bs, length-replicate {A = ℕ} (32 - length bs) 0) in
    let s =
      set_b32_lem (zeros ++ bs) (append-IsBytes zeros bs (replicate-IsBytes (32 - length bs)) h)
        size in
    let e' = rw (take-append bs rest) at e in
    elim (Bool-cases (set_b32 (zeros ++ bs)).1) [
      | inl o ↦ let z = rw o at e' in absurd (ne (rw (← z)))
      | inr o ↦
          let r : (set_b32 (zeros ++ bs)).0 ≡ a = rw o at e' in
          let small : be (zeros ++ bs) < order = ground (arith, s.2) in
          rw (← r) (omega (arith, s.1, be-replicate (32 - length bs) bs), s.0)
    ]

-- What a success of `parse_body` says.
parse_body-some :
    (n : ℕ) (p q : List ℕ) (a : Scalar)
    → parse_body n p ≡ some (a, q)
    → let (m, r) = skip_zeros n p in
      (n ≢ 0)
      × (n ≤ length p)
      × ((get_or p 0 0 == 0x00 && ltb 1 n && not (bit7 (get_or p 1 0))) ≡ false)
      × (scalar_of (bit7 (get_or p 0 0) || ltb 32 m) m r ≡ a)
      × (drop m r ≡ q)
unfolding parse_body
parse_body-some n p q a e = ground arith

-- The checks on padding and sign leave a minimal form, if the scalar is not 0.
parse_body-IsMinimal :
    (bs rest : List ℕ)
    → IsBytes bs
    → length bs ≢ 0
    → bit7 (get_or (bs ++ rest) 0 0) ≡ false
    → (get_or (bs ++ rest) 0 0 == 0x00 && ltb 1 (length bs) && not (bit7 (get_or (bs ++ rest) 1 0)))
      ≡ false
    → IsMinimal bs
parse_body-IsMinimal [] rest h n b z = absurd (n refl)
parse_body-IsMinimal (x ∷ []) rest h n b z = ground arith
parse_body-IsMinimal (x ∷ y ∷ bs) rest h n b z = (ground (arith, h.0), λ e. ground arith)

parse_body-inverts :
    (bs rest q : List ℕ) (a : Scalar)
    → IsBytes bs
    → parse_body (length bs) (bs ++ rest) ≡ some (a, q)
    → value a ≢ 0
    → IsMinimal bs × (be bs ≡ value a) × IsReduced a × (q ≡ rest)
parse_body-inverts bs rest q a h e ne =
    let f = rw skip_zeros-append at (parse_body-some (length bs) (bs ++ rest) q a e) in
    let over = bit7 (get_or (bs ++ rest) 0 0) || ltb 32 (length (drop_zeros bs)) in
    elim (Bool-cases over) [
      | inl o ↦
          let zero_value = scalar_of-overflow (length (drop_zeros bs)) (drop_zeros bs ++ rest) in
          absurd (ne (sym (ap value (rw o at f.3)) ∙ zero_value))
      | inr o ↦
          let sign : bit7 (get_or (bs ++ rest) 0 0) ≡ false = ground arith in
          let small : length (drop_zeros bs) ≤ 32 = ground arith in
          let v =
            scalar_of-inverts (drop_zeros bs) rest a (drop_zeros-IsBytes bs h) small (rw o at f.3)
              ne in
          (
            parse_body-IsMinimal bs rest h f.0 sign f.2,
            sym (be-drop_zeros bs) ∙ v.0,
            v.1,
            sym f.4 ∙ drop-append (drop_zeros bs) rest,
          )
    ]

pub cons_eq : {t u : ℕ} {p q : List ℕ} → t ≡ u → p ≡ q → t ∷ p ≡ u ∷ q
cons_eq e f = ap₂ ◌∷◌ e f

-- An integer that is read as a nonzero scalar is the tag, the length and the shortest form of that
-- scalar; the rest of the input is shorter than 2^31 bytes.
pub parse_integer-inverts :
    (p q : List ℕ) (a : Scalar)
    → IsBytes p
    → length p < 2 ^ 31
    → parse_integer p ≡ some (a, q)
    → value a ≢ 0
    → IsReduced a × (p ≡ 0x02 ∷ length (form a) ∷ (form a ++ q))
unfolding parse_integer
parse_integer-inverts [] q a h l e ne = cc
parse_integer-inverts (t ∷ p) q a h l e ne =
    let tag : t ≡ 0x02 = ground arith in
    let e' : (read_len p >>= λ (n, r). parse_body n r) ≡ some (a, q) = ground arith in
    let m = >>=-eq-some (read_len p) (λ (n, r). parse_body n r) e' in
    let n = m.0.0 in
    let r = m.0.1 in
    let bs = take n r in
    let f = read_len-rest n p r h.1 m.1 in
    let whole = take-append-drop n r in
    let count : length bs ≡ n = omega (arith, length-take n r, (parse_body-some n r q a m.2).1) in
    let b = (split-IsBytes n r f.1).0 in
    let v = parse_body-inverts bs (drop n r) q a b (ap₂ parse_body count whole ∙ m.2) ne in
    let g = form_lem a v.2 in
    let same : bs ≡ form a =
      minimal_unique bs (form a) v.0 g.minimal b g.bytes
        (v.1 ∙ sym (get_b32_lem a v.2.limbs).1 ∙ sym g.same) in
    let size : n ≤ 33 = omega (arith, ap length same, form-length a v.2, count) in
    (
      v.2,
      elim (read_len-cases n p r h.1 m.1 (omega (arith, f.0))) [
        | inl (short, _) ↦
            cons_eq tag
              (short ∙ cons_eq (sym count ∙ ap length same) (sym whole ∙ ap₂ ◌++◌ same (sym v.3)))
        | inr long ↦ absurd (omega arith)
      ],
    )
