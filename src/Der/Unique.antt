-- ===== src/Der/Unique.antt =====
-- Two shortest forms of one number are the same, and only short lengths occur in a signature.
use zipologger.Base.{ℕ, zero, suc, ◌+◌, ◌-◌, ◌*◌, ◌/◌, ◌%◌, ◌^◌, ◌≤◌, ◌<◌, ◌≡◌, ◌≢◌, refl}
use zipologger.Base.{Bool-cases, ltb→lt, ltb→ge, ltb, ◌==◌, arith, inl, inr, ◌⊎◌, shl64, bit_or}
use zipologger.Base.{List, [], ◌∷◌, length, some}
use zipologger.Base.Bits.{bit_or_high}
use zipologger.Base.Bytes.{be, IsBytes, be-cons, be-lt, be_injective}
use native.Mathlib.Nat.{pow-suc, pow-le-pow_right}
use zipologger.Der.{len_loop, read_len}
use zipologger.Der.Minimal.{IsMinimal}

above : (x : ℕ) (bs : List ℕ) → x < 128 → IsBytes bs → be (x ∷ bs) < 128 * 256 ^ length bs
above x bs h k =
    let up : (x + 1) * 256 ^ length bs ≤ 128 * 256 ^ length bs = grind (arith, h) in
    omega (arith, be-cons x bs, be-lt bs k)

below : (x y : ℕ) (bs : List ℕ) → IsMinimal (x ∷ y ∷ bs) → 128 * 256 ^ length bs ≤ be (x ∷ y ∷ bs)
below zero y bs m =
    let up : 128 * 256 ^ length bs ≤ y * 256 ^ length bs = grind (arith, m.1 refl) in
    omega (arith, be-cons zero (y ∷ bs), be-cons y bs)
below (suc x) y bs m =
    let power : 256 ^ length (y ∷ bs) ≡ 256 ^ length bs * 256 = pow-suc 256 (length bs) in
    omega (arith, be-cons (suc x) (y ∷ bs))

-- A shorter minimal form stands for a smaller number.
shorter-lt :
    (xs ys : List ℕ)
    → IsMinimal xs
    → IsMinimal ys
    → IsBytes xs
    → length xs < length ys
    → be xs < be ys
shorter-lt [] ys m n h l = absurd m
shorter-lt (x ∷ xs) [] m n h l = absurd n
shorter-lt (x ∷ xs) (y ∷ []) m n h l = absurd (omega arith)
shorter-lt (x ∷ xs) (y ∷ z ∷ ys) m n h l =
    let p : 256 ^ length xs ≤ 256 ^ length ys = pow-le-pow_right (omega arith) (omega arith) in
    omega (arith, above x xs (head-lt x xs m) h.1, below y z ys n)
  where
    head-lt : (x : ℕ) (xs : List ℕ) → IsMinimal (x ∷ xs) → x < 128
    head-lt x [] m = m
    head-lt x (y ∷ ys) m = m.0

pub minimal_unique :
    (xs ys : List ℕ)
    → IsMinimal xs
    → IsMinimal ys
    → IsBytes xs
    → IsBytes ys
    → be xs ≡ be ys
    → xs ≡ ys
minimal_unique xs ys m n h k e = elim (Bool-cases (ltb (length xs) (length ys))) [
  | inl l ↦ absurd (omega (arith, shorter-lt xs ys m n h (ltb→lt _ _ l)))
  | inr l ↦ elim (Bool-cases (ltb (length ys) (length xs))) [
    | inl l' ↦ absurd (omega (arith, shorter-lt ys xs n m k (ltb→lt _ _ l')))
    | inr l' ↦ be_injective xs ys h k (omega (arith, ltb→ge _ _ l, ltb→ge _ _ l')) e
  ]
]

shifted : (ret b : ℕ) → b < 256 → bit_or (shl64 ret 8) b < 2 ^ 64
shifted ret b h =
    let e : shl64 ret 8 ≡ ret % 2 ^ 56 * 2 ^ 8 = omega arith in
    rw e (omega (arith, bit_or_high 8 (ret % 2 ^ 56) b h))

-- A length in the long form is 128 at least, if what follows it is shorter than 2^31 bytes.
len_loop-long :
    (k ret n : ℕ) (p r : List ℕ)
    → IsBytes p
    → len_loop (suc k) ret p ≡ some (n, r)
    → length r < 2 ^ 31
    → 128 ≤ n
unfolding len_loop
len_loop-long k ret n [] r h e l = cc
len_loop-long zero ret n (b ∷ p) r h e l = let s = shifted ret b h.0 in ground (arith, s)
len_loop-long (suc k) ret n (b ∷ p) r h e l =
    ground (arith, len_loop-long k (bit_or (shl64 ret 8) b) n p r h.1)

-- So what is read is either the one byte of a short length, or 128 at least.
pub read_len-cases :
    (n : ℕ) (p r : List ℕ)
    → IsBytes p
    → read_len p ≡ some (n, r)
    → length r < 2 ^ 31
    → ((p ≡ n ∷ r) × (n < 128)) ⊎ (128 ≤ n)
unfolding read_len
read_len-cases n [] r h e l = cc
read_len-cases n (b ∷ p) r h e l = elim (Bool-cases (ltb b 128)) [
  | inl s ↦ inl (ground arith)
  | inr s ↦
      let loop : len_loop (b % 128) 0 p ≡ some (n, r) = ground arith in
      let more : b ≢ 128 = λ z. ground arith in
      let left : b % 128 ≡ suc (b % 128 - 1) = ground (arith, h.0) in
      inr (len_loop-long (b % 128 - 1) 0 n p r h.1 (rw left at loop) l)
]

-- What a length leaves of the input.
len_loop-rest :
    (k ret n : ℕ) (p r : List ℕ)
    → IsBytes p
    → len_loop k ret p ≡ some (n, r)
    → (length r ≤ length p) × IsBytes r
unfolding len_loop
len_loop-rest zero ret n p r h e = let same : r ≡ p = ground arith in rw same (omega arith, h)
len_loop-rest (suc k) ret n [] r h e = cc
len_loop-rest (suc k) ret n (b ∷ p) r h e =
    let f = len_loop-rest k (bit_or (shl64 ret 8) b) n p r h.1 (ground arith) in
    (omega (arith, f.0), f.1)

pub read_len-rest :
    (n : ℕ) (p r : List ℕ)
    → IsBytes p
    → read_len p ≡ some (n, r)
    → (length r < length p) × IsBytes r
unfolding read_len
read_len-rest n [] r h e = cc
read_len-rest n (b ∷ p) r h e = elim (Bool-cases (ltb b 128)) [
  | inl s ↦ let same : r ≡ p = ground arith in rw same (omega arith, h.1)
  | inr s ↦ let f = len_loop-rest (b % 128) 0 n p r h.1 (ground arith) in (omega (arith, f.0), f.1)
]

-- A length that is returned is a nonnegative `int`.
len_loop-int : (k ret n : ℕ) (p r : List ℕ) → len_loop k ret p ≡ some (n, r) → n < 2 ^ 31
unfolding len_loop
len_loop-int zero ret n p r e = ground arith
len_loop-int (suc k) ret n [] r e = cc
len_loop-int (suc k) ret n (b ∷ p) r e =
    len_loop-int k (bit_or (shl64 ret 8) b) n p r (ground arith)

pub read_len-int : (n : ℕ) (p r : List ℕ) → IsBytes p → read_len p ≡ some (n, r) → n < 2 ^ 31
unfolding read_len
read_len-int n [] r h e = cc
read_len-int n (b ∷ p) r h e = elim (Bool-cases (b / 128 % 2 == 1)) [
  | inl s ↦ len_loop-int (b % 128) 0 n p r (ground arith)
  | inr s ↦ ground (arith, h.0)
]
