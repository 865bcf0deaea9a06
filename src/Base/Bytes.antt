-- ===== src/Base/Bytes.antt =====
-- Byte strings as numbers in base 256, the highest byte first.
use Prim.Native.Nat.{ℕ, zero, suc, ◌+◌, ◌*◌, ◌^◌, ◌≤◌, ◌<◌}
use mathlib.Core.Path.{◌≡◌, refl, ◌∙◌, ap, ap₂}
use mathlib.Core.List.{List, [], ◌∷◌, ◌++◌}
use native.Mathlib.Nat.{pow-suc}
use native.Mathlib.Omega.{arith}
use zipologger.Base.Lists.{length, get_or, take, drop, replicate, All}

-- The number that the bytes stand for, read on from `acc`.
abbrev pub be_from : ℕ → List ℕ → ℕ
be_from acc [] = acc
be_from acc (b ∷ bs) = be_from (acc * 256 + b) bs

abbrev pub be : List ℕ → ℕ
be bs = be_from 0 bs

abbrev pub IsBytes : List ℕ → Type 0
IsBytes = All (λ b. b < 256)

pub get_or-IsBytes : (bs : List ℕ) (i : ℕ) → IsBytes bs → get_or bs i 0 < 256
get_or-IsBytes [] i h = omega arith
get_or-IsBytes (b ∷ bs) zero h = h.0
get_or-IsBytes (b ∷ bs) (suc i) h = get_or-IsBytes bs i h.1

pub append-IsBytes : (xs ys : List ℕ) → IsBytes xs → IsBytes ys → IsBytes (xs ++ ys)
append-IsBytes [] ys h k = k
append-IsBytes (x ∷ xs) ys h k = (h.0, append-IsBytes xs ys h.1 k)

pub append-IsBytes_right : (xs ys : List ℕ) → IsBytes (xs ++ ys) → IsBytes ys
append-IsBytes_right [] ys h = h
append-IsBytes_right (x ∷ xs) ys h = append-IsBytes_right xs ys h.1

pub split-IsBytes : (n : ℕ) (xs : List ℕ) → IsBytes xs → IsBytes (take n xs) × IsBytes (drop n xs)
split-IsBytes zero xs h = (tt, h)
split-IsBytes (suc n) [] h = (tt, tt)
split-IsBytes (suc n) (x ∷ xs) h = let k = split-IsBytes n xs h.1 in ((h.0, k.0), k.1)

pub replicate-IsBytes : (n : ℕ) → IsBytes (replicate n 0)
replicate-IsBytes zero = tt
replicate-IsBytes (suc n) = (omega arith, replicate-IsBytes n)

-- The value of the bytes that were read before is moved up by the length.
pub be_from_lem : (acc : ℕ) (bs : List ℕ) → be_from acc bs ≡ acc * 256 ^ length bs + be bs
be_from_lem acc [] = omega arith
be_from_lem acc (b ∷ bs) =
    let there : be_from acc (b ∷ bs) ≡ (acc * 256 + b) * 256 ^ length bs + be bs =
      be_from_lem (acc * 256 + b) bs in
    let here : be (b ∷ bs) ≡ (0 * 256 + b) * 256 ^ length bs + be bs =
      be_from_lem (0 * 256 + b) bs in
    let power : acc * 256 ^ length (b ∷ bs) ≡ acc * (256 ^ length bs * 256) =
      ap (λ (t : ℕ). acc * t) (pow-suc 256 (length bs)) in
    omega arith

pub be-cons : (b : ℕ) (bs : List ℕ) → be (b ∷ bs) ≡ b * 256 ^ length bs + be bs
be-cons b bs = be_from_lem (0 * 256 + b) bs ∙ omega arith

pub be-lt : (bs : List ℕ) → IsBytes bs → be bs < 256 ^ length bs
be-lt [] h = omega arith
be-lt (b ∷ bs) h =
    let up : b * 256 ^ length bs ≤ 255 * 256 ^ length bs = grind (arith, h.0) in
    let power : 256 ^ length (b ∷ bs) ≡ 256 ^ length bs * 256 = pow-suc 256 (length bs) in
    omega (arith, be-cons b bs, be-lt bs h.1)

-- Quotient and remainder are determined.
quotient : (a b r s p : ℕ) → r < p → s < p → a * p + r ≡ b * p + s → (a ≡ b) × (r ≡ s)
quotient zero zero r s p hr hs e = omega arith
quotient zero (suc b) r s p hr hs e = absurd (omega arith)
quotient (suc a) zero r s p hr hs e = absurd (omega arith)
quotient (suc a) (suc b) r s p hr hs e = omega (arith, quotient a b r s p hr hs (omega arith))

-- Leading zero bytes do not count.
pub be-replicate : (n : ℕ) (bs : List ℕ) → be (replicate n 0 ++ bs) ≡ be bs
be-replicate zero bs = refl
be-replicate (suc n) bs = be-replicate n bs

pub be_injective :
    (xs ys : List ℕ) → IsBytes xs → IsBytes ys → length xs ≡ length ys → be xs ≡ be ys → xs ≡ ys
be_injective [] [] h k l e = refl
be_injective [] (y ∷ ys) h k l e = absurd (omega arith)
be_injective (x ∷ xs) [] h k l e = absurd (omega arith)
be_injective (x ∷ xs) (y ∷ ys) h k l e =
    let l' : length xs ≡ length ys = omega arith in
    let p = 256 ^ length xs in
    let g : be (y ∷ ys) ≡ y * p + be ys = rw l' (be-cons y ys) in
    let by : be ys < p = rw l' (be-lt ys k.1) in
    let q = quotient x y (be xs) (be ys) p (be-lt xs h.1) by (omega (arith, be-cons x xs)) in
    ap₂ ◌∷◌ q.0 (be_injective xs ys h.1 k.1 l' q.1)
