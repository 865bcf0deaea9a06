-- ===== src/Ecdsa/Tests.antt =====
-- The theorems about signing and verifying at a concrete instance of the curve's operations.
use zipologger.Base.{
  ℕ, zero, suc, ◌+◌, ◌≤◌, ◌<◌, ◌≡◌, refl, true, false, arith, List, ◌++◌, [], ◌∷◌, replicate,
  Option, none, some, subst, some-injective, length,
}
use zipologger.Base.Bytes.{IsBytes}
use zipologger.Scalar.{
  Scalar, is_zero, set_b32, limb_of_bytes, check_overflow, reduce, get_b32, bytes_of_limb,
}
use zipologger.Scalar.Value.{value, is_zero_iff}
use zipologger.Signature.{signature_save}
use zipologger.Curve.Sample.{sample, sample-HasBytes}
use zipologger.Ecdsa.{nonce_point, sig_sign, attempt, ecdsa_sign}
use zipologger.Ecdsa.Sign.{equation, sig_sign_lem}
use zipologger.Ecdsa.Result.{ecdsa_sign_returns}

abbrev five : Scalar
five = record { d0 = 5; d1 = 0; d2 = 0; d3 = 0 }

abbrev spread : Scalar
spread = record { d0 = 5; d1 = 6; d2 = 7; d3 = 8 }

abbrev zeros : List ℕ
zeros = replicate 32 0

-- A nonce function that gives 0 once and then fails.
abbrev failing : ℕ → Option (List ℕ)
failing zero = some zeros
failing (suc i) = none

zero_scalar : is_zero (set_b32 zeros).0 ≡ true
unfolding set_b32 limb_of_bytes check_overflow reduce
zero_scalar = (is_zero_iff (set_b32 zeros).0).1 refl

first_goes_on : attempt sample failing five spread 0 ≡ none
unfolding attempt set_b32 limb_of_bytes check_overflow reduce
first_goes_on = rw zero_scalar refl

second_fails : attempt sample failing five spread 1 ≡ some none
unfolding attempt
second_fails = refl

go_on : (i : ℕ) → i < 1 → attempt sample failing five spread (0 + i) ≡ none
go_on zero h = first_goes_on
go_on (suc i) h = absurd (omega arith)

-- A run with nonce 1, key 2 and message 5.
abbrev one_bytes : List ℕ
one_bytes = replicate 31 0 ++ 1 ∷ []

abbrev two_bytes : List ℕ
two_bytes = replicate 31 0 ++ 2 ∷ []

abbrev five_bytes : List ℕ
five_bytes = replicate 31 0 ++ 5 ∷ []

abbrev one : Scalar
one = record { d0 = 1; d1 = 0; d2 = 0; d3 = 0 }

abbrev two : Scalar
two = record { d0 = 2; d1 = 0; d2 = 0; d3 = 0 }

read_one : set_b32 one_bytes ≡ (one, false)
unfolding set_b32 limb_of_bytes check_overflow reduce
read_one = refl

read_two : set_b32 two_bytes ≡ (two, false)
unfolding set_b32 limb_of_bytes check_overflow reduce
read_two = refl

read_five : set_b32 five_bytes ≡ (five, false)
unfolding set_b32 limb_of_bytes check_overflow reduce
read_five = refl

point_one : value ((nonce_point sample one).0).0 ≡ 1
unfolding nonce_point set_b32 limb_of_bytes check_overflow reduce get_b32 bytes_of_limb
point_one = refl

solvable : (r : ℕ) → r ≡ 1 → 1 ≤ equation (value one) r (value two) (value five)
solvable r e = rw e (omega arith)

accepted : (sig_sign sample two five one).1 ≡ true
accepted =
    (sig_sign_lem sample sample-HasBytes two five one (omega arith) (omega arith)
        (omega arith)).accepts.1
      (solvable (value ((nonce_point sample one).0).0) point_one)

abbrev signed : Scalar × Scalar × ℕ
signed = (sig_sign sample two five one).0

abbrev always_one : List ℕ → List ℕ → ℕ → Option (List ℕ)
always_one m k i = some one_bytes

one_nonzero : is_zero one ≡ false
one_nonzero = let z = is_zero_iff one in ground arith

ends_at_once : attempt sample (always_one five_bytes two_bytes) two five 0 ≡ some (some signed)
unfolding attempt
ends_at_once = rw (read_one, one_nonzero, accepted) refl

signs :
    (fuel : ℕ)
    → 0 < fuel
    → ecdsa_sign sample fuel always_one five_bytes two_bytes
      ≡ some (signature_save signed.0 signed.1, true)
signs fuel h =
    ecdsa_sign_returns sample always_one five_bytes two_bytes (omega arith) refl (omega arith) refl
      0 fuel signed.0 signed.1 signed.2 (omega arith) (omega arith) h (omega arith)
      (λ i k. absurd (omega arith)) (rw (read_two, read_five) ends_at_once)

always_one-IsBytes :
    (i : ℕ) (b : List ℕ) → always_one five_bytes two_bytes i ≡ some b → IsBytes b × (length b ≡ 32)
always_one-IsBytes i b e =
    subst (λ (x : List ℕ). IsBytes x × (length x ≡ 32)) (some-injective one_bytes b e)
      (omega arith, refl)
