-- ===== src/Ecdsa/Loop.antt =====
-- The loop over nonces: what it returns, and that enough fuel makes it return.
use zipologger.Base.{ℕ, zero, suc, ◌+◌, ◌^◌, ◌<◌, ◌≡◌, ◌∙◌, ap, refl, arith, u32}
use zipologger.Base.{inl, inr, ◌⊎◌, Option, none, some, List}
use zipologger.Scalar.{Scalar}
use zipologger.Curve.{Curve}
use zipologger.Ecdsa.{attempt, sign_loop}

first_or_rest {ℓ} :
    {A : Type ℓ} (first rest : Option A) {out : A}
    → elim first [ none ↦ rest | some x ↦ some x ] ≡ some out
    → (first ≡ some out) ⊎ (rest ≡ some out)
first_or_rest none rest h = inr h
first_or_rest (some x) rest h = inl h

module _ (curve : Curve) (noncefp : ℕ → Option (List ℕ)) (sec msg : Scalar) where
  -- If the rounds before the k-th go on and the k-th ends the loop with `out`, then more than k
  -- units of fuel give `out`, the counter being below 2^32.
  pub sign_loop_lem :
      (k fuel count : ℕ) (out : Option (Scalar × Scalar × ℕ))
      → k < fuel
      → count + k < 2 ^ 32
      → ((i : ℕ) → i < k → attempt curve noncefp sec msg (count + i) ≡ none)
      → attempt curve noncefp sec msg (count + k) ≡ some out
      → sign_loop curve fuel noncefp sec msg count ≡ some out
  unfolding sign_loop
  sign_loop_lem k zero count out f w on end = absurd (omega arith)
  sign_loop_lem zero (suc fuel) count out f w on end =
      let end' : attempt curve noncefp sec msg count ≡ some out =
        ap (attempt curve noncefp sec msg) (omega arith) ∙ end in
      rw (sign_loop, end') refl
  sign_loop_lem (suc k) (suc fuel) count out f w on end =
      let first : attempt curve noncefp sec msg count ≡ none =
        ap (attempt curve noncefp sec msg) (omega arith) ∙ on 0 (omega arith) in
      let next : u32 (count + 1) ≡ count + 1 = omega arith in
      rw (sign_loop, first, next)
        (sign_loop_lem k fuel (count + 1) out (omega arith) (omega arith)
          (λ i p. ap (attempt curve noncefp sec msg) (omega arith) ∙ on (suc i) (omega arith))
          (ap (attempt curve noncefp sec msg) (omega arith) ∙ end))

  -- Whatever the fuel, a result of the loop is the result of one of its rounds.
  pub sign_loop_sound :
      (fuel count : ℕ) (out : Option (Scalar × Scalar × ℕ))
      → sign_loop curve fuel noncefp sec msg count ≡ some out
      → (i : ℕ) × (attempt curve noncefp sec msg i ≡ some out)
  unfolding sign_loop
  sign_loop_sound zero count out h = cc
  sign_loop_sound (suc fuel) count out h =
      elim (first_or_rest (attempt curve noncefp sec msg count)
        (sign_loop curve fuel noncefp sec msg (u32 (count + 1))) h) [
          | inl e ↦ (count, e)
          | inr e ↦ sign_loop_sound fuel (u32 (count + 1)) out e
        ]
