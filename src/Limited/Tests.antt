-- ===== src/Limited/Tests.antt =====
-- LimitedPrintf with a cache that is a function from the ids.
use zipologger.Base.{
  ℕ, ◌+◌, ◌-◌, ◌*◌, ◌<◌, ◌≤◌, ◌≡◌, refl, arith, ap, inl, inr, true, Bool-cases, ltb, ◌==◌,
  if◌then◌else◌, List, [], ◌∷◌, length, Option, none, some, some-injective,
}
use zipologger.Limited.{Cache, IsCache, LimitedCall, lifetime, limited_printf, prints}
use zipologger.Limited.Spacing.{IsSequence, IsSpaced, prints-IsSpaced}
use zipologger.Limited.Bound.{finish, length-prints}

-- The value of an entry that is young enough.
abbrev young : ℕ → Option (ℕ × ℕ) → Option ℕ
young now none = none
young now (some (v, t)) = if ltb now (t + lifetime) then some v else none

abbrev table : Cache
table = record {
  State = ℕ → Option (ℕ × ℕ);
  get = λ now id s. (young now (s id), s);
  add = λ now id v s. λ i. if i == id then some (v, now) else s i;
}

young_found : (now v : ℕ) (e : Option (ℕ × ℕ)) → young now e ≡ some v → (t : ℕ) × (e ≡ some (v, t))
young_found now v none h = cc
young_found now v (some (w, t)) h = elim (Bool-cases (ltb now (t + lifetime))) [
  | inl e ↦ let h = rw e at h in (t, ap (λ (x : ℕ). some (x, t)) (some-injective w v h))
  | inr e ↦ let h = rw e at h in cc
]

young_kept :
    (now v t : ℕ) (e : Option (ℕ × ℕ)) → e ≡ some (v, t) → now < t + lifetime → young now e ≡ some v
young_kept now v t e h k = let y : ltb now (t + lifetime) ≡ true = ground arith in rw (h, y) refl

abbrev table-IsCache : IsCache table
table-IsCache = record {
  read = λ s id. s id;
  get_found = λ now id v s h. young_found now v (s id) h;
  get_young = λ now id v t s h k. young_kept now v t (s id) h k;
  read-get = λ now id i s. refl;
  read-add = λ now id v i s h k. refl;
}

-- Three calls of id 7 with the duration 10, at the times 1, 5 and 15, and one of id 8 between them.
abbrev call_at : ℕ → ℕ → LimitedCall
call_at i t = record { id = i; duration = 10; got = t; since = t; now = t; added = t }

abbrev calls : List LimitedCall
calls = call_at 7 1 ∷ call_at 7 5 ∷ call_at 8 6 ∷ call_at 7 15 ∷ []

two_prints : prints table 7 calls (λ i. none) ≡ 1 ∷ 15 ∷ []
unfolding limited_printf
two_prints = refl

calls-IsSequence : IsSequence 10 7 0 calls
calls-IsSequence = (
  omega arith,
  omega arith,
  omega arith,
  omega arith,
  omega arith,
  λ e. omega arith,
  (
    omega arith,
    omega arith,
    omega arith,
    omega arith,
    omega arith,
    λ e. omega arith,
    (
      omega arith,
      omega arith,
      omega arith,
      omega arith,
      omega arith,
      λ e. omega arith,
      (omega arith, omega arith, omega arith, omega arith, omega arith, λ e. omega arith, tt),
    ),
  ),
)

prints-IsSpaced_example : IsSpaced 10 none (prints table 7 calls (λ i. none))
prints-IsSpaced_example =
    prints-IsSpaced table table-IsCache 10 7 (omega arith) (omega arith) calls 0 (λ i. none) refl
      calls-IsSequence

length-prints_example : length (prints table 7 calls (λ i. none)) * 10 ≤ finish 0 calls - 0 + 10
length-prints_example =
    length-prints table table-IsCache 10 7 0 calls (λ i. none) (omega arith) (omega arith) refl
      calls-IsSequence
