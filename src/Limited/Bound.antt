-- ===== src/Limited/Bound.antt =====
-- How many messages of an id `LimitedPrintf` prints in a span of time.
use zipologger.Base.{
  ℕ, ◌+◌, ◌-◌, ◌*◌, ◌<◌, ◌≤◌, ◌≡◌, arith, inl, inr, Bool-cases, ◌==◌, List, [], ◌∷◌, length, All,
  none, some,
}
use native.Mathlib.Nat.{suc-mul}
use zipologger.Limited.{Cache, IsCache, LimitedCall, lifetime, size, limited_printf, prints}
use zipologger.Limited.Spacing.{IsSequence, IsSpaced, prints-IsSpaced}

-- The end of the last of the calls.
abbrev pub finish : ℕ → List LimitedCall → ℕ
finish start [] = start
finish start (c ∷ cs) = finish c.added cs

finish-ge :
    (d id start : ℕ) (cs : List LimitedCall) → IsSequence d id start cs → start ≤ finish start cs
finish-ge d id start [] q = omega arith
finish-ge d id start (c ∷ cs) q = omega (arith, finish-ge d id c.added cs q.6)

wider :
    (a b e : ℕ) (ts : List ℕ)
    → a ≤ b
    → All (λ t. (b ≤ t) × (t ≤ e)) ts
    → All (λ t. (a ≤ t) × (t ≤ e)) ts
wider a b e [] h g = tt
wider a b e (t ∷ ts) h g = ((omega (arith, g.0.0), g.0.1), wider a b e ts h g.1)

rest_bound :
    (d last e : ℕ) (ts : List ℕ)
    → last ≤ e
    → IsSpaced d (some last) ts
    → All (λ t. t ≤ e) ts
    → last + length ts * d ≤ e
rest_bound d last e [] h s g = omega arith
rest_bound d last e (t ∷ ts) h s g =
    let there = rest_bound d t e ts g.0 s.1 g.1 in omega (arith, suc-mul (length ts) d)

module _ (cache : Cache) where
  within :
      (d id start : ℕ) (cs : List LimitedCall) (s : cache.State)
      → IsSequence d id start cs
      → All (λ t. (start ≤ t) × (t ≤ finish start cs)) (prints cache id cs s)
  within d id start [] s q = tt
  within d id start (c ∷ cs) s q =
      let s' = (limited_printf cache c s).0 in
      let rest =
        wider start c.added (finish c.added cs) (prints cache id cs s') (omega arith)
          (within d id c.added cs s' q.6) in
      let end = finish-ge d id c.added cs q.6 in
      elim (Bool-cases (limited_printf cache c s).1) [
        | inr silent ↦ rw silent rest
        | inl printed ↦ elim (Bool-cases (id == c.id)) [
          | inl own ↦ rw (printed, own) ((omega arith, omega arith), rest)
          | inr other ↦ rw (printed, other) rest
        ]
      ]

  upper : (a e : ℕ) (ts : List ℕ) → All (λ t. (a ≤ t) × (t ≤ e)) ts → All (λ t. t ≤ e) ts
  upper a e [] g = tt
  upper a e (t ∷ ts) g = (g.0.1, upper a e ts g.1)

  in_span :
      (d start e : ℕ) (ts : List ℕ)
      → start ≤ e
      → IsSpaced d none ts
      → All (λ t. (start ≤ t) × (t ≤ e)) ts
      → length ts * d ≤ e - start + d
  in_span d start e [] h s g = omega arith
  in_span d start e (t ∷ ts) h s g =
      let there = rest_bound d t e ts g.0.1 s (upper start e ts g.1) in
      omega (arith, suc-mul (length ts) d)

  -- Of calls one after the other, with at most as many ids as the cache has entries, each of which
  -- asks for a duration of at least `d` for the id, where `d` is at most 24 hours, and nothing of
  -- the id in the cache before: the number of prints of the id times `d` is at most the time that
  -- the calls take, and `d` more.
  pub length-prints :
      (v : IsCache cache) (d id start : ℕ) (cs : List LimitedCall) (s : cache.State)
      → d ≤ lifetime
      → id < size
      → v.read s id ≡ none
      → IsSequence d id start cs
      → length (prints cache id cs s) * d ≤ finish start cs - start + d
  length-prints v d id start cs s small fits h q =
      in_span d start (finish start cs) (prints cache id cs s) (finish-ge d id start cs q)
        (prints-IsSpaced cache v d id small fits cs start s h q) (within d id start cs s q)
