-- ===== src/Registry/Held.antt =====
-- The mutex of `NewLogger` is held by a caller that will release it, or by none.
use zipologger.Base.{
  ℕ, ◌≡◌, refl, sym, subst, true, Bool-cases, inl, inr, ◌==◌, ==_iff, List, [], ◌∷◌, some,
  some-injective, Option-cases,
}
use zipologger.Registry.{
  Names, Caller, Registry, Event, update, look, lock, look_again, create, release, go_on, start,
  run,
}

-- The caller holds the mutex.
abbrev pub IsHolder : Caller → Type 0
IsHolder Caller.outside = ⊥
IsHolder (Caller.locking n) = ⊥
IsHolder (Caller.holding n) = Unit {0}
IsHolder (Caller.creating n) = Unit {0}
IsHolder (Caller.evicting n l k) = Unit {0}
IsHolder (Caller.returned n l) = ⊥

module _ (cache : Names) where
  -- The mutex is held by a caller that will release it.
  abbrev pub IsHeld : Registry cache → Type 0
  IsHeld r = (j : ℕ) → r.new_logger_mutex ≡ some j → IsHolder (r.callers j)

  -- A step of a caller that does not hold the mutex.
  outsider-IsHeld :
      (r : Registry cache) (i : ℕ) (c : Caller)
      → (IsHolder (r.callers i) → ⊥)
      → IsHeld r
      → (j : ℕ) → r.new_logger_mutex ≡ some j
      → IsHolder (update r.callers i c j)
  outsider-IsHeld r i c n h j e = elim (Bool-cases (j == i)) [
    | inl same ↦ absurd (n (subst (λ k. IsHolder (r.callers k)) ((==_iff j i).0 same) (h j e)))
    | inr other ↦ rw other (h j e)
  ]

  -- A step to a place in the hold of the mutex.
  IsHolder-IsHeld :
      (r : Registry cache) (i : ℕ) (c : Caller)
      → IsHolder c
      → IsHeld r
      → (j : ℕ) → r.new_logger_mutex ≡ some j
      → IsHolder (update r.callers i c j)
  IsHolder-IsHeld r i c n h j e = elim (Bool-cases (j == i)) [
    | inl same ↦ rw same n
    | inr other ↦ rw other (h j e)
  ]

  look-IsHeld :
      (r : Registry cache) (i n : ℕ)
      → (IsHolder (r.callers i) → ⊥)
      → IsHeld r
      → IsHeld (look cache i n r)
  unfolding look
  look-IsHeld r i n o h = elim (Option-cases (cache.get n r.initialized_loggers).0) [
    | inl e ↦ rw (look, e) (outsider-IsHeld r i (Caller.locking n) o h)
    | inr (l, e) ↦ rw (look, e) (outsider-IsHeld r i (Caller.returned n l) o h)
  ]

  lock-IsHeld : (r : Registry cache) (i n : ℕ) → IsHeld r → IsHeld (lock cache i n r)
  unfolding lock
  lock-IsHeld r i n h = elim (Option-cases r.new_logger_mutex) [
    | inr (k, e) ↦
        let same : lock cache i n r ≡ r = simp (lock, e) refl in subst IsHeld (sym same) h
    | inl e ↦
        let there : (j : ℕ) → some i ≡ some j → IsHolder (update r.callers i (Caller.holding n) j) =
          λ j f.
            let same : (j == i) ≡ true = (==_iff j i).1 (sym (some-injective i j f)) in
            rw same tt in
        simp (lock, e) there
  ]

  look_again-IsHeld : (r : Registry cache) (i n : ℕ) → IsHeld r → IsHeld (look_again cache i n r)
  unfolding look_again
  look_again-IsHeld r i n h = elim (Option-cases (cache.get n r.initialized_loggers).0) [
    | inl e ↦ rw (look_again, e) (IsHolder-IsHeld r i (Caller.creating n) tt h)
    | inr (l, e) ↦ rw (look_again, e) (λ j f. cc)
  ]

  create-IsHeld : (r : Registry cache) (i n : ℕ) → IsHeld r → IsHeld (create cache i n r)
  unfolding create
  create-IsHeld r i n h = elim (Option-cases (cache.add n r.created r.initialized_loggers).1) [
    | inl e ↦ rw (create, e) (λ j f. cc)
    | inr (x, e) ↦ rw (create, e) (IsHolder-IsHeld r i (Caller.evicting n r.created x.1) tt h)
  ]

  start-IsHeld :
      (r : Registry cache) (i n : ℕ) (c : Caller)
      → r.callers i ≡ c
      → IsHeld r
      → IsHeld (start cache i n c r)
  start-IsHeld r i n Caller.outside e h = look-IsHeld r i n (subst IsHolder e) h
  start-IsHeld r i n (Caller.locking m) e h = h
  start-IsHeld r i n (Caller.holding m) e h = h
  start-IsHeld r i n (Caller.creating m) e h = h
  start-IsHeld r i n (Caller.evicting m l k) e h = h
  start-IsHeld r i n (Caller.returned m l) e h = look-IsHeld r i n (subst IsHolder e) h

  go_on-IsHeld :
      (r : Registry cache) (i : ℕ) (c : Caller)
      → r.callers i ≡ c
      → IsHeld r
      → IsHeld (go_on cache i c r)
  unfolding release
  go_on-IsHeld r i Caller.outside e h = h
  go_on-IsHeld r i (Caller.locking m) e h = lock-IsHeld r i m h
  go_on-IsHeld r i (Caller.holding m) e h = look_again-IsHeld r i m h
  go_on-IsHeld r i (Caller.creating m) e h = create-IsHeld r i m h
  go_on-IsHeld r i (Caller.evicting m l k) e h = λ j f. cc
  go_on-IsHeld r i (Caller.returned m l) e h =
      outsider-IsHeld r i Caller.outside (subst IsHolder e) h

  pub run-IsHeld : (es : List Event) (r : Registry cache) → IsHeld r → IsHeld (run cache es r)
  run-IsHeld [] r h = h
  run-IsHeld (Event.calls i n ∷ es) r h =
      run-IsHeld es (start cache i n (r.callers i) r) (start-IsHeld r i n (r.callers i) refl h)
  run-IsHeld (Event.goes_on i ∷ es) r h =
      run-IsHeld es (go_on cache i (r.callers i) r) (go_on-IsHeld r i (r.callers i) refl h)
