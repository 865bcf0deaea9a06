-- ===== src/Registry/Creation.antt =====
-- The creation of a logger, which may evict another one, keeps the invariant.
use zipologger.Base.{
  ℕ, ◌+◌, ◌<◌, ◌≡◌, ◌⊎◌, refl, sym, ap, ◌∙◌, arith, inl, inr, true, false, Bool-cases, ◌==◌, ==_iff,
  none, some, Option, Option-cases, some-injective,
}
use zipologger.Registry.{Names, IsNames, Caller, Registry, update, create}
use zipologger.Registry.Invariant.{
  NotEvicting, still_IsBeingEvicted, no_other, HasName, IsFine, IsAccounted, IsRegistered, other,
  set,
}

module _ (cache : Names) (v : IsNames cache) (r : Registry cache) (f : IsRegistered cache v r)
    (i name : ℕ) (own : r.new_logger_mutex ≡ some i) (h : NotEvicting (r.callers i))
    (empty : v.read r.initialized_loggers name ≡ none) where
  abbrev more : cache.State
  more = (cache.add name r.created r.initialized_loggers).0

  abbrev evicted : Option (ℕ × ℕ)
  evicted = (cache.add name r.created r.initialized_loggers).1

  abbrev names : ℕ → ℕ
  names = update r.filename r.created name

  new_name : names r.created ≡ name
  new_name = rw ((==_iff r.created r.created).1 refl) refl

  old_name : (l : ℕ) → l < r.created → names l ≡ r.filename l
  old_name l b = let e : (l == r.created) ≡ false = ground arith in rw e refl

  -- What is in the cache under another name was there before.
  was_there :
      (n l : ℕ)
      → (n == name) ≡ false
      → v.read more n ≡ some l
      → v.read r.initialized_loggers n ≡ some l
  was_there n l d e = elim (Option-cases evicted) [
    | inl kept_all ↦ sym (v.read-add_kept name r.created n r.initialized_loggers kept_all d) ∙ e
    | inr ((old, k), out) ↦
        let gone = v.read-add_evicted name r.created old k r.initialized_loggers out in
        elim (Bool-cases (n == old)) [
          | inl same ↦ let there = ap (v.read more) ((==_iff n old).0 same) in cc
          | inr else_ ↦
              sym (v.read-add_other name r.created n old k r.initialized_loggers out d else_) ∙ e
        ]
  ]

  -- The registry after the creation, but for the mutex and the callers.
  abbrev after : Registry cache
  after = record r { initialized_loggers = more; created = r.created + 1; filename = names }

  keeps_name : (n l : ℕ) → HasName cache v r n l → HasName cache v after n l
  keeps_name n l d = (omega (arith, d.0), old_name l d.0 ∙ d.1)

  has_new_name : HasName cache v after name r.created
  has_new_name = (omega arith, new_name)

  after_known : (n l : ℕ) → v.read more n ≡ some l → HasName cache v after n l
  after_known n l e = elim (Bool-cases (n == name)) [
    | inl d ↦
        let same = (==_iff n name).0 d in
        let new : r.created ≡ l = some-injective r.created l (
          sym (v.read-add_own name r.created r.initialized_loggers)
          ∙ ap (v.read more) (sym same)
          ∙ e) in
        (omega (arith, new), ap names (sym new) ∙ new_name ∙ sym same)
    | inr d ↦ keeps_name n l (f.known n l (was_there n l d e))
  ]

  other_than : (n l : ℕ) → v.read r.initialized_loggers n ≡ some l → (n == name) ≡ false
  other_than n l e = elim (Bool-cases (n == name)) [
    | inr d ↦ d
    | inl d ↦ let same = ap (v.read r.initialized_loggers) ((==_iff n name).0 d) in cc
  ]

  -- A created logger is in the cache still, or it is the one that is evicted.
  still_cached :
      (l : ℕ)
      → l < r.created
      → v.read r.initialized_loggers (r.filename l) ≡ some l
      → (v.read more (names l) ≡ some l) ⊎ ((old : ℕ) × (evicted ≡ some (old, l)))
  still_cached l b a =
      let d = other_than (r.filename l) l a in
      elim (Option-cases evicted) [
        | inl kept_all ↦ inl (
            ap (v.read more) (old_name l b)
            ∙ v.read-add_kept name r.created (r.filename l) r.initialized_loggers kept_all d
            ∙ a)
        | inr ((old, k), out) ↦ elim (Bool-cases (r.filename l == old)) [
          | inr else_ ↦ inl (
              ap (v.read more) (old_name l b)
              ∙ v.read-add_other name r.created (r.filename l) old k r.initialized_loggers out d
                  else_
              ∙ a)
          | inl same ↦
              let gone = v.read-add_evicted name r.created old k r.initialized_loggers out in
              let there = ap (v.read r.initialized_loggers) ((==_iff (r.filename l) old).0 same) in
              let kl : k ≡ l = some-injective k l (sym gone.0 ∙ sym there ∙ a) in
              inr (old, out ∙ ap (λ (x : ℕ). some (old, x)) kl)
        ]
      ]

  -- Where the loggers are, if `c` says that the evicted one is in the callback.
  after-IsAccounted :
      (m : Option ℕ) (c : Caller)
      → ((old k : ℕ) → evicted ≡ some (old, k) → c ≡ Caller.evicting name r.created k)
      → (l : ℕ) → l < r.created + 1
      → IsAccounted cache v
          (record after { new_logger_mutex = m; callers = update r.callers i c })
          l
  after-IsAccounted m c being l b = elim (Bool-cases (l == r.created)) [
    | inl e ↦
        let new = (==_iff l r.created).0 e in
        inl (
          ap (v.read more) (ap names new ∙ new_name)
          ∙ v.read-add_own name r.created r.initialized_loggers
          ∙ ap some (sym new))
    | inr e ↦
        let before : l < r.created = ground arith in
        elim (f.accounted l before) [
          | inl a ↦ elim (still_cached l before a) [
            | inl kept ↦ inl kept
            | inr (old, out) ↦
                let here : (i == i) ≡ true = (==_iff i i).1 refl in
                inr (inr (i, name, r.created, rw here (being old l out)))
          ]
          | inr (inl a) ↦ inr (inl a)
          | inr (inr a) ↦ inr (inr (still_IsBeingEvicted r.callers i c l h a))
        ]
  ]

  others :
      (m : Option ℕ) (j : ℕ)
      → (j == i) ≡ false
      → IsFine cache v (record after { new_logger_mutex = m }) j (r.callers j)
  others m j d =
      other cache v r (record after { new_logger_mutex = m }) j (r.callers j)
        (λ e. absurd (no_other r.new_logger_mutex i j own e d)) keeps_name (f.each j)

  pub create-IsRegistered : IsRegistered cache v (create cache i name r)
  unfolding create
  create-IsRegistered = elim (Option-cases evicted) [
    | inl kept_all ↦
        rw (create, kept_all)
          (record {
            each =
                set cache v (record after { new_logger_mutex = none }) r.callers i
                  (Caller.returned name r.created) has_new_name (others none);
            known = after_known;
            accounted = after-IsAccounted none (Caller.returned name r.created) (λ old k out. cc);
          })
    | inr ((old, k), out) ↦
        rw (create, out)
          (record {
            each =
                set cache v after r.callers i (Caller.evicting name r.created k) (own, has_new_name)
                  (others r.new_logger_mutex);
            known = after_known;
            accounted =
                after-IsAccounted r.new_logger_mutex (Caller.evicting name r.created k)
                  (λ old' k' out'.
                    ap (λ (x : ℕ × ℕ). Caller.evicting name r.created x.1)
                      (some-injective (old, k) (old', k') (sym out ∙ out')));
          })
  ]
