-- ===== src/Registry/Invariant.antt =====
-- What holds of the loggers that `NewLogger` gives, while its callers go on.
use zipologger.Base.{
  ℕ, ◌<◌, ◌≡◌, ◌⊎◌, sym, ap, ◌∙◌, inl, inr, true, false, false≢true, Bool-cases, ◌==◌, ==_iff,
  subst, Option, none, some, some-injective,
}
use zipologger.Registry.{Names, IsNames, Caller, Registry, update}

-- The caller is not in the callback.
abbrev pub NotEvicting : Caller → Type 0
NotEvicting Caller.outside = Unit {0}
NotEvicting (Caller.locking n) = Unit {0}
NotEvicting (Caller.holding n) = Unit {0}
NotEvicting (Caller.creating n) = Unit {0}
NotEvicting (Caller.evicting n l k) = ⊥
NotEvicting (Caller.returned n l) = Unit {0}

-- Some caller is in the callback for logger `l`.
abbrev pub IsBeingEvicted : (ℕ → Caller) → ℕ → Type 0
IsBeingEvicted callers l = (j : ℕ) × (n : ℕ) × (k : ℕ) × (callers j ≡ Caller.evicting n k l)

pub still_IsBeingEvicted :
    (callers : ℕ → Caller) (i : ℕ) (c : Caller) (l : ℕ)
    → NotEvicting (callers i)
    → IsBeingEvicted callers l
    → IsBeingEvicted (update callers i c) l
still_IsBeingEvicted callers i c l h (j, n, k, e) = elim (Bool-cases (j == i)) [
  | inl same ↦
      let here = ap callers (sym ((==_iff j i).0 same)) ∙ e in absurd (subst NotEvicting here h)
  | inr other ↦ (j, n, k, rw other e)
]

-- There are no two holders.
pub no_other : (m : Option ℕ) (i j : ℕ) → m ≡ some i → m ≡ some j → (j == i) ≡ false → ⊥
no_other m i j h g e =
    let same : i ≡ j = some-injective i j (sym h ∙ g) in
    false≢true (sym e ∙ (==_iff j i).1 (sym same))

module _ (cache : Names) (v : IsNames cache) where
  -- Logger `l` was created for the name `n`.
  abbrev pub HasName : Registry cache → ℕ → ℕ → Type 0
  HasName r n l = (l < r.created) × (r.filename l ≡ n)

  -- What holds of caller `j`.
  abbrev pub IsFine : Registry cache → ℕ → Caller → Type 0
  IsFine r j Caller.outside = Unit {0}
  IsFine r j (Caller.locking n) = Unit {0}
  IsFine r j (Caller.holding n) = r.new_logger_mutex ≡ some j
  IsFine r j (Caller.creating n) =
      (r.new_logger_mutex ≡ some j) × (v.read r.initialized_loggers n ≡ none)
  IsFine r j (Caller.evicting n l k) = (r.new_logger_mutex ≡ some j) × HasName r n l
  IsFine r j (Caller.returned n l) = HasName r n l

  -- Where logger `l` is: in the cache under its name, closed by the callback, or just in it.
  abbrev pub IsAccounted : Registry cache → ℕ → Type 0
  IsAccounted r l =
      (v.read r.initialized_loggers (r.filename l) ≡ some l)
      ⊎ ((r.released l ≡ true) ⊎ IsBeingEvicted r.callers l)

  -- Every caller is fine, the loggers of the cache are created ones, each under its file name, and
  -- every created logger is accounted for.
  pub record IsRegistered (r : Registry cache) : Type 0 where
    pub each : (j : ℕ) → IsFine r j (r.callers j)
    pub known : (n l : ℕ) → v.read r.initialized_loggers n ≡ some l → HasName r n l
    pub accounted : (l : ℕ) → l < r.created → IsAccounted r l

  -- A change that keeps the names of loggers, and the whole cache for the holder of the mutex.
  pub other :
      (r r' : Registry cache) (j : ℕ) (c : Caller)
      → (r.new_logger_mutex ≡ some j
          → (r'.new_logger_mutex ≡ some j)
            × ((n : ℕ) → v.read r'.initialized_loggers n ≡ v.read r.initialized_loggers n))
      → ((n l : ℕ) → HasName r n l → HasName r' n l)
      → IsFine r j c
      → IsFine r' j c
  other r r' j Caller.outside h g f = tt
  other r r' j (Caller.locking n) h g f = tt
  other r r' j (Caller.holding n) h g f = (h f).0
  other r r' j (Caller.creating n) h g f = ((h f.0).0, (h f.0).1 n ∙ f.1)
  other r r' j (Caller.evicting n l k) h g f = ((h f.0).0, g n l f.1)
  other r r' j (Caller.returned n l) h g f = g n l f

  -- Caller `i` changes, and the others are fine.
  pub set :
      (r : Registry cache) (callers : ℕ → Caller) (i : ℕ) (c : Caller)
      → IsFine r i c
      → ((j : ℕ) → (j == i) ≡ false → IsFine r j (callers j))
      → (j : ℕ) → IsFine r j (update callers i c j)
  set r callers i c own h j = elim (Bool-cases (j == i)) [
    | inl e ↦ rw e (subst (λ (k : ℕ). IsFine r k c) (sym ((==_iff j i).0 e)) own)
    | inr e ↦ rw e (h j e)
  ]
