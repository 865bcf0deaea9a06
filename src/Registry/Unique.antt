-- ===== src/Registry/Unique.antt =====
-- One logger for each file name, as long as the names fit the cache.
use zipologger.Base.{
  ℕ, ◌≤◌, ◌<◌, ◌≡◌, ◌↔◌, refl, inl, inr, false, false≢true, Bool-cases, ◌==◌, sym, ap, ◌∙◌, arith,
  subst, List, [], ◌∷◌, none, some, Option-cases, some-injective,
}
use zipologger.Registry.{
  Names, IsNames, Caller, Registry, Event, size, update, look, lock, look_again, create, go_on,
  start, run, initial,
}
use zipologger.Registry.Invariant.{IsFine}
use zipologger.Registry.Runs.{run-IsRegistered}

-- The names that are asked for fit the cache.
abbrev pub FitCache : List Event → Type 0
FitCache [] = Unit {0}
FitCache (Event.calls i name ∷ es) = (name < size) × FitCache es
FitCache (Event.goes_on i ∷ es) = FitCache es

-- A caller with a name that fits, and not in the callback.
abbrev IsCalm : Caller → Type 0
IsCalm Caller.outside = Unit {0}
IsCalm (Caller.locking n) = n < size
IsCalm (Caller.holding n) = n < size
IsCalm (Caller.creating n) = n < size
IsCalm (Caller.evicting n l k) = ⊥
IsCalm (Caller.returned n l) = Unit {0}

set-IsCalm :
    (callers : ℕ → Caller) (i : ℕ) (c : Caller)
    → IsCalm c
    → ((j : ℕ) → IsCalm (callers j))
    → (j : ℕ) → IsCalm (update callers i c j)
set-IsCalm callers i c h g j = elim (Bool-cases (j == i)) [ inl e ↦ rw e h | inr e ↦ rw e (g j) ]

module _ (cache : Names) (v : IsNames cache) where
  -- Nothing has been evicted.
  record IsKept (r : Registry cache) : Type 0 where
    calm : (j : ℕ) → IsCalm (r.callers j)
    within : (m : ℕ) → size ≤ m → v.read r.initialized_loggers m ≡ none
    unreleased : (l : ℕ) → r.released l ≡ false

  module _ (r : Registry cache) (f : IsKept r) (i name : ℕ) (h : name < size) where
    within_still : (m : ℕ) → size ≤ m → v.read (cache.get name r.initialized_loggers).1 m ≡ none
    within_still m b = v.read-get name m r.initialized_loggers ∙ f.within m b

    look-IsKept : IsKept (look cache i name r)
    unfolding look
    look-IsKept = elim (Option-cases (cache.get name r.initialized_loggers).0) [
      | inl e ↦
          rw (look, e)
            (record {
              calm = set-IsCalm r.callers i (Caller.locking name) h f.calm;
              within = within_still;
              unreleased = f.unreleased;
            })
      | inr (l, e) ↦
          rw (look, e)
            (record {
              calm = set-IsCalm r.callers i (Caller.returned name l) tt f.calm;
              within = within_still;
              unreleased = f.unreleased;
            })
    ]

    lock-IsKept : IsKept (lock cache i name r)
    unfolding lock
    lock-IsKept = elim (Option-cases r.new_logger_mutex) [
      | inr (k, e) ↦ simp (lock, e) f
      | inl e ↦
          simp (lock, e)
            (record {
              calm = set-IsCalm r.callers i (Caller.holding name) h f.calm;
              within = f.within;
              unreleased = f.unreleased;
            })
    ]

    look_again-IsKept : IsKept (look_again cache i name r)
    unfolding look_again
    look_again-IsKept = elim (Option-cases (cache.get name r.initialized_loggers).0) [
      | inl e ↦
          rw (look_again, e)
            (record {
              calm = set-IsCalm r.callers i (Caller.creating name) h f.calm;
              within = within_still;
              unreleased = f.unreleased;
            })
      | inr (l, e) ↦
          rw (look_again, e)
            (record {
              calm = set-IsCalm r.callers i (Caller.returned name l) tt f.calm;
              within = within_still;
              unreleased = f.unreleased;
            })
    ]

    create-IsKept : IsKept (create cache i name r)
    unfolding create
    create-IsKept =
        let kept = v.add_fits name r.created r.initialized_loggers f.within h in
        rw (create, kept)
          (record {
            calm = set-IsCalm r.callers i (Caller.returned name r.created) tt f.calm;
            within = λ m b.
                let else_ : (m == name) ≡ false = ground arith in
                v.read-add_kept name r.created m r.initialized_loggers kept else_ ∙ f.within m b;
            unreleased = f.unreleased;
          })

  start-IsKept :
      (r : Registry cache) (i name : ℕ) (c : Caller)
      → name < size
      → IsKept r
      → IsKept (start cache i name c r)
  start-IsKept r i name Caller.outside h f = look-IsKept r f i name h
  start-IsKept r i name (Caller.locking n) h f = f
  start-IsKept r i name (Caller.holding n) h f = f
  start-IsKept r i name (Caller.creating n) h f = f
  start-IsKept r i name (Caller.evicting n l k) h f = f
  start-IsKept r i name (Caller.returned n l) h f = look-IsKept r f i name h

  go_on-IsKept :
      (r : Registry cache) (i : ℕ) (c : Caller) → IsCalm c → IsKept r → IsKept (go_on cache i c r)
  go_on-IsKept r i Caller.outside g f = f
  go_on-IsKept r i (Caller.locking n) g f = lock-IsKept r f i n g
  go_on-IsKept r i (Caller.holding n) g f = look_again-IsKept r f i n g
  go_on-IsKept r i (Caller.creating n) g f = create-IsKept r f i n g
  go_on-IsKept r i (Caller.evicting n l k) g f = absurd g
  go_on-IsKept r i (Caller.returned n l) g f = record {
    calm = set-IsCalm r.callers i Caller.outside tt f.calm;
    within = f.within;
    unreleased = f.unreleased;
  }

  run-IsKept_from :
      (es : List Event) (r : Registry cache) → FitCache es → IsKept r → IsKept (run cache es r)
  run-IsKept_from [] r q f = f
  run-IsKept_from (Event.calls i name ∷ es) r q f =
      run-IsKept_from es (start cache i name (r.callers i) r) q.1
        (start-IsKept r i name (r.callers i) q.0 f)
  run-IsKept_from (Event.goes_on i ∷ es) r q f =
      run-IsKept_from es (go_on cache i (r.callers i) r) q
        (go_on-IsKept r i (r.callers i) (f.calm i) f)

  -- Every logger that was created is in the cache under its file name.
  cached :
      (names : cache.State) (es : List Event) (l : ℕ)
      → ((n : ℕ) → v.read names n ≡ none)
      → FitCache es
      → let r = run cache es (initial cache names) in
        l < r.created → v.read r.initialized_loggers (r.filename l) ≡ some l
  cached names es l empty q b =
      let r = run cache es (initial cache names) in
      let f = run-IsRegistered cache v names es empty in
      let k =
        run-IsKept_from es (initial cache names) q
          (record { calm = λ j. tt; within = λ m b. empty m; unreleased = λ l. refl }) in
      elim (f.accounted l b) [
        | inl there ↦ there
        | inr (inl closed) ↦ absurd (false≢true (sym (k.unreleased l) ∙ closed))
        | inr (inr (j, m, n, being)) ↦ absurd (subst IsCalm being (k.calm j))
      ]

  -- From an empty cache, whatever callers of `NewLogger` do in any order, and if the names that they
  -- ask for fit the cache: two callers are back with the same logger exactly if they asked for the
  -- same file name, and it is the file name of the logger.
  pub returned-same_iff :
      (names : cache.State) (es : List Event) (i j n m l k : ℕ)
      → ((n : ℕ) → v.read names n ≡ none)
      → FitCache es
      → let r = run cache es (initial cache names) in
        r.callers i ≡ Caller.returned n l
        → r.callers j ≡ Caller.returned m k
        → ((l ≡ k) ↔ (n ≡ m)) × (r.filename l ≡ n)
  returned-same_iff names es i j n m l k empty q h g =
      let r = run cache es (initial cache names) in
      let f = run-IsRegistered cache v names es empty in
      let own = subst (IsFine cache v r i) h (f.each i) in
      let other = subst (IsFine cache v r j) g (f.each j) in
      let read = v.read r.initialized_loggers in
      let one = ap read (sym own.1) ∙ cached names es l empty q own.0 in
      let two = ap read (sym other.1) ∙ cached names es k empty q other.0 in
      (
        (
          λ e. sym own.1 ∙ ap r.filename e ∙ other.1,
          λ e. some-injective l k (sym one ∙ ap read e ∙ two),
        ),
        own.1,
      )

  -- No file name has two loggers: of the loggers that were created, each has a name of its own.
  pub filename-injective :
      (names : cache.State) (es : List Event) (l k : ℕ)
      → ((n : ℕ) → v.read names n ≡ none)
      → FitCache es
      → let r = run cache es (initial cache names) in
        l < r.created → k < r.created → r.filename l ≡ r.filename k → l ≡ k
  filename-injective names es l k empty q b d e =
      let r = run cache es (initial cache names) in
      some-injective l k (
        sym (cached names es l empty q b)
        ∙ ap (v.read r.initialized_loggers) e
        ∙ cached names es k empty q d)
