-- ===== src/Registry/Tests.antt =====
-- NewLogger with a cache in which a name takes the place of the one that is 1000 below it.
use zipologger.Base.{
  ℕ, ◌-◌, ◌<◌, ◌≡◌, ◌↔◌, refl, sym, subst, ap, ◌∙◌, arith, true, false, Bool-cases, inl, inr, List,
  [], ◌∷◌, Option, none, some, Option-cases, some-injective, ◌==◌, ==_iff, leb, if◌then◌else◌,
}
use zipologger.Registry.{
  Names, IsNames, Caller, Registry, Event, size, look, lock, look_again, create, release, run,
  initial,
}
use zipologger.Registry.Unique.{returned-same_iff}
use zipologger.Registry.Runs.{creating_lem}
use zipologger.Registry.Returns.{IsWaitingFor, AllSteps, new_logger_returns}

-- The entry that `n` takes the place of.
abbrev below : ℕ → (ℕ → Option ℕ) → Option (ℕ × ℕ)
below n s = elim (if leb size n then s (n - size) else none) [
  | none ↦ none
  | some k ↦ some (n - size, k)
]

abbrev without : Option (ℕ × ℕ) → (ℕ → Option ℕ) → ℕ → Option ℕ
without none s m = s m
without (some (e, k)) s m = if m == e then none else s m

abbrev table : Names
table = record {
  State = ℕ → Option ℕ;
  get = λ n s. (s n, s);
  add = λ n l s. (λ m. if m == n then some l else without (below n s) s m, below n s);
}

below_lem :
    (n e k : ℕ) (s : ℕ → Option ℕ) → below n s ≡ some (e, k) → (s e ≡ some k) × ((e == n) ≡ false)
below_lem n e k s h = elim (Bool-cases (leb size n)) [
  | inr low ↦ let h = rw (below, low) at h in cc
  | inl high ↦ elim (Option-cases (s (n - size))) [
    | inl empty ↦ let h = rw (below, high, empty) at h in cc
    | inr (j, there) ↦
        let h = rw (below, high, there) at h in
        let same = some-injective (n - size, j) (e, k) h in
        let name : n - size ≡ e = ap (λ (x : ℕ × ℕ). x.0) same in
        let value : j ≡ k = ap (λ (x : ℕ × ℕ). x.1) same in
        (ap s (sym name) ∙ there ∙ ap some value, ground arith)
  ]
]

below_fits : (n : ℕ) (s : ℕ → Option ℕ) → n < size → below n s ≡ none
below_fits n s h = let low : leb size n ≡ false = ground arith in rw (below, low) refl

abbrev table-IsNames : IsNames table
table-IsNames = record {
  read = λ s n. s n;
  get-read = λ n s. refl;
  read-get = λ n m s. refl;
  read-add_own = λ n l s. rw ((==_iff n n).1 refl) refl;
  read-add_kept = λ n l m s h d. rw (d, h) refl;
  read-add_other = λ n l m e k s h d g. rw (d, h, g) refl;
  read-add_evicted = λ n l e k s h.
      let b = below_lem n e k s h in
      let same : (e == e) ≡ true = (==_iff e e).1 refl in (b.0, rw (b.1, h, same) refl);
  add_fits = λ n l s h b. below_fits n s b;
}

-- Two callers ask for the name 7 at once: both find nothing, the first creates the logger, and the
-- second finds it behind the mutex. The lock is tried in vain once.
abbrev events : List Event
events =
    Event.calls 0 7
    ∷ Event.calls 1 7
    ∷ Event.goes_on 0
    ∷ Event.goes_on 1
    ∷ Event.goes_on 0
    ∷ Event.goes_on 0
    ∷ Event.goes_on 1
    ∷ Event.goes_on 1
    ∷ []

abbrev after_events : Registry table
after_events = run table events (initial table (λ n. none))

one_logger :
    (after_events.callers 0 ≡ Caller.returned 7 0)
    × (after_events.callers 1 ≡ Caller.returned 7 0)
    × (after_events.created ≡ 1)
unfolding look lock look_again create
one_logger = (refl, refl, refl)

abbrev first : ℕ
first = 0

abbrev asked : ℕ
asked = 7

returned-same_iff_example : ((first ≡ first) ↔ (asked ≡ asked)) × (after_events.filename 0 ≡ 7)
returned-same_iff_example =
    returned-same_iff table table-IsNames (λ n. none) events 0 1 7 7 0 0 (λ n. refl)
      (omega arith, (omega arith, tt)) one_logger.0 one_logger.1

-- A caller gets the logger of the name 7, and asks for the name 1007, which evicts it; another asks
-- for 7 again, and is about to create a second logger.
abbrev evictions : List Event
evictions =
    Event.calls 0 7
    ∷ Event.goes_on 0
    ∷ Event.goes_on 0
    ∷ Event.goes_on 0
    ∷ Event.calls 0 1007
    ∷ Event.goes_on 0
    ∷ Event.goes_on 0
    ∷ Event.goes_on 0
    ∷ Event.calls 1 7
    ∷ Event.goes_on 0
    ∷ Event.goes_on 1
    ∷ Event.goes_on 1
    ∷ []

abbrev after_evictions : Registry table
after_evictions = run table evictions (initial table (λ n. none))

creates_again :
    (after_evictions.callers 1 ≡ Caller.creating 7)
    × (0 < after_evictions.created)
    × (after_evictions.filename 0 ≡ 7)
unfolding look lock look_again create release
creates_again = (refl, omega arith, refl)

creating_lem_example : after_evictions.released 0 ≡ true
creating_lem_example =
    creating_lem table table-IsNames (λ n. none) evictions 1 7 0 (λ n. refl) creates_again.0
      creates_again.1 creates_again.2

-- Caller 0 holds the mutex, and caller 1 waits for it.
abbrev contended : List Event
contended = Event.calls 0 7 ∷ Event.goes_on 0 ∷ Event.calls 1 7 ∷ []

waits_for_mutex : (run table contended (initial table (λ n. none))).callers 1 ≡ Caller.locking 7
unfolding look lock
waits_for_mutex = refl

new_logger_returns_example :
    (fs : List Event) × (l : ℕ) × AllSteps fs
    × (let t = run table fs (run table contended (initial table (λ n. none))) in
        (t.callers 1 ≡ Caller.returned 7 l) × (l < t.created) × (t.filename l ≡ 7))
new_logger_returns_example =
    new_logger_returns table table-IsNames (λ n. none) contended 1 7 (λ m. refl)
      (subst (IsWaitingFor 7) (sym waits_for_mutex) refl)
