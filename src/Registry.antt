-- ===== src/Registry.antt =====
-- logger.go: `NewLogger`, which gives the logger of a file name, from several goroutines at once.
-- File names and loggers are numbers. Each look into the cache and each hold of the mutex is a step
-- of its own.
pub mod Invariant
pub mod Steps
pub mod Creation
pub mod Runs
pub mod Held
pub mod Returns
pub mod Unique
mod Tests
use zipologger.Base.{
  ℕ, ◌+◌, ◌≤◌, ◌<◌, ◌≡◌, Bool, true, false, ◌==◌, if◌then◌else◌, List, [], ◌∷◌, Option, none, some,
}

-- `f` with the value at `i` replaced.
abbrev pub update {ℓ} : {A : Type ℓ} → (ℕ → A) → ℕ → A → ℕ → A
update f i a j = if j == i then a else f j

-- The size of `initializedLoggers`.
abbrev pub size : ℕ
size = 1000

-- The cache `initializedLoggers`, of lru.NewWithEvict. `add` gives the entry that is evicted, if
-- there is one, with which the cache calls back.
pub record Names : Type 1 where
  pub State : Type 0
  pub get : ℕ → State → Option ℕ × State
  pub add : ℕ → ℕ → State → State × Option (ℕ × ℕ)

-- Its documented behaviour: `add` may evict the entry of one other name, but not as long as all
-- names are among as many as the cache has entries.
pub record IsNames (cache : Names) : Type 0 where
  pub read : cache.State → ℕ → Option ℕ
  pub get-read : (n : ℕ) (s : cache.State) → (cache.get n s).0 ≡ read s n
  pub read-get : (n m : ℕ) (s : cache.State) → read (cache.get n s).1 m ≡ read s m
  pub read-add_own : (n l : ℕ) (s : cache.State) → read (cache.add n l s).0 n ≡ some l
  pub read-add_kept :
      (n l m : ℕ) (s : cache.State)
      → (cache.add n l s).1 ≡ none
      → (m == n) ≡ false
      → read (cache.add n l s).0 m ≡ read s m
  pub read-add_other :
      (n l m e k : ℕ) (s : cache.State)
      → (cache.add n l s).1 ≡ some (e, k)
      → (m == n) ≡ false
      → (m == e) ≡ false
      → read (cache.add n l s).0 m ≡ read s m
  pub read-add_evicted :
      (n l e k : ℕ) (s : cache.State)
      → (cache.add n l s).1 ≡ some (e, k)
      → (read s e ≡ some k) × (read (cache.add n l s).0 e ≡ none)
  pub add_fits :
      (n l : ℕ) (s : cache.State)
      → ((m : ℕ) → size ≤ m → read s m ≡ none)
      → n < size
      → (cache.add n l s).1 ≡ none

-- How far a caller of `NewLogger` is: not in a call; behind the first look into the cache, which
-- found nothing; in the hold of the mutex, before and behind the second look; in the callback for
-- an evicted logger; or back with a logger.
pub data Caller : Type 0 where
  outside : Caller
  locking : ℕ → Caller
  holding : ℕ → Caller
  creating : ℕ → Caller
  evicting : ℕ → ℕ → ℕ → Caller
  returned : ℕ → ℕ → Caller

-- A caller that is not in a call starts one, or a caller goes on.
pub data Event : Type 0 where
  calls : ℕ → ℕ → Event
  goes_on : ℕ → Event

module _ (cache : Names) where
  -- The cache, the number of loggers created and their `filename`, whether the callback, which
  -- flushes and closes, has ended for them, the mutex with its holder, and the callers.
  pub record Registry : Type 0 where
    pub initialized_loggers : cache.State
    pub created : ℕ
    pub filename : ℕ → ℕ
    pub released : ℕ → Bool
    pub new_logger_mutex : Option ℕ
    pub callers : ℕ → Caller

  -- The first look.
  unfoldable pub look : ℕ → ℕ → Registry → Registry
  look i name r =
      let (found, names) = cache.get name r.initialized_loggers in
      elim found [
        | some l ↦ record r {
          initialized_loggers = names;
          callers = update r.callers i (Caller.returned name l);
        }
        | none ↦ record r {
          initialized_loggers = names;
          callers = update r.callers i (Caller.locking name);
        }
      ]

  -- `newLoggerMutex.Lock`, once the mutex is free.
  unfoldable pub lock : ℕ → ℕ → Registry → Registry
  lock i name r = elim r.new_logger_mutex [
    | some j ↦ r
    | none ↦ record r {
      new_logger_mutex = some i;
      callers = update r.callers i (Caller.holding name);
    }
  ]

  -- The second look.
  unfoldable pub look_again : ℕ → ℕ → Registry → Registry
  look_again i name r =
      let (found, names) = cache.get name r.initialized_loggers in
      elim found [
        | some l ↦ record r {
          initialized_loggers = names;
          new_logger_mutex = none;
          callers = update r.callers i (Caller.returned name l);
        }
        | none ↦ record r {
          initialized_loggers = names;
          callers = update r.callers i (Caller.creating name);
        }
      ]

  -- The new logger is put into the cache, and the mutex is released, unless an entry is evicted.
  unfoldable pub create : ℕ → ℕ → Registry → Registry
  create i name r =
      let (names, evicted) = cache.add name r.created r.initialized_loggers in
      elim evicted [
        | none ↦ record r {
          initialized_loggers = names;
          created = r.created + 1;
          filename = update r.filename r.created name;
          new_logger_mutex = none;
          callers = update r.callers i (Caller.returned name r.created);
        }
        | some (old_name, victim) ↦ record r {
          initialized_loggers = names;
          created = r.created + 1;
          filename = update r.filename r.created name;
          callers = update r.callers i (Caller.evicting name r.created victim);
        }
      ]

  -- The end of the callback, once its `Flush` has returned: the evicted logger is closed, and the
  -- call returns and releases the mutex.
  pub release : ℕ → ℕ → ℕ → ℕ → Registry → Registry
  release i name l victim r = record r {
    released = update r.released victim true;
    new_logger_mutex = none;
    callers = update r.callers i (Caller.returned name l);
  }

  -- The next step of caller `i`.
  abbrev pub go_on : ℕ → Caller → Registry → Registry
  go_on i Caller.outside r = r
  go_on i (Caller.locking name) r = lock i name r
  go_on i (Caller.holding name) r = look_again i name r
  go_on i (Caller.creating name) r = create i name r
  go_on i (Caller.evicting name l victim) r = release i name l victim r
  go_on i (Caller.returned name l) r = record r { callers = update r.callers i Caller.outside }

  abbrev pub start : ℕ → ℕ → Caller → Registry → Registry
  start i name Caller.outside r = look i name r
  start i name (Caller.locking n) r = r
  start i name (Caller.holding n) r = r
  start i name (Caller.creating n) r = r
  start i name (Caller.evicting n l victim) r = r
  start i name (Caller.returned n l) r = look i name r

  abbrev pub step : Event → Registry → Registry
  step (Event.calls i name) r = start i name (r.callers i) r
  step (Event.goes_on i) r = go_on i (r.callers i) r

  abbrev pub run : List Event → Registry → Registry
  run [] r = r
  run (e ∷ es) r = run es (step e r)

  abbrev pub initial : cache.State → Registry
  initial names = record {
    initialized_loggers = names;
    created = 0;
    filename = λ l. 0;
    released = λ l. false;
    new_logger_mutex = none;
    callers = λ i. Caller.outside;
  }
