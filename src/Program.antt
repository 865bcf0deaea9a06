-- ===== src/Program.antt =====
-- logger.go: the loggers and their registry together, and the function `Wait` of the package, which
-- waits for one logger after the other. Each look into the cache and each stretch of the `Wait` of a
-- logger is a step of its own, between which all the others go on.

pub mod Waiting
pub mod Trace
pub mod Waited
pub mod Returns
mod Tests
use zipologger.Base.{
  ℕ, Bool, true, false, ◌==◌, if◌then◌else◌, List, [], ◌∷◌, ◌++◌, Option, none, some,
}
use zipologger.Enc.{Packages}
use zipologger.Logger.{System, begin_wait, finish_tasks, end_wait, close_evicted}
use zipologger.Logger.Run as LoggerRun
use zipologger.Registry as Registry
use zipologger.Registry.{Names, Caller}

-- How far the call of `Wait` is that holds wMutex: there is none; it goes on with the names that
-- are left; or it is in the three stretches of the `Wait` of a logger, with the names behind it.
pub data Progress : Type 0 where
  outside : Progress
  looking : List ℕ → Progress
  beginning : ℕ → List ℕ → Progress
  waiting : ℕ → List ℕ → Progress
  ending : ℕ → List ℕ → Progress

module _ (p : Packages) (cache : Names) (keys : cache.State → List ℕ) where
  pub data Event : Type 0 where
    logs : LoggerRun.Event p → Event
    registers : Registry.Event → Event
    calls_wait : Event
    goes_on : Event

  pub record Program : Type 0 where
    pub loggers : System p
    pub registry : Registry.Registry cache
    pub wait : Progress

  -- `Wait`, once wMutex is free: it takes the keys of the cache.
  pub start_wait : Progress → Program → Program
  start_wait Progress.outside s = record s {
    wait = Progress.looking (keys s.registry.initialized_loggers);
  }
  start_wait (Progress.looking names) s = s
  start_wait (Progress.beginning l names) s = s
  start_wait (Progress.waiting l names) s = s
  start_wait (Progress.ending l names) s = s

  -- The look for the next name.
  pub look_up : ℕ → List ℕ → Program → Program
  look_up n names s =
      let (found, looked) = cache.get n s.registry.initialized_loggers in
      let registry = record s.registry { initialized_loggers = looked } in
      elim found [
        | some l ↦ record s { registry = registry; wait = Progress.beginning l names }
        | none ↦ record s { registry = registry; wait = Progress.looking names }
      ]

  -- The `Wait` of a logger up to `logTasks.Wait`. It returns at once if another one is under way.
  pub begin : ℕ → List ℕ → Program → Program
  begin l names s =
      if s.loggers.wait_started l
      then record s { wait = Progress.looking names }
      else record s { loggers = begin_wait p l s.loggers; wait = Progress.waiting l names }

  -- `logTasks.Wait` returns, once no task is left.
  pub finish : ℕ → List ℕ → Program → Program
  finish l names s =
      if s.loggers.log_tasks l == 0
      then record s { loggers = finish_tasks p l s.loggers; wait = Progress.ending l names }
      else s

  -- The next step of the call of `Wait`.
  pub go_on : Progress → Program → Program
  go_on Progress.outside s = s
  go_on (Progress.looking []) s = record s { wait = Progress.outside }
  go_on (Progress.looking (n ∷ names)) s = look_up n names s
  go_on (Progress.beginning l names) s = begin l names s
  go_on (Progress.waiting l names) s = finish l names s
  go_on (Progress.ending l names) s = record s {
    loggers = end_wait p l s.loggers;
    wait = Progress.looking names;
  }

  -- What a step of the registry does to the loggers: the end of the callback closes the evicted one.
  abbrev pub close_for : Caller → System p → System p
  close_for (Caller.evicting n l victim) s = close_evicted p victim s
  close_for c s = s

  -- A step of a caller of `NewLogger`.
  abbrev pub register : Registry.Event → Program → Program
  register (Registry.Event.calls i name) s = record s {
    registry = Registry.step cache (Registry.Event.calls i name) s.registry;
  }
  register (Registry.Event.goes_on i) s = record s {
    loggers = close_for (s.registry.callers i) s.loggers;
    registry = Registry.step cache (Registry.Event.goes_on i) s.registry;
  }

  abbrev pub step : Event → Program → Program
  step (Event.logs e) s = record s { loggers = LoggerRun.step p e s.loggers }
  step (Event.registers e) s = register e s
  step Event.calls_wait s = start_wait s.wait s
  step Event.goes_on s = go_on s.wait s

  abbrev pub run : List Event → Program → Program
  run [] s = s
  run (e ∷ es) s = run es (step e s)

  abbrev pub initial : (ℕ → Bool) → cache.State → Program
  initial paths names = record {
    loggers = LoggerRun.initial p paths;
    registry = Registry.initial cache names;
    wait = Progress.outside;
  }

  -- The steps of the loggers in a step of the program.
  abbrev closes_for : Caller → List (LoggerRun.Event p)
  closes_for (Caller.evicting n l victim) = LoggerRun.Event.evicts victim ∷ []
  closes_for c = []

  abbrev waits_in : Progress → Program → List (LoggerRun.Event p)
  waits_in (Progress.beginning l names) s = LoggerRun.Event.begins_wait l ∷ []
  waits_in (Progress.waiting l names) s = LoggerRun.Event.finishes_tasks l ∷ []
  waits_in (Progress.ending l names) s = LoggerRun.Event.ends_wait l ∷ []
  waits_in c s = []

  abbrev pub trace_of : Event → Program → List (LoggerRun.Event p)
  trace_of (Event.logs e) s = e ∷ []
  trace_of (Event.registers (Registry.Event.calls i name)) s = []
  trace_of (Event.registers (Registry.Event.goes_on i)) s = closes_for (s.registry.callers i)
  trace_of Event.calls_wait s = []
  trace_of Event.goes_on s = waits_in s.wait s

  abbrev pub trace : List Event → Program → List (LoggerRun.Event p)
  trace [] s = []
  trace (e ∷ es) s = trace_of e s ++ trace es (step e s)
