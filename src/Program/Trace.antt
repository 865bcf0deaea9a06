-- ===== src/Program/Trace.antt =====
-- The steps that the loggers make in a program: all that is known of the loggers holds in it.
use zipologger.Base.{
  ℕ, ◌≡◌, refl, sym, ap, ◌∙◌, Bool, true, false, All, Bool-cases, inl, inr, ◌==◌, List, [], ◌∷◌,
  ◌++◌, Option-cases,
}
use zipologger.Enc.{Packages}
use zipologger.Logger.{System}
use zipologger.Logger.Run as LoggerRun
use zipologger.Logger.Ends as Ends
use zipologger.Logger.Quiet.{is_quiet}
use zipologger.Logger.Stretches.{begin_wait_again, finish_tasks_later}
use zipologger.Registry as Registry
use zipologger.Registry.{Names, Caller}
use zipologger.Program.{
  Progress, Program, Event, start_wait, go_on, look_up, begin, finish, close_for, closes_for,
  waits_in, step, run, trace_of, trace,
}

module _ (p : Packages) (cache : Names) (keys : cache.State → List ℕ) where
  -- The loggers of a program only make the steps of its trace.
  go_on-loggers :
      (c : Progress) (s : Program p cache keys)
      → (go_on p cache keys c s).loggers ≡ LoggerRun.run p (waits_in p cache keys c s) s.loggers
  unfolding go_on look_up begin finish
  go_on-loggers Progress.outside s = refl
  go_on-loggers (Progress.looking []) s = refl
  go_on-loggers (Progress.looking (n ∷ names)) s =
      elim (Option-cases (cache.get n s.registry.initialized_loggers).0) [
        | inl e ↦ rw (look_up, e) refl
        | inr (l, e) ↦ rw (look_up, e) refl
      ]
  go_on-loggers (Progress.beginning l names) s = elim (Bool-cases (s.loggers.wait_started l)) [
    | inl e ↦ rw (begin, e) (sym (begin_wait_again p l s.loggers e))
    | inr e ↦ rw (begin, e) refl
  ]
  go_on-loggers (Progress.waiting l names) s = elim (Bool-cases (s.loggers.log_tasks l == 0)) [
    | inl e ↦ rw (finish, e) refl
    | inr e ↦ rw (finish, e) (sym (finish_tasks_later p l s.loggers e))
  ]
  go_on-loggers (Progress.ending l names) s = refl

  start_wait-loggers :
      (c : Progress) (s : Program p cache keys) → (start_wait p cache keys c s).loggers ≡ s.loggers
  unfolding start_wait
  start_wait-loggers Progress.outside s = refl
  start_wait-loggers (Progress.looking names) s = refl
  start_wait-loggers (Progress.beginning l names) s = refl
  start_wait-loggers (Progress.waiting l names) s = refl
  start_wait-loggers (Progress.ending l names) s = refl

  close_for-loggers :
      (c : Caller) (s : System p)
      → close_for p cache keys c s ≡ LoggerRun.run p (closes_for p cache keys c) s
  close_for-loggers Caller.outside s = refl
  close_for-loggers (Caller.locking n) s = refl
  close_for-loggers (Caller.holding n) s = refl
  close_for-loggers (Caller.creating n) s = refl
  close_for-loggers (Caller.evicting n l k) s = refl
  close_for-loggers (Caller.returned n l) s = refl

  step-loggers :
      (e : Event p cache keys) (s : Program p cache keys)
      → (step p cache keys e s).loggers ≡ LoggerRun.run p (trace_of p cache keys e s) s.loggers
  step-loggers (Event.logs e) s = refl
  step-loggers (Event.registers (Registry.Event.calls i name)) s = refl
  step-loggers (Event.registers (Registry.Event.goes_on i)) s =
      close_for-loggers (s.registry.callers i) s.loggers
  step-loggers Event.calls_wait s = start_wait-loggers s.wait s
  step-loggers Event.goes_on s = go_on-loggers s.wait s

  pub run-loggers :
      (es : List (Event p cache keys)) (s : Program p cache keys)
      → (run p cache keys es s).loggers ≡ LoggerRun.run p (trace p cache keys es s) s.loggers
  run-loggers [] s = refl
  run-loggers (e ∷ es) s =
      run-loggers es (step p cache keys e s)
      ∙ ap (LoggerRun.run p (trace p cache keys es (step p cache keys e s))) (step-loggers e s)
      ∙ sym (
          Ends.run-append p (trace_of p cache keys e s)
            (trace p cache keys es (step p cache keys e s)) s.loggers)

  -- The steps of a program in which the call of `Wait` goes on, and the loggers without a new call.
  abbrev pub is_calm : Event p cache keys → Bool
  is_calm (Event.logs e) = is_quiet p e
  is_calm (Event.registers e) = false
  is_calm Event.calls_wait = false
  is_calm Event.goes_on = true

  abbrev pub AllCalm : List (Event p cache keys) → Type 0
  AllCalm = All (λ e. is_calm e ≡ true)

  pub run-append :
      (es fs : List (Event p cache keys)) (s : Program p cache keys)
      → run p cache keys (es ++ fs) s ≡ run p cache keys fs (run p cache keys es s)
  run-append [] fs s = refl
  run-append (e ∷ es) fs s = run-append es fs (step p cache keys e s)
