-- ===== src/Program/Returns.antt =====
-- The call of `Wait` comes to its end.
use zipologger.Base.{
  false, All, ℕ, zero, suc, ◌+◌, ◌-◌, ◌*◌, ◌≤◌, ◌≡◌, refl, sym, ap, ◌∙◌, arith, subst, Bool, true,
  Bool-cases, inl, inr, ==_iff, List, [], ◌∷◌, ◌++◌, length, replicate, Option-cases,
}
use zipologger.Enc.{Packages}
use zipologger.Logger.Run as LoggerRun
use zipologger.Logger.Stretches.{begin_wait-log_tasks, finish_tasks-log_tasks, end_wait-log_tasks}
use zipologger.Logger.Count.{count, held}
use zipologger.Logger.Counted.{IsCounted}
use zipologger.Logger.Tasks.{run-IsCounted}
use zipologger.Logger.Ends.{goes_on, AllGoOn, way_out}
use zipologger.Logger.Ends as Ends
use zipologger.Registry.{Names}
use zipologger.Program.{
  Progress, Program, Event, go_on, look_up, begin, finish, step, run, initial, trace,
}
use zipologger.Program.Trace.{run-append, run-loggers}

-- How many steps the call takes at most, if no task is left.
abbrev steps_left : Progress → ℕ
steps_left Progress.outside = 0
steps_left (Progress.looking names) = 1 + 4 * length names
steps_left (Progress.beginning l names) = 4 + 4 * length names
steps_left (Progress.waiting l names) = 3 + 4 * length names
steps_left (Progress.ending l names) = 2 + 4 * length names

module _ (p : Packages) (cache : Names) (keys : cache.State → List ℕ) where
  -- The steps of the call of `Wait`, of calls of print that have added their task, and of the
  -- goroutine.
  abbrev pub goes_on_in : Event p cache keys → Bool
  goes_on_in (Event.logs e) = goes_on p e
  goes_on_in (Event.registers e) = false
  goes_on_in Event.calls_wait = false
  goes_on_in Event.goes_on = true

  abbrev pub AllInCall : List (Event p cache keys) → Type 0
  AllInCall = All (λ e. goes_on_in e ≡ true)

  abbrev IsDone : Program p cache keys → Type 0
  IsDone s = (l : ℕ) → s.loggers.log_tasks l ≡ 0

  -- Each step of the call is one less to take.
  go_on-IsDone :
      (c : Progress) (s : Program p cache keys)
      → s.wait ≡ c
      → IsDone s
      → let t = go_on p cache keys c s in IsDone t × (steps_left t.wait ≤ steps_left c - 1)
  unfolding go_on look_up begin finish
  go_on-IsDone Progress.outside s at d = (d, omega (arith, ap steps_left at))
  go_on-IsDone (Progress.looking []) s at d = (d, omega arith)
  go_on-IsDone (Progress.looking (n ∷ names)) s at d =
      elim (Option-cases (cache.get n s.registry.initialized_loggers).0) [
        | inl e ↦ rw (look_up, e) (d, omega arith)
        | inr (l, e) ↦ rw (look_up, e) (d, omega arith)
      ]
  go_on-IsDone (Progress.beginning l names) s at d = elim (Bool-cases (s.loggers.wait_started l)) [
    | inl e ↦ rw (begin, e) (d, omega arith)
    | inr e ↦ rw (begin, e) (λ k. begin_wait-log_tasks p l k s.loggers ∙ d k, omega arith)
  ]
  go_on-IsDone (Progress.waiting l names) s at d =
      let zero = (==_iff (s.loggers.log_tasks l) 0).1 (d l) in
      rw (finish, zero) (λ k. finish_tasks-log_tasks p l k s.loggers ∙ d k, omega arith)
  go_on-IsDone (Progress.ending l names) s at d =
      (λ k. end_wait-log_tasks p l k s.loggers ∙ d k, omega arith)

  none_left : (c : Progress) → steps_left c ≤ 0 → c ≡ Progress.outside
  none_left Progress.outside h = refl
  none_left (Progress.looking names) h = absurd (omega arith)
  none_left (Progress.beginning l names) h = absurd (omega arith)
  none_left (Progress.waiting l names) h = absurd (omega arith)
  none_left (Progress.ending l names) h = absurd (omega arith)

  -- Enough steps of the call end it.
  all_steps :
      (k : ℕ) (s : Program p cache keys)
      → IsDone s
      → steps_left s.wait ≤ k
      → (run p cache keys (replicate k Event.goes_on) s).wait ≡ Progress.outside
  all_steps zero s d h = none_left s.wait h
  all_steps (suc k) s d h =
      let next = go_on-IsDone s.wait s refl d in
      all_steps k (go_on p cache keys s.wait s) next.0 (omega (arith, next.1))

  replicate-AllInCall : (k : ℕ) → AllInCall (replicate k Event.goes_on)
  replicate-AllInCall zero = tt
  replicate-AllInCall (suc k) = (refl, replicate-AllInCall k)

  -- Steps of the loggers alone.
  abbrev logged : List (LoggerRun.Event p) → List (Event p cache keys)
  logged [] = []
  logged (e ∷ es) = Event.logs e ∷ logged es

  run-logged :
      (es : List (LoggerRun.Event p)) (s : Program p cache keys)
      → run p cache keys (logged es) s ≡ record s { loggers = LoggerRun.run p es s.loggers }
  run-logged [] s = refl
  run-logged (e ∷ es) s = run-logged es (step p cache keys (Event.logs e) s)

  append-AllInCall :
      (es : List (LoggerRun.Event p)) (fs : List (Event p cache keys))
      → AllGoOn p es
      → AllInCall fs
      → AllInCall (logged es ++ fs)
  append-AllInCall [] fs a b = b
  append-AllInCall (e ∷ es) fs a b = (a.0, append-AllInCall es fs a.1 b)

  -- After any interleaving of steps of a program, also with other waits under way, the sends of the
  -- calls of print under way, rounds of the goroutine and the steps of `Wait` itself can lead to its
  -- return: a call of `Wait` is never stuck.
  pub wait_returns :
      (paths : ℕ → Bool) (names : cache.State) (es : List (Event p cache keys)) (r : p.Random)
      → let s = run p cache keys es (initial p cache keys paths names) in
        (fs : List (Event p cache keys)) × AllInCall fs
        × ((run p cache keys fs s).wait ≡ Progress.outside)
  wait_returns paths names es r =
      let start = initial p cache keys paths names in
      let s = run p cache keys es start in
      let (gs, on, out) = way_out p r s.loggers in
      let k = steps_left s.wait in
      let fs = logged gs ++ replicate k Event.goes_on in
      let t = record s { loggers = LoggerRun.run p gs s.loggers } in
      let steps = trace p cache keys es start in
      let same : t.loggers ≡ LoggerRun.run p (steps ++ gs) start.loggers =
        ap (LoggerRun.run p gs) (run-loggers p cache keys es start)
        ∙ sym (Ends.run-append p steps gs start.loggers) in
      let counted = subst (IsCounted p) (sym same) (run-IsCounted p paths (steps ++ gs)) in
      let d : IsDone t = λ l.
        omega (arith, counted.tasks l, ap (count l) out.0, ap (count l) out.1, ap (held l) out.2) in
      (
        fs,
        append-AllInCall gs (replicate k Event.goes_on) on (replicate-AllInCall k),
        ap (λ (x : Program p cache keys). x.wait)
              (run-append p cache keys (logged gs) (replicate k Event.goes_on) s)
            ∙ ap
                (λ (x : Program p cache keys).
                  (run p cache keys (replicate k Event.goes_on) x).wait)
                (run-logged gs s)
            ∙ all_steps k t d (omega arith),
      )
