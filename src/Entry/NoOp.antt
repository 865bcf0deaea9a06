-- ===== src/Entry/NoOp.antt =====
-- The loggers that write nowhere.
use zipologger.Base.{
  ℕ, ◌≡◌, ◌⊎◌, inl, inr, refl, sym, ap, ◌∙◌, true, false, false≢true, Bool, Bool-cases, ◌==◌,
  ==_iff, All, if◌then◌else◌, ◌++◌, List, [], ◌∷◌, none, some,
}
use zipologger.Enc.{Packages}
use zipologger.Logger.{Call, System}
use zipologger.Logger.Run as LoggerRun
use zipologger.Logger.Count.{count}
use zipologger.Logger.Untouched.{IsUntouched, begins, kept}
use zipologger.Logger.Untouched.Step.{step-IsUntouched}
use zipologger.Panic.{panic_text, save_panic_to_file}
use zipologger.Entry.{
  panic_line, is_no_op, print, print_text, printf, println, gost_log, gost_logf, handle_panic_log,
  handle_panic, Event, step, run,
}

module _ (p : Packages) (empty_logger : ℕ) (unnamed : ℕ → Bool) where
  -- Calls of print come from the functions of the package.
  abbrev pub is_entry : Event p empty_logger unnamed → Bool
  is_entry (Event.goes_on (LoggerRun.Event.enters c)) = false
  is_entry e = true

  abbrev pub IsNoOp : ℕ → Type 0
  IsNoOp l = (l ≡ empty_logger) ⊎ (unnamed l ≡ true)

  no_op :
      (l : ℕ) (s : System p)
      → IsNoOp l
      → IsUntouched p l s
      → is_no_op p empty_logger unnamed l s ≡ true
  no_op l s (inl e) u = rw ((==_iff l empty_logger).1 e) refl
  no_op l s (inr e) u = elim (Bool-cases (l == empty_logger)) [
    | inl f ↦ rw f refl
    | inr f ↦ rw (f, e, u.opened, u.zlog) refl
  ]

  module _ (l : ℕ) (h : IsNoOp l) (s : System p) (u : IsUntouched p l s) where
    no_op_here : (c : Call) → c.of.logger ≡ l → is_no_op p empty_logger unnamed c.of.logger s ≡ true
    no_op_here c e = ap (λ k. is_no_op p empty_logger unnamed k s) e ∙ no_op l s h u

    print_text_no_op :
        (c : Call) → c.of.logger ≡ l → print_text p empty_logger unnamed c s ≡ (s, c.of.msg)
    unfolding print_text
    print_text_no_op c e = let quiet = no_op_here c e in rw (print_text, quiet) refl

    printf_no_op : (c : Call) → c.of.logger ≡ l → printf p empty_logger unnamed c s ≡ (s, c.of.msg)
    unfolding printf
    printf_no_op c e = let quiet = no_op_here c e in rw (printf, quiet) refl

    -- Behind the test, only other loggers get a message.
    gated :
        (c : Call)
        → IsUntouched p l
            (if is_no_op p empty_logger unnamed c.of.logger s
              then (s, c.of.msg)
              else print p empty_logger unnamed c s).0
    unfolding print
    gated c = elim (Bool-cases (is_no_op p empty_logger unnamed c.of.logger s)) [
      | inl e ↦ rw e u
      | inr e ↦ elim (Bool-cases (l == c.of.logger)) [
        | inl own ↦ absurd (false≢true (sym e ∙ no_op_here c (sym ((==_iff l c.of.logger).0 own))))
        | inr other ↦ rw e (step-IsUntouched p l s u (LoggerRun.Event.enters c) other)
      ]
    ]

    print_text-IsUntouched : (c : Call) → IsUntouched p l (print_text p empty_logger unnamed c s).0
    unfolding print_text
    print_text-IsUntouched c = gated c

    pub printf-IsUntouched : (c : Call) → IsUntouched p l (printf p empty_logger unnamed c s).0
    unfolding printf
    printf-IsUntouched c = gated c

    println-IsUntouched :
        (arguments : ℕ) (c : Call)
        → IsUntouched p l (println p empty_logger unnamed arguments c s).0
    unfolding println
    println-IsUntouched arguments c = elim (Bool-cases (arguments == 0)) [
      | inl e ↦ rw (println, e) u
      | inr e ↦ rw (println, e) (gated c)
    ]

    told-IsUntouched : (lines : List (List ℕ)) → IsUntouched p l (record s { stdout = lines })
    told-IsUntouched lines = kept p u refl refl refl refl refl refl refl

  no_call :
      (l : ℕ) (e : LoggerRun.Event p) → is_entry (Event.goes_on e) ≡ true → begins p l e ≡ false
  no_call l (LoggerRun.Event.enters c) q = absurd (false≢true q)
  no_call l (LoggerRun.Event.adds i) q = refl
  no_call l (LoggerRun.Event.sends i) q = refl
  no_call l LoggerRun.Event.receives q = refl
  no_call l (LoggerRun.Event.writes opens random) q = refl
  no_call l (LoggerRun.Event.begins_wait k) q = refl
  no_call l (LoggerRun.Event.finishes_tasks k) q = refl
  no_call l (LoggerRun.Event.ends_wait k) q = refl
  no_call l (LoggerRun.Event.closes k) q = refl
  no_call l (LoggerRun.Event.evicts k) q = refl
  no_call l (LoggerRun.Event.sets_key k key) q = refl
  no_call l (LoggerRun.Event.sets_global key) q = refl
  no_call l (LoggerRun.Event.sets_source_path k b) q = refl
  no_call l (LoggerRun.Event.sets_date_time k b) q = refl
  no_call l (LoggerRun.Event.sets_stdout k b) q = refl
  no_call l (LoggerRun.Event.sets_all_stdout b) q = refl

  module _ (l : ℕ) (h : IsNoOp l) where
    step-IsUntouched_entry :
        (e : Event p empty_logger unnamed) (s : System p)
        → is_entry e ≡ true
        → IsUntouched p l s
        → IsUntouched p l (step p empty_logger unnamed e s)
    unfolding gost_log gost_logf handle_panic_log handle_panic
    step-IsUntouched_entry (Event.prints c) s q u = print_text-IsUntouched l h s u c
    step-IsUntouched_entry (Event.printfs c) s q u = printf-IsUntouched l h s u c
    step-IsUntouched_entry (Event.printlns arguments c) s q u =
        println-IsUntouched l h s u arguments c
    step-IsUntouched_entry (Event.logs c) s q u = print_text-IsUntouched l h s u c
    step-IsUntouched_entry (Event.logfs arguments c) s q u = elim (Bool-cases (arguments == 0)) [
      | inl e ↦ rw (step, gost_logf, e) u
      | inr e ↦ rw (step, gost_logf, e) (printf-IsUntouched l h s u c)
    ]
    step-IsUntouched_entry (Event.handles_panic_log place none e files) s q u =
        let (str, after) =
          save_panic_to_file place.disk place.beside place.working place.now
            (panic_text place.at e place.stack) files in
        told-IsUntouched l h s u (s.stdout ++ panic_line str ∷ [])
    step-IsUntouched_entry (Event.handles_panic_log place (some c) e files) s q u =
        let (str, after) =
          save_panic_to_file place.disk place.beside place.working place.now
            (panic_text place.at e place.stack) files in
        let lines = s.stdout ++ panic_line str ∷ [] in
        let msg = panic_line e ++ 10 ∷ [] in
        let call = record c { of = record { logger = c.of.logger; msg = msg } } in
        printf-IsUntouched l h (record s { stdout = lines }) (told-IsUntouched l h s u lines) call
    step-IsUntouched_entry (Event.handles_panic place catcher none files) s q u = u
    step-IsUntouched_entry (Event.handles_panic place catcher (some e) files) s q u =
        told-IsUntouched l h s u (s.stdout ++ e ∷ [])
    step-IsUntouched_entry (Event.goes_on e) s q u = step-IsUntouched p l s u e (no_call l e q)

    run-IsUntouched :
        (es : List (Event p empty_logger unnamed)) (s : System p)
        → All (λ e. is_entry e ≡ true) es
        → IsUntouched p l s
        → IsUntouched p l (run p empty_logger unnamed es s)
    run-IsUntouched [] s q u = u
    run-IsUntouched (e ∷ es) s q u =
        run-IsUntouched es (step p empty_logger unnamed e s) q.1 (step-IsUntouched_entry e s q.0 u)

    -- Of `EmptyLogger` and of every logger without a file name: after any calls of the functions
    -- that print and of the handlers of panics, on any loggers, and any steps of the calls under way
    -- and of the goroutine, it has no file and no message in the channel, and `Print` and `Printf`
    -- on it change nothing and return their text as it is.
    pub no_op_lem :
        (paths : ℕ → Bool) (es : List (Event p empty_logger unnamed))
        → All (λ e. is_entry e ≡ true) es
        → let s = run p empty_logger unnamed es (LoggerRun.initial p paths) in
          (s.opened l ≡ false)
          × (s.files l ≡ [])
          × (count l s.tolog_ch ≡ 0)
          × ((c : Call)
              → c.of.logger ≡ l
              → (print_text p empty_logger unnamed c s ≡ (s, c.of.msg))
                × (printf p empty_logger unnamed c s ≡ (s, c.of.msg)))
    no_op_lem paths es q =
        let start = LoggerRun.initial p paths in
        let s = run p empty_logger unnamed es start in
        let u = run-IsUntouched es start q (record {
          entering = refl;
          sending = refl;
          queued = refl;
          in_hand = refl;
          opened = refl;
          zlog = refl;
          files = refl;
        }) in
        (
          u.opened,
          u.files,
          u.queued,
          λ c e. (print_text_no_op l h s u c e, printf_no_op l h s u c e),
        )
