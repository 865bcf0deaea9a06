-- ===== src/Entry.antt =====
-- logger.go and gost_compability.go: the functions with which a program prints, and the handlers of
-- panics, which print too. A logger is a number, and what fmt makes of a format and its arguments is
-- the text of the call.
pub mod NoOp
pub mod Handlers
mod Tests
use zipologger.Base.{
  ℕ, Bool, true, false, not, ◌==◌, ◌&&◌, ◌||◌, if◌then◌else◌, List, [], ◌∷◌, ◌++◌, Option, none,
  some,
}
use zipologger.Enc.{Packages}
use zipologger.Logger.{Message, Call, System, prefixed, enter}
use zipologger.Logger.Run as LoggerRun
use zipologger.Panic.{Disk, Files, panic_text, save_panic_to_file}

-- "PANIC: " before a text. The lines of the terminal are without their newline.
abbrev pub panic_line : List ℕ → List ℕ
panic_line str = 80 ∷ 65 ∷ 78 ∷ 73 ∷ 67 ∷ 58 ∷ 32 ∷ str

-- The place of a handler of panics: the candidate directories, the time, its caller, and the stack.
pub record Place : Type 0 where
  pub disk : Disk
  pub beside : ℕ
  pub working : ℕ
  pub now : ℕ
  pub at : List ℕ
  pub stack : List ℕ

module _ (p : Packages) (empty_logger : ℕ) (unnamed : ℕ → Bool) where
  -- The test of a logger that writes nowhere: it is `EmptyLogger`, or has no file name and no file.
  abbrev pub is_no_op : ℕ → System p → Bool
  is_no_op l s = l == empty_logger || (unnamed l && (not (s.opened l) && not (s.zlog l)))

  -- `print` up to its task, with the text that it will return.
  pub print : Call → System p → System p × List ℕ
  print c s = (enter p c s, if s.wait_started c.of.logger then c.of.msg else (prefixed p s c).msg)

  -- `Print`.
  pub print_text : Call → System p → System p × List ℕ
  print_text c s = if is_no_op c.of.logger s then (s, c.of.msg) else print c s

  -- `printf`, which is `Printf`, and `Fatalf` up to its Flush.
  pub printf : Call → System p → System p × List ℕ
  printf c s = if is_no_op c.of.logger s then (s, c.of.msg) else print c s

  -- `Println`, with the number of its arguments.
  pub println : ℕ → Call → System p → System p × List ℕ
  println arguments c s =
      if arguments == 0
      then (s, [])
      else if is_no_op c.of.logger s
      then (s, c.of.msg)
      else print c s

  -- `Log` and `Logf` of GostLogger. `Logf` panics if it has no arguments behind the format.
  pub gost_log : Call → System p → System p
  gost_log c s = (print_text c s).0

  pub gost_logf : ℕ → Call → System p → Option (System p)
  gost_logf arguments c s = if arguments == 0 then none else some (printf c s).0

  -- `HandlePanicLog` for the panic `e`, with the error log, if there is one, and its call of Printf:
  -- the text that it returns, the files, and the loggers.
  pub handle_panic_log :
      Place → Option Call → List ℕ → Files → System p → List ℕ × (Files × System p)
  handle_panic_log place err_log e files s =
      let (str, files) =
        save_panic_to_file place.disk place.beside place.working place.now
          (panic_text place.at e place.stack) files in
      let told = record s { stdout = s.stdout ++ panic_line str ∷ [] } in
      elim err_log [
        | none ↦ (str, (files, told))
        | some c ↦
            let call = record c {
              of = record { logger = c.of.logger; msg = panic_line e ++ 10 ∷ [] };
            } in
            (str, (files, (printf call told).0))
      ]

  -- `HandlePanic`: what `recover` gives, and whether there is a catcher of errors, to which the text
  -- of the log is sent.
  pub handle_panic :
      Place → Bool → Option (List ℕ) → Files → System p → Option (List ℕ) × (Files × System p)
  handle_panic place catcher recovered files s = elim recovered [
    | none ↦ (none, (files, s))
    | some e ↦
        let (sp, files) =
          save_panic_to_file place.disk place.beside place.working place.now
            (panic_text place.at e place.stack) files in
        (if catcher then some sp else none, (files, record s { stdout = s.stdout ++ e ∷ [] }))
  ]

  -- What a program does with its loggers.
  pub data Event : Type 0 where
    prints : Call → Event
    printfs : Call → Event
    printlns : ℕ → Call → Event
    logs : Call → Event
    logfs : ℕ → Call → Event
    handles_panic_log : Place → Option Call → List ℕ → Files → Event
    handles_panic : Place → Bool → Option (List ℕ) → Files → Event
    goes_on : LoggerRun.Event p → Event

  abbrev pub step : Event → System p → System p
  step (Event.prints c) s = (print_text c s).0
  step (Event.printfs c) s = (printf c s).0
  step (Event.printlns arguments c) s = (println arguments c s).0
  step (Event.logs c) s = gost_log c s
  step (Event.logfs arguments c) s = elim (gost_logf arguments c s) [ none ↦ s | some t ↦ t ]
  step (Event.handles_panic_log place err_log e files) s =
      (handle_panic_log place err_log e files s).1.1
  step (Event.handles_panic place catcher recovered files) s =
      (handle_panic place catcher recovered files s).1.1
  step (Event.goes_on e) s = LoggerRun.step p e s

  abbrev pub run : List Event → System p → System p
  run [] s = s
  run (e ∷ es) s = run es (step e s)
