-- ===== src/Entry/Handlers.antt =====
-- The handlers of panics, when no directory takes the log of a panic.
use zipologger.Base.{
  ℕ, ◌≡◌, ◌↔◌, refl, sym, ap, false, Bool, Bool-cases, inl, inr, List, [], ◌∷◌, ◌++◌, append_assoc,
  none, some,
}
use zipologger.Enc.{Packages}
use zipologger.Logger.{Call, System, prefixed, enter}
use zipologger.Panic.{Files, panic_text, save_panic_to_file}
use zipologger.Panic.Saved.{takes, save_panic_to_file_iff, save_panic_to_file_refused}
use zipologger.Entry.{Place, panic_line, is_no_op, print, printf, handle_panic_log}

module _ (p : Packages) (empty_logger : ℕ) (unnamed : ℕ → Bool) where
  -- If neither directory takes the log and there is no error log, what `HandlePanicLog` returns and
  -- leaves in the files, on the terminal and with the loggers is the same for any two panics: the
  -- description of the panic is lost.
  pub handle_panic_log_lost :
      (place : Place) (e e' : List ℕ) (files : Files) (s : System p)
      → takes place.disk place.now place.beside ≡ false
      → takes place.disk place.now place.working ≡ false
      → handle_panic_log p empty_logger unnamed place none e files s
        ≡ handle_panic_log p empty_logger unnamed place none e' files s
  unfolding handle_panic_log
  handle_panic_log_lost place e e' files s a b =
      let refused = λ (d : List ℕ).
        save_panic_to_file_refused place.disk place.beside place.working place.now
          (panic_text place.at d place.stack) files a b in
      rw (refused e, refused e') refl

  -- A message ends with the text of its call.
  prefixed_ends :
      (c : Call) (s : System p) → (before : List ℕ) × ((prefixed p s c).msg ≡ before ++ c.of.msg)
  prefixed_ends c s = elim (Bool-cases (s.log_source_path c.of.logger)) [
    | inl f ↦ elim (Bool-cases (s.log_date_time c.of.logger)) [
      | inl g ↦ (c.now ++ c.caller, rw (f, g) (sym (append_assoc c.now c.caller c.of.msg)))
      | inr g ↦ (c.caller, rw (f, g) refl)
    ]
    | inr f ↦ elim (Bool-cases (s.log_date_time c.of.logger)) [
      | inl g ↦ (c.now, rw (f, g) refl)
      | inr g ↦ ([], rw (f, g) refl)
    ]
  ]

  -- With an error log that writes and is not waited for, `HandlePanicLog` begins a print on it whose
  -- message ends with "PANIC: ", the description and a newline, whatever the disk does; and it
  -- returns the empty text exactly if neither directory takes the log.
  pub handle_panic_log_told :
      (place : Place) (c : Call) (e : List ℕ) (files : Files) (s : System p)
      → is_no_op p empty_logger unnamed c.of.logger s ≡ false
      → s.wait_started c.of.logger ≡ false
      → let r = handle_panic_log p empty_logger unnamed place (some c) e files s in
        ((before : List ℕ) × (r.1.1.entering
            ≡ record { logger = c.of.logger; msg = before ++ (panic_line e ++ 10 ∷ []) }
              ∷ s.entering))
        × ((r.0 ≡ []) ↔ (
            (takes place.disk place.now place.beside ≡ false)
            × (takes place.disk place.now place.working ≡ false)))
  unfolding handle_panic_log printf print enter
  handle_panic_log_told place c e files s a b =
      let str =
        save_panic_to_file place.disk place.beside place.working place.now
          (panic_text place.at e place.stack) files in
      let call = record c { of = record { logger = c.of.logger; msg = panic_line e ++ 10 ∷ [] } } in
      let told = record s { stdout = s.stdout ++ panic_line str.0 ∷ [] } in
      let (before, ends) = prefixed_ends call told in
      (
        (
          before,
          rw (handle_panic_log, printf, a, enter, b)
              (ap (λ (t : List ℕ). record { logger = c.of.logger; msg = t } ∷ s.entering) ends),
        ),
        (save_panic_to_file_iff place.disk place.beside place.working place.now place.at e
            place.stack files).0,
      )
