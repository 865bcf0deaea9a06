-- ===== src/Logger/Refine.antt =====
-- The steps of the loggers are moves of the ledger of each, and so what they write is first in,
-- first out.
use zipologger.Base.{ℕ, refl, Bool}
use zipologger.Base.{List, [], ◌∷◌}
use zipologger.Enc.{Packages}
use zipologger.Logger.{
  System, write_source_path, write_date_time, set_also_to_stdout, set_all_to_stdout,
}
use zipologger.Logger.Run.{Event, step, run, initial}
use zipologger.Logger.Ledger.{Move, Moves, IsFifo, Moves-IsFifo}
use zipologger.Logger.Moves.{
  close-Move, close_evicted-Move, ledger, accepted_by, accepted, send-Move, receive-Move,
  write-Move, enter-Move, add_task-Move, begin_wait-Move, finish_tasks-Move, end_wait-Move,
  set_encryption_key-Move, set_global_encryption-Move,
}

module _ (p : Packages) where
  -- Every step of the system is, for each logger, a move of its ledger that accepts the messages
  -- which the step puts into the channel for it: the queue and the file stay as they are, or a
  -- message joins the end of the queue, or the first message leaves the queue and one line for it
  -- is written, or the first message is lost.
  pub step-Move :
      (l : ℕ) (e : Event p) (s : System p)
      → Move p (ledger p l s) (ledger p l (step p e s)) (accepted_by p l e s)
  unfolding write_source_path write_date_time set_also_to_stdout set_all_to_stdout
  step-Move l (Event.enters c) s = enter-Move p l c s
  step-Move l (Event.adds i) s = add_task-Move p l i s
  step-Move l (Event.sends i) s = send-Move p l i s
  step-Move l Event.receives s = receive-Move p l s
  step-Move l (Event.writes opens random) s = write-Move p l opens random s
  step-Move l (Event.begins_wait k) s = begin_wait-Move p l k s
  step-Move l (Event.finishes_tasks k) s = finish_tasks-Move p l k s
  step-Move l (Event.ends_wait k) s = end_wait-Move p l k s
  step-Move l (Event.closes k) s = close-Move p l k s
  step-Move l (Event.evicts k) s = close_evicted-Move p l k s
  step-Move l (Event.sets_key k key) s = set_encryption_key-Move p l k key s
  step-Move l (Event.sets_global key) s = set_global_encryption-Move p l key s
  step-Move l (Event.sets_source_path k b) s = Move.stays refl refl
  step-Move l (Event.sets_date_time k b) s = Move.stays refl refl
  step-Move l (Event.sets_stdout k b) s = Move.stays refl refl
  step-Move l (Event.sets_all_stdout b) s = Move.stays refl refl

  run-Moves :
      (l : ℕ) (es : List (Event p)) (s : System p)
      → Moves p (ledger p l s) (ledger p l (run p es s)) (accepted p l es s)
  run-Moves l [] s = Moves.done (ledger p l s)
  run-Moves l (e ∷ es) s =
      Moves.then (ledger p l s) (ledger p l (step p e s)) (ledger p l (run p es (step p e s)))
        (accepted_by p l e s) (accepted p l es (step p e s)) (step-Move l e s)
        (run-Moves l es (step p e s))

  -- However the steps interleave, the messages of a logger that the channel accepts are handled in
  -- their order: those handled and those still pending are together the accepted ones, and the file
  -- of the logger has, in this order, at most one line for each handled message and no other line.
  pub run-IsFifo :
      (paths : ℕ → Bool) (l : ℕ) (es : List (Event p))
      → let s = run p es (initial p paths) in
        IsFifo p
          (record { pending = []; written = [] })
          (ledger p l s)
          (accepted p l es (initial p paths))
  run-IsFifo paths l es =
      let s = initial p paths in
      Moves-IsFifo p (ledger p l s) (ledger p l (run p es s)) (accepted p l es s) (run-Moves l es s)
