-- ===== src/Logger/Tests.antt =====
-- Runs of the loggers with the small instance of the packages.
use zipologger.Base.{ℕ, ◌+◌, ◌≡◌, refl, true, false, List, [], ◌∷◌, ◌++◌, some, none, Bool}
use zipologger.Text.Hex
use zipologger.Enc.{new_encrypt_key}
use zipologger.Enc.Toy.{toy}
use zipologger.Logger.{
  Message, Call, System, enter, add_task, send, receive, write, begin_wait, finish_tasks,
  set_encryption_key, close,
}
use zipologger.Logger.Line.{line}
use zipologger.Logger.Run.{Event, step, run, initial}
use zipologger.Logger.Count.{count, held}
use zipologger.Logger.Counted.{IsCounted}
use zipologger.Logger.Tasks.{run-IsCounted, end_wait_lem}
use zipologger.Logger.Drain.{lines_of, drain_lem, rounds}
use zipologger.Logger.Ledger.{IsFifo, Move}
use zipologger.Logger.Moves.{ledger, accepted, accepted_by}
use zipologger.Logger.Ends.{AllGoOn, finish_tasks_lem}
use zipologger.Logger.Lifecycle.{after, is_for, change, file, file-step}
use zipologger.Logger.Closing.{close_lem}
use zipologger.Logger.Refine.{step-Move, run-IsFifo}

-- "A\n" by logger 1, called from "f" on the day "d".
abbrev call : Call
call = record { of = record { logger = 1; msg = 65 ∷ 10 ∷ [] }; caller = 102 ∷ []; now = 100 ∷ [] }

abbrev no_paths : ℕ → Bool
no_paths l = false

-- Logger 1 prints and is waited for; the second print comes during the wait.
abbrev session : List (Event toy)
session =
    Event.enters call
    ∷ Event.adds 0
    ∷ Event.begins_wait 1
    ∷ Event.enters call
    ∷ Event.sends 0
    ∷ Event.receives
    ∷ Event.writes true 1
    ∷ []

abbrev finished : System toy
finished = run toy session (initial toy no_paths)

after_session :
    (finished.files 1 ≡ (100 ∷ 65 ∷ 10 ∷ []) ∷ [])
    × (finished.entering ≡ [])
    × (finished.wait_started 1 ≡ true)
unfolding enter add_task send receive write begin_wait line
after_session = (refl, refl, refl)

-- The key "01" is taken, and "0" is not.
keys_read :
    ((set_encryption_key toy 1 (48 ∷ 49 ∷ []) finished).1 ≡ true)
    × ((set_encryption_key toy 1 (48 ∷ []) finished).1 ≡ false)
unfolding set_encryption_key new_encrypt_key Hex.decode_string Hex.value_of
keys_read = (refl, refl)

run-IsCounted_example : IsCounted toy finished
run-IsCounted_example = run-IsCounted toy no_paths session

can_finish : (finish_tasks toy 1 finished).wait_returned 1 ≡ true
unfolding finish_tasks enter add_task send receive write begin_wait line
can_finish = refl

not_yet : finished.wait_returned 1 ≡ false
unfolding enter add_task send receive write begin_wait line
not_yet = refl

end_wait_lem_example :
    (count 1 finished.sending ≡ 0) × (count 1 finished.tolog_ch ≡ 0) × (held 1 finished.in_hand ≡ 0)
end_wait_lem_example = end_wait_lem toy no_paths session 1 can_finish not_yet

-- A state with two messages of logger 1 in the channel.
abbrev loaded : System toy
loaded = record (initial toy no_paths) {
  tolog_ch = call.of ∷ call.of ∷ [];
  log_tasks = λ l. 2;
  global_key = some true;
}

drain_lem_example :
    let t = run toy (rounds toy (1 ∷ 0 ∷ [])) loaded in
    (t.tolog_ch ≡ [])
    × (t.in_hand ≡ none)
    × ((l : ℕ)
        → t.files l
          ≡ [] ++ lines_of toy (λ k. none) (some true) l (1 ∷ 0 ∷ []) (call.of ∷ call.of ∷ []))
drain_lem_example = drain_lem toy (call.of ∷ call.of ∷ []) (1 ∷ 0 ∷ []) loaded refl refl refl

step-Move_example :
    Move toy
      (ledger toy 1 loaded)
      (ledger toy 1 (step toy Event.receives loaded))
      (accepted_by toy 1 Event.receives loaded)
step-Move_example = step-Move toy 1 Event.receives loaded

run-IsFifo_example :
    IsFifo toy
      (record { pending = []; written = [] })
      (ledger toy 1 finished)
      (accepted toy 1 session (initial toy no_paths))
run-IsFifo_example = run-IsFifo toy no_paths 1 session

-- The first six steps: the message is in the hand of the goroutine, and the wait has begun.
abbrev unfinished : List (Event toy)
unfinished =
    Event.enters call
    ∷ Event.adds 0
    ∷ Event.begins_wait 1
    ∷ Event.enters call
    ∷ Event.sends 0
    ∷ Event.receives
    ∷ []

waits : (run toy unfinished (initial toy no_paths)).wait_started 1 ≡ true
unfolding enter add_task send receive begin_wait
waits = refl

finish_tasks_lem_example :
    let s = run toy unfinished (initial toy no_paths) in
    (fs : List (Event toy)) × AllGoOn toy fs
    × ((finish_tasks toy 1 (run toy fs s)).wait_returned 1 ≡ true)
finish_tasks_lem_example = finish_tasks_lem toy no_paths unfinished 1 1 waits

-- A message of logger 1 on its way to the file.
abbrev printing : List (Event toy)
printing = Event.enters call ∷ Event.adds 0 ∷ Event.sends 0 ∷ Event.receives ∷ []

abbrev written : System toy
written = run toy (printing ++ Event.writes true 1 ∷ []) (initial toy no_paths)

closable : written.zlog 1 ≡ true
unfolding enter add_task send receive write line
closable = refl

-- After `Close` a second message is printed, and is in the hand of the goroutine.
abbrev reused : System toy
reused = run toy printing (close toy 1 written).0

in_hand_again : reused.in_hand ≡ some (record { logger = 1; msg = 100 ∷ 65 ∷ 10 ∷ [] })
unfolding enter add_task send receive write line close
in_hand_again = refl

close_lem_example :
    (reused.opened 1 ≡ true)
    × (reused.zlog 1 ≡ false)
    × (reused.closes 1 ≡ written.closes 1 + 1)
    × ((close toy 1 reused).1 ≡ false)
    × ((opens : Bool) (random : ℕ) (m : Message)
        → reused.in_hand ≡ some m
        → m.logger ≡ 1
        → let w = write toy opens random reused in
          (w.files 1
            ≡ reused.files 1
              ++ line toy random (reused.encryption_key 1) reused.global_key m.msg ∷ [])
          × (w.closes 1 ≡ written.closes 1 + 1))
close_lem_example =
    close_lem toy no_paths (printing ++ Event.writes true 1 ∷ []) printing 1 closable

file-step_example :
    file toy 1 (step toy (Event.closes 1) written)
    ≡ after (change toy 1 (Event.closes 1) (is_for 1 written.in_hand)) (file toy 1 written)
file-step_example = file-step toy 1 (Event.closes 1) written
