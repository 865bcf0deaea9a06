-- ===== src/Logger/Run.antt =====
-- What may happen to the loggers, and in any order.
use zipologger.Base.{ℕ, Bool, true, false, List, [], ◌∷◌, none}
use zipologger.Enc.{Packages}
use zipologger.Logger.{
  Call, System, enter, add_task, send, receive, write, begin_wait, finish_tasks, end_wait, close,
  close_evicted, set_encryption_key, set_global_encryption, write_source_path, write_date_time,
  set_also_to_stdout, set_all_to_stdout,
}

module _ (p : Packages) where
  -- What may happen next.
  pub data Event : Type 0 where
    enters : Call → Event
    adds : ℕ → Event
    sends : ℕ → Event
    receives : Event
    writes : Bool → p.Random → Event
    begins_wait : ℕ → Event
    finishes_tasks : ℕ → Event
    ends_wait : ℕ → Event
    closes : ℕ → Event
    evicts : ℕ → Event
    sets_key : ℕ → List ℕ → Event
    sets_global : List ℕ → Event
    sets_source_path : ℕ → Bool → Event
    sets_date_time : ℕ → Bool → Event
    sets_stdout : ℕ → Bool → Event
    sets_all_stdout : Bool → Event

  abbrev pub step : Event → System p → System p
  step (Event.enters c) s = enter p c s
  step (Event.adds i) s = add_task p i s
  step (Event.sends i) s = send p i s
  step Event.receives s = receive p s
  step (Event.writes opens random) s = write p opens random s
  step (Event.begins_wait l) s = begin_wait p l s
  step (Event.finishes_tasks l) s = finish_tasks p l s
  step (Event.ends_wait l) s = end_wait p l s
  step (Event.closes l) s = (close p l s).0
  step (Event.evicts l) s = close_evicted p l s
  step (Event.sets_key l key) s = (set_encryption_key p l key s).0
  step (Event.sets_global key) s = (set_global_encryption p key s).0
  step (Event.sets_source_path l b) s = write_source_path p l b s
  step (Event.sets_date_time l b) s = write_date_time p l b s
  step (Event.sets_stdout l b) s = set_also_to_stdout p l b s
  step (Event.sets_all_stdout b) s = set_all_to_stdout p b s

  abbrev pub run : List Event → System p → System p
  run [] s = s
  run (e ∷ es) s = run es (step e s)

  -- Before the first call. `paths` is the argument `writeFileline` of the `NewLogger` of each.
  abbrev pub initial : (ℕ → Bool) → System p
  initial paths = record {
    entering = [];
    sending = [];
    tolog_ch = [];
    in_hand = none;
    log_tasks = λ l. 0;
    wait_started = λ l. false;
    wait_returned = λ l. false;
    opened = λ l. false;
    zlog = λ l. false;
    closes = λ l. 0;
    files = λ l. [];
    encryption_key = λ l. none;
    global_key = none;
    log_source_path = paths;
    log_date_time = λ l. true;
    to_stdout = λ l. false;
    also_to_stdout = false;
    stdout = [];
    drop_alert = false;
    alerts = 0;
  }
