-- ===== src/Logger/Lifecycle.antt =====
-- The life of the rotating file of a logger, whatever the others do: it is opened with the first
-- message, and closed by `Close` or, for an evicted logger, by the cache.
use zipologger.Base.{
  ℕ, ◌+◌, ◌≡◌, refl, sym, ap, ◌∙◌, inl, inr, Bool, false, Bool-cases, ◌==◌, ◌&&◌, ==_iff, ltb,
  length, if◌then◌else◌, List, List-cases, Option, none, some, Option-cases,
}
use zipologger.Enc.{Packages, new_encrypt_key}
use zipologger.Logger.{
  Message, Call, System, capacity, take_out, enter, add_task, send, receive, write, begin_wait,
  finish_tasks, end_wait, close, close_evicted, set_encryption_key, set_global_encryption,
  write_source_path, write_date_time, set_also_to_stdout, set_all_to_stdout,
}
use zipologger.Logger.Run.{Event, step}

-- Whether `log` and `zlog` are set, and how often the rotating file was closed.
pub record File : Type 0 where
  pub opened : Bool
  pub zlog : Bool
  pub closes : ℕ

-- What a step asks for the file of one logger: nothing, to open it, which succeeds or fails, to close
-- it for `Close`, or to close it for the cache.
pub data Change : Type 0 where
  nothing : Change
  opening : Bool → Change
  closing : Change
  evicting : Change

-- What becomes of the file: it is opened only once, and closed only while `zlog` is set.
abbrev pub after : Change → File → File
after Change.nothing v = v
after (Change.opening opens) v =
    if v.opened then v else record { opened = opens; zlog = opens; closes = v.closes }
after Change.closing v =
    if v.zlog then record { opened = v.opened; zlog = false; closes = v.closes + 1 } else v
after Change.evicting v =
    if v.zlog then record { opened = v.opened; zlog = v.zlog; closes = v.closes + 1 } else v

-- The message in hand is one of logger `l`.
abbrev pub is_for : ℕ → Option Message → Bool
is_for l none = false
is_for l (some m) = l == m.logger

module _ (p : Packages) where
  abbrev pub file : ℕ → System p → File
  file l s = record { opened = s.opened l; zlog = s.zlog l; closes = s.closes l }

  -- What an event asks for logger `l`, if the message in hand is one of it, or is not.
  abbrev pub change : ℕ → Event p → Bool → Change
  change l (Event.writes opens random) own = if own then Change.opening opens else Change.nothing
  change l (Event.closes k) own = if l == k then Change.closing else Change.nothing
  change l (Event.evicts k) own = if l == k then Change.evicting else Change.nothing
  change l e own = Change.nothing

  enter-file : (l : ℕ) (c : Call) (s : System p) → file l (enter p c s) ≡ file l s
  unfolding enter
  enter-file l c s = elim (Bool-cases (s.wait_started c.of.logger)) [
    | inl e ↦ rw (enter, e) refl
    | inr e ↦ rw (enter, e) refl
  ]

  add_task-file : (l i : ℕ) (s : System p) → file l (add_task p i s) ≡ file l s
  unfolding add_task
  add_task-file l i s = elim (Option-cases (take_out i s.entering)) [
    | inl e ↦ rw (add_task, e) refl
    | inr (x, e) ↦ rw (add_task, e) refl
  ]

  send-file : (l i : ℕ) (s : System p) → file l (send p i s) ≡ file l s
  unfolding send
  send-file l i s = elim (Option-cases (take_out i s.sending)) [
    | inl e ↦ rw (send, e) refl
    | inr (x, e) ↦ elim (Bool-cases (ltb (length s.tolog_ch) capacity)) [
      | inl room ↦ rw (send, e, room) refl
      | inr full ↦ rw (send, e, full) refl
    ]
  ]

  receive-file : (l : ℕ) (s : System p) → file l (receive p s) ≡ file l s
  unfolding receive
  receive-file l s = elim (Option-cases s.in_hand) [
    | inr (m, e) ↦ rw (receive, e) refl
    | inl e ↦ elim (List-cases s.tolog_ch) [
      | inl f ↦ rw (receive, e, f) refl
      | inr (m, rest, f) ↦ rw (receive, e, f) refl
    ]
  ]

  write-file :
      (l : ℕ) (opens : Bool) (random : p.Random) (s : System p)
      → file l (write p opens random s)
        ≡ after (if is_for l s.in_hand then Change.opening opens else Change.nothing) (file l s)
  unfolding write
  write-file l opens random s = elim (Option-cases s.in_hand) [
    | inl e ↦ rw (write, e) refl
    | inr (m, e) ↦ elim (Bool-cases (l == m.logger)) [
      | inr else_ ↦ rw (write, e, else_) refl
      | inl own ↦
          let same : m.logger ≡ l = sym ((==_iff l m.logger).0 own) in
          elim (Bool-cases (s.opened l)) [
            | inl before ↦ rw (write, e, own, same, before) refl
            | inr fresh ↦ elim (Bool-cases opens) [
              | inl can ↦ rw (write, e, own, same, fresh, can) refl
              | inr cannot ↦ rw (write, e, own, same, fresh, cannot) refl
            ]
          ]
    ]
  ]

  begin_wait-file : (l k : ℕ) (s : System p) → file l (begin_wait p k s) ≡ file l s
  unfolding begin_wait
  begin_wait-file l k s = elim (Bool-cases (s.wait_started k)) [
    | inl e ↦ rw (begin_wait, e) refl
    | inr e ↦ rw (begin_wait, e) refl
  ]

  finish_tasks-file : (l k : ℕ) (s : System p) → file l (finish_tasks p k s) ≡ file l s
  unfolding finish_tasks
  finish_tasks-file l k s = elim (Bool-cases (s.wait_started k && s.log_tasks k == 0)) [
    | inl e ↦ rw (finish_tasks, e) refl
    | inr e ↦ rw (finish_tasks, e) refl
  ]

  end_wait-file : (l k : ℕ) (s : System p) → file l (end_wait p k s) ≡ file l s
  unfolding end_wait
  end_wait-file l k s = elim (Bool-cases (s.wait_returned k)) [
    | inl e ↦ rw (end_wait, e) refl
    | inr e ↦ rw (end_wait, e) refl
  ]

  close-file :
      (l k : ℕ) (s : System p)
      → file l (close p k s).0
        ≡ after (if l == k then Change.closing else Change.nothing) (file l s)
  unfolding close
  close-file l k s = elim (Bool-cases (l == k)) [
    | inl own ↦
        let same : k ≡ l = sym ((==_iff l k).0 own) in
        elim (Bool-cases (s.zlog l)) [
          | inl e ↦ let there = ap s.zlog same ∙ e in rw (close, there, own, e, same) refl
          | inr e ↦ let there = ap s.zlog same ∙ e in rw (close, there, own, e) refl
        ]
    | inr else_ ↦ elim (Bool-cases (s.zlog k)) [
      | inl e ↦ rw (close, e, else_) refl
      | inr e ↦ rw (close, e, else_) refl
    ]
  ]

  close_evicted-file :
      (l k : ℕ) (s : System p)
      → file l (close_evicted p k s)
        ≡ after (if l == k then Change.evicting else Change.nothing) (file l s)
  unfolding close_evicted
  close_evicted-file l k s = elim (Bool-cases (l == k)) [
    | inl own ↦
        let same : k ≡ l = sym ((==_iff l k).0 own) in
        elim (Bool-cases (s.zlog l)) [
          | inl e ↦ let there = ap s.zlog same ∙ e in rw (close_evicted, there, own, e, same) refl
          | inr e ↦ let there = ap s.zlog same ∙ e in rw (close_evicted, there, own, e) refl
        ]
    | inr else_ ↦ elim (Bool-cases (s.zlog k)) [
      | inl e ↦ rw (close_evicted, e, else_) refl
      | inr e ↦ rw (close_evicted, e, else_) refl
    ]
  ]

  set_encryption_key-file :
      (l k : ℕ) (key : List ℕ) (s : System p) → file l (set_encryption_key p k key s).0 ≡ file l s
  unfolding set_encryption_key
  set_encryption_key-file l k key s = elim (Option-cases (new_encrypt_key p key)) [
    | inl e ↦ rw (set_encryption_key, e) refl
    | inr (x, e) ↦ rw (set_encryption_key, e) refl
  ]

  set_global_encryption-file :
      (l : ℕ) (key : List ℕ) (s : System p) → file l (set_global_encryption p key s).0 ≡ file l s
  unfolding set_global_encryption
  set_global_encryption-file l key s = elim (Option-cases (new_encrypt_key p key)) [
    | inl e ↦ rw (set_global_encryption, e) refl
    | inr (x, e) ↦ rw (set_global_encryption, e) refl
  ]

  -- Each logger's file goes its own way, whatever the others do: after any step of the system it is
  -- what the step makes of it alone. If the goroutine writes a message of this logger while the file
  -- is not open, it is opened, or fails to be; while `zlog` is set, `Close` of this logger closes the
  -- file and clears `zlog`, and its eviction closes the file and keeps `zlog`; and no other step
  -- changes it.
  pub file-step :
      (l : ℕ) (e : Event p) (s : System p)
      → file l (step p e s) ≡ after (change l e (is_for l s.in_hand)) (file l s)
  unfolding write_source_path write_date_time set_also_to_stdout set_all_to_stdout
  file-step l (Event.enters c) s = enter-file l c s
  file-step l (Event.adds i) s = add_task-file l i s
  file-step l (Event.sends i) s = send-file l i s
  file-step l Event.receives s = receive-file l s
  file-step l (Event.writes opens random) s = write-file l opens random s
  file-step l (Event.begins_wait k) s = begin_wait-file l k s
  file-step l (Event.finishes_tasks k) s = finish_tasks-file l k s
  file-step l (Event.ends_wait k) s = end_wait-file l k s
  file-step l (Event.closes k) s = close-file l k s
  file-step l (Event.evicts k) s = close_evicted-file l k s
  file-step l (Event.sets_key k key) s = set_encryption_key-file l k key s
  file-step l (Event.sets_global key) s = set_global_encryption-file l key s
  file-step l (Event.sets_source_path k b) s = refl
  file-step l (Event.sets_date_time k b) s = refl
  file-step l (Event.sets_stdout k b) s = refl
  file-step l (Event.sets_all_stdout b) s = refl
