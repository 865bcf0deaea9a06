-- ===== src/Logger/Quiet.antt =====
-- Steps of the loggers in which no call of print or of `Wait` begins: tasks only become fewer.
use zipologger.Base.{
  ℕ, ◌-◌, ◌≤◌, ◌≡◌, refl, ap, arith, inl, inr, true, false, Bool, Bool-cases, ◌==◌, ==_iff,
  false≢true, ltb, length, List, [], List-cases, ◌∷◌, none, Option-cases,
}
use zipologger.Enc.{Packages, new_encrypt_key}
use zipologger.Logger.{
  Message, System, capacity, update, take_out, add_task, send, receive, write, close, close_evicted,
  set_encryption_key, set_global_encryption, write_source_path, write_date_time, set_also_to_stdout,
  set_all_to_stdout,
}
use zipologger.Logger.Run.{Event, step}

fewer : (f : ℕ → ℕ) (k l : ℕ) → update f k (f k - 1) l ≤ f l
fewer f k l = elim (Bool-cases (l == k)) [
  | inl e ↦ let same : l ≡ k = (==_iff l k).0 e in let there = ap f same in rw e (omega arith)
  | inr e ↦ rw e (omega arith)
]

module _ (p : Packages) where
  -- No call begins, nor goes on in its `Wait`.
  abbrev pub is_quiet : Event p → Bool
  is_quiet (Event.enters c) = false
  is_quiet (Event.begins_wait l) = false
  is_quiet (Event.finishes_tasks l) = false
  is_quiet (Event.ends_wait l) = false
  is_quiet e = true

  pub record IsQuiet (s t : System p) : Type 0 where
    pub entering : t.entering ≡ s.entering
    pub started : t.wait_started ≡ s.wait_started
    pub returned : t.wait_returned ≡ s.wait_returned
    pub tasks : (l : ℕ) → t.log_tasks l ≤ s.log_tasks l

  -- A step that leaves the calls and the tasks alone.
  kept :
      {s t : System p}
      → t.entering ≡ s.entering
      → t.wait_started ≡ s.wait_started
      → t.wait_returned ≡ s.wait_returned
      → t.log_tasks ≡ s.log_tasks
      → IsQuiet s t
  kept a b c d = record {
    entering = a;
    started = b;
    returned = c;
    tasks = λ l. omega (arith, ap (λ (f : ℕ → ℕ). f l) d);
  }

  nothing_out : (i : ℕ) (ms : List Message) → ms ≡ [] → take_out i ms ≡ none
  nothing_out i [] e = refl
  nothing_out i (m ∷ ms) e = cc

  add_task-IsQuiet : (i : ℕ) (s : System p) → s.entering ≡ [] → IsQuiet s (add_task p i s)
  unfolding add_task
  add_task-IsQuiet i s h =
      let e = nothing_out i s.entering h in rw (add_task, e) (kept refl refl refl refl)

  send-IsQuiet : (i : ℕ) (s : System p) → IsQuiet s (send p i s)
  unfolding send
  send-IsQuiet i s = elim (Option-cases (take_out i s.sending)) [
    | inl e ↦ rw (send, e) (kept refl refl refl refl)
    | inr (x, e) ↦ elim (Bool-cases (ltb (length s.tolog_ch) capacity)) [
      | inl room ↦ rw (send, e, room) (kept refl refl refl refl)
      | inr full ↦
          rw (send, e, full)
            (record {
              entering = refl;
              started = refl;
              returned = refl;
              tasks = fewer s.log_tasks x.0.logger;
            })
    ]
  ]

  receive-IsQuiet : (s : System p) → IsQuiet s (receive p s)
  unfolding receive
  receive-IsQuiet s = elim (Option-cases s.in_hand) [
    | inr (m, e) ↦ rw (receive, e) (kept refl refl refl refl)
    | inl e ↦ elim (List-cases s.tolog_ch) [
      | inl f ↦ rw (receive, e, f) (kept refl refl refl refl)
      | inr (m, rest, f) ↦ rw (receive, e, f) (kept refl refl refl refl)
    ]
  ]

  write-IsQuiet :
      (opens : Bool) (random : p.Random) (s : System p) → IsQuiet s (write p opens random s)
  unfolding write
  write-IsQuiet opens random s = elim (Option-cases s.in_hand) [
    | inl e ↦ rw (write, e) (kept refl refl refl refl)
    | inr (m, e) ↦
        rw (write, e)
          (record {
            entering = refl;
            started = refl;
            returned = refl;
            tasks = fewer s.log_tasks m.logger;
          })
  ]

  close-IsQuiet : (l : ℕ) (s : System p) → IsQuiet s (close p l s).0
  unfolding close
  close-IsQuiet l s = elim (Bool-cases (s.zlog l)) [
    | inl e ↦ rw (close, e) (kept refl refl refl refl)
    | inr e ↦ rw (close, e) (kept refl refl refl refl)
  ]

  pub close_evicted-IsQuiet : (l : ℕ) (s : System p) → IsQuiet s (close_evicted p l s)
  unfolding close_evicted
  close_evicted-IsQuiet l s = elim (Bool-cases (s.zlog l)) [
    | inl e ↦ rw (close_evicted, e) (kept refl refl refl refl)
    | inr e ↦ rw (close_evicted, e) (kept refl refl refl refl)
  ]

  set_encryption_key-IsQuiet :
      (l : ℕ) (key : List ℕ) (s : System p) → IsQuiet s (set_encryption_key p l key s).0
  unfolding set_encryption_key
  set_encryption_key-IsQuiet l key s = elim (Option-cases (new_encrypt_key p key)) [
    | inl e ↦ rw (set_encryption_key, e) (kept refl refl refl refl)
    | inr (k, e) ↦ rw (set_encryption_key, e) (kept refl refl refl refl)
  ]

  set_global_encryption-IsQuiet :
      (key : List ℕ) (s : System p) → IsQuiet s (set_global_encryption p key s).0
  unfolding set_global_encryption
  set_global_encryption-IsQuiet key s = elim (Option-cases (new_encrypt_key p key)) [
    | inl e ↦ rw (set_global_encryption, e) (kept refl refl refl refl)
    | inr (k, e) ↦ rw (set_global_encryption, e) (kept refl refl refl refl)
  ]

  -- With no call of print before its task, a quiet step starts nothing and adds no task.
  pub step-IsQuiet :
      (e : Event p) (s : System p) → is_quiet e ≡ true → s.entering ≡ [] → IsQuiet s (step p e s)
  unfolding write_source_path write_date_time set_also_to_stdout set_all_to_stdout
  step-IsQuiet (Event.enters c) s q h = absurd (false≢true q)
  step-IsQuiet (Event.adds i) s q h = add_task-IsQuiet i s h
  step-IsQuiet (Event.sends i) s q h = send-IsQuiet i s
  step-IsQuiet Event.receives s q h = receive-IsQuiet s
  step-IsQuiet (Event.writes opens random) s q h = write-IsQuiet opens random s
  step-IsQuiet (Event.begins_wait l) s q h = absurd (false≢true q)
  step-IsQuiet (Event.finishes_tasks l) s q h = absurd (false≢true q)
  step-IsQuiet (Event.ends_wait l) s q h = absurd (false≢true q)
  step-IsQuiet (Event.closes l) s q h = close-IsQuiet l s
  step-IsQuiet (Event.evicts l) s q h = close_evicted-IsQuiet l s
  step-IsQuiet (Event.sets_key l key) s q h = set_encryption_key-IsQuiet l key s
  step-IsQuiet (Event.sets_global key) s q h = set_global_encryption-IsQuiet key s
  step-IsQuiet (Event.sets_source_path l b) s q h = kept refl refl refl refl
  step-IsQuiet (Event.sets_date_time l b) s q h = kept refl refl refl refl
  step-IsQuiet (Event.sets_stdout l b) s q h = kept refl refl refl refl
  step-IsQuiet (Event.sets_all_stdout b) s q h = kept refl refl refl refl
