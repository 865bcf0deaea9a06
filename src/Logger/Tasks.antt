-- ===== src/Logger/Tasks.antt =====
-- The tasks of a logger count its messages under way, so that a `Wait` ends with none of them left.
use zipologger.Base.{ℕ, ◌≡◌, refl, sym, ap, arith}
use zipologger.Base.{
  Bool, true, false, Bool-cases, inl, inr, ◌==◌, ==_iff, and_true, ◌&&◌, ◌∙◌, false≢true,
}
use zipologger.Base.{List, [], ◌∷◌}
use zipologger.Enc.{Packages}
use zipologger.Logger.{
  Call, System, prefixed, update, enter, begin_wait, finish_tasks, end_wait, write_source_path,
  write_date_time, set_also_to_stdout, set_all_to_stdout,
}
use zipologger.Logger.Run.{Event, step, run, initial}
use zipologger.Logger.Count.{count, held}
use zipologger.Logger.Counted.{
  close-IsCounted, close_evicted-IsCounted, IsCounted, add_task-IsCounted, send-IsCounted,
  receive-IsCounted, write-IsCounted, settings-IsCounted, set_encryption_key-IsCounted,
  set_global_encryption-IsCounted,
}

module _ (p : Packages) where
  begin_wait-IsCounted : (l : ℕ) (s : System p) → IsCounted p s → IsCounted p (begin_wait p l s)
  unfolding begin_wait
  begin_wait-IsCounted l s v = elim (Bool-cases (s.wait_started l)) [
    | inl e ↦ rw (begin_wait, e) v
    | inr e ↦
        rw (begin_wait, e)
          (record {
            tasks = v.tasks;
            bounded = v.bounded;
            started = λ k h. raised_flag k h;
            told_once = v.told_once;
          })
  ]
    where
      raised_flag : (k : ℕ) → s.wait_returned k ≡ true → update s.wait_started l true k ≡ true
      raised_flag k h = elim (Bool-cases (k == l)) [
        | inl e ↦ rw e refl
        | inr e ↦ rw e (v.started k h)
      ]

  finish_tasks-IsCounted : (l : ℕ) (s : System p) → IsCounted p s → IsCounted p (finish_tasks p l s)
  unfolding finish_tasks
  finish_tasks-IsCounted l s v = elim (Bool-cases (s.wait_started l && s.log_tasks l == 0)) [
    | inr e ↦ rw (finish_tasks, e) v
    | inl e ↦
        rw (finish_tasks, e)
          (record {
            tasks = v.tasks;
            bounded = v.bounded;
            started = λ k h. still (and_true (s.wait_started l) (s.log_tasks l == 0) e).0 k h;
            told_once = v.told_once;
          })
  ]
    where
      still :
          s.wait_started l ≡ true
          → (k : ℕ) → update s.wait_returned l true k ≡ true
          → s.wait_started k ≡ true
      still w k h = elim (Bool-cases (k == l)) [
        | inl e ↦ ap s.wait_started ((==_iff k l).0 e) ∙ w
        | inr e ↦ let h = rw e at h in v.started k h
      ]

  end_wait-IsCounted : (l : ℕ) (s : System p) → IsCounted p s → IsCounted p (end_wait p l s)
  unfolding end_wait
  end_wait-IsCounted l s v = elim (Bool-cases (s.wait_returned l)) [
    | inr e ↦ rw (end_wait, e) v
    | inl e ↦
        rw (end_wait, e)
          (record {
            tasks = v.tasks;
            bounded = v.bounded;
            started = λ k h. others k h;
            told_once = v.told_once;
          })
  ]
    where
      others :
          (k : ℕ) → update s.wait_returned l false k ≡ true → update s.wait_started l false k ≡ true
      others k h = elim (Bool-cases (k == l)) [
        | inl e ↦ rw e (let h = rw e at h in h)
        | inr e ↦ rw e (let h = rw e at h in v.started k h)
      ]

  enter-IsCounted : (c : Call) (s : System p) → IsCounted p s → IsCounted p (enter p c s)
  unfolding enter
  enter-IsCounted c s v = elim (Bool-cases (s.wait_started c.of.logger)) [
    | inl e ↦ rw (enter, e) v
    | inr e ↦
        rw (enter, e)
          (settings-IsCounted p s (prefixed p s c ∷ s.entering) s.encryption_key s.global_key
            s.log_source_path s.log_date_time s.to_stdout s.also_to_stdout v)
  ]

  -- Every step keeps the count.
  step-IsCounted : (e : Event p) (s : System p) → IsCounted p s → IsCounted p (step p e s)
  unfolding write_source_path write_date_time set_also_to_stdout set_all_to_stdout
  step-IsCounted (Event.enters c) s v = enter-IsCounted c s v
  step-IsCounted (Event.adds i) s v = add_task-IsCounted p i s v
  step-IsCounted (Event.sends i) s v = send-IsCounted p i s v
  step-IsCounted Event.receives s v = receive-IsCounted p s v
  step-IsCounted (Event.writes opens random) s v = write-IsCounted p opens random s v
  step-IsCounted (Event.begins_wait l) s v = begin_wait-IsCounted l s v
  step-IsCounted (Event.finishes_tasks l) s v = finish_tasks-IsCounted l s v
  step-IsCounted (Event.ends_wait l) s v = end_wait-IsCounted l s v
  step-IsCounted (Event.closes l) s v = close-IsCounted p l s v
  step-IsCounted (Event.evicts l) s v = close_evicted-IsCounted p l s v
  step-IsCounted (Event.sets_key l key) s v = set_encryption_key-IsCounted p l key s v
  step-IsCounted (Event.sets_global key) s v = set_global_encryption-IsCounted p key s v
  step-IsCounted (Event.sets_source_path l b) s v =
      settings-IsCounted p s s.entering s.encryption_key s.global_key (update s.log_source_path l b)
        s.log_date_time s.to_stdout s.also_to_stdout v
  step-IsCounted (Event.sets_date_time l b) s v =
      settings-IsCounted p s s.entering s.encryption_key s.global_key s.log_source_path
        (update s.log_date_time l b) s.to_stdout s.also_to_stdout v
  step-IsCounted (Event.sets_stdout l b) s v =
      settings-IsCounted p s s.entering s.encryption_key s.global_key s.log_source_path
        s.log_date_time (update s.to_stdout l b) s.also_to_stdout v
  step-IsCounted (Event.sets_all_stdout b) s v =
      settings-IsCounted p s s.entering s.encryption_key s.global_key s.log_source_path
        s.log_date_time s.to_stdout b v

  run-IsCounted_from :
      (es : List (Event p)) (s : System p) → IsCounted p s → IsCounted p (run p es s)
  run-IsCounted_from [] s v = v
  run-IsCounted_from (e ∷ es) s v = run-IsCounted_from es (step p e s) (step-IsCounted e s v)

  -- However the steps interleave, the tasks of each logger are its messages that are being sent, in
  -- the channel, or in the hand of the goroutine, the channel keeps to its capacity, a wait has
  -- only returned from its tasks if it has started, and dropped messages are told at most once.
  pub run-IsCounted :
      (paths : ℕ → Bool) (es : List (Event p)) → IsCounted p (run p es (initial p paths))
  run-IsCounted paths es = run-IsCounted_from es (initial p paths) (record {
    tasks = λ l. refl;
    bounded = omega arith;
    started = λ l h. absurd (false≢true h);
    told_once = refl;
  })

  -- When `logTasks.Wait` returns in a call of `Wait` of logger `l`, after any interleaving of
  -- steps, no message of `l` is being sent, left in the channel, or in the hand of the goroutine.
  pub end_wait_lem :
      (paths : ℕ → Bool) (es : List (Event p)) (l : ℕ)
      → let s = run p es (initial p paths) in
        (finish_tasks p l s).wait_returned l ≡ true
        → s.wait_returned l ≡ false
        → (count l s.sending ≡ 0) × (count l s.tolog_ch ≡ 0) × (held l s.in_hand ≡ 0)
  unfolding finish_tasks
  end_wait_lem paths es l h k =
      let s = run p es (initial p paths) in
      let v = (run-IsCounted paths es).tasks l in
      elim (Bool-cases (s.wait_started l && s.log_tasks l == 0)) [
        | inl e ↦
            let z =
              (==_iff (s.log_tasks l) 0).0 (and_true (s.wait_started l) (s.log_tasks l == 0) e).1 in
            (omega arith, omega arith, omega arith)
        | inr e ↦ let h = rw (finish_tasks, e) at h in absurd (false≢true (sym k ∙ h))
      ]
