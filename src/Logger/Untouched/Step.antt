-- ===== src/Logger/Untouched/Step.antt =====
-- Only a call of print on a logger touches it.
use zipologger.Base.{ℕ, ◌≡◌, refl, inl, inr, false, Bool-cases, ◌==◌, ◌&&◌, List, Option-cases}
use zipologger.Enc.{Packages, new_encrypt_key}
use zipologger.Logger.{
  System, update, begin_wait, finish_tasks, end_wait, close, close_evicted, set_encryption_key,
  set_global_encryption, write_source_path, write_date_time, set_also_to_stdout, set_all_to_stdout,
}
use zipologger.Logger.Run.{Event, step}
use zipologger.Logger.Untouched.{
  IsUntouched, begins, kept, enter-IsUntouched, add_task-IsUntouched, send-IsUntouched,
  receive-IsUntouched, write-IsUntouched,
}

module _ (p : Packages) where
  module _ (l : ℕ) (s : System p) (u : IsUntouched p l s) where
    close-IsUntouched : (k : ℕ) → IsUntouched p l (close p k s).0
    unfolding close
    close-IsUntouched k = elim (Bool-cases (s.zlog k)) [
      | inr e ↦ simp (close, e) u
      | inl e ↦
          let zlog : update s.zlog k false l ≡ false = elim (Bool-cases (l == k)) [
            | inl own ↦ rw own refl
            | inr other ↦ rw other u.zlog
          ] in
          rw (close, e)
            (record {
              entering = u.entering;
              sending = u.sending;
              queued = u.queued;
              in_hand = u.in_hand;
              opened = u.opened;
              zlog = zlog;
              files = u.files;
            })
    ]

    close_evicted-IsUntouched : (k : ℕ) → IsUntouched p l (close_evicted p k s)
    unfolding close_evicted
    close_evicted-IsUntouched k = elim (Bool-cases (s.zlog k)) [
      | inl e ↦ rw (close_evicted, e) (kept p u refl refl refl refl refl refl refl)
      | inr e ↦ simp (close_evicted, e) u
    ]

    begin_wait-IsUntouched : (k : ℕ) → IsUntouched p l (begin_wait p k s)
    unfolding begin_wait
    begin_wait-IsUntouched k = elim (Bool-cases (s.wait_started k)) [
      | inl e ↦ simp (begin_wait, e) u
      | inr e ↦ rw (begin_wait, e) (kept p u refl refl refl refl refl refl refl)
    ]

    finish_tasks-IsUntouched : (k : ℕ) → IsUntouched p l (finish_tasks p k s)
    unfolding finish_tasks
    finish_tasks-IsUntouched k = elim (Bool-cases (s.wait_started k && s.log_tasks k == 0)) [
      | inl e ↦ rw (finish_tasks, e) (kept p u refl refl refl refl refl refl refl)
      | inr e ↦ simp (finish_tasks, e) u
    ]

    end_wait-IsUntouched : (k : ℕ) → IsUntouched p l (end_wait p k s)
    unfolding end_wait
    end_wait-IsUntouched k = elim (Bool-cases (s.wait_returned k)) [
      | inl e ↦ rw (end_wait, e) (kept p u refl refl refl refl refl refl refl)
      | inr e ↦ simp (end_wait, e) u
    ]

    set_encryption_key-IsUntouched :
        (k : ℕ) (key : List ℕ) → IsUntouched p l (set_encryption_key p k key s).0
    unfolding set_encryption_key
    set_encryption_key-IsUntouched k key = elim (Option-cases (new_encrypt_key p key)) [
      | inl e ↦ simp (set_encryption_key, e) u
      | inr (x, e) ↦ rw (set_encryption_key, e) (kept p u refl refl refl refl refl refl refl)
    ]

    set_global_encryption-IsUntouched :
        (key : List ℕ) → IsUntouched p l (set_global_encryption p key s).0
    unfolding set_global_encryption
    set_global_encryption-IsUntouched key = elim (Option-cases (new_encrypt_key p key)) [
      | inl e ↦ simp (set_global_encryption, e) u
      | inr (x, e) ↦ rw (set_global_encryption, e) (kept p u refl refl refl refl refl refl refl)
    ]

    -- Only a call of print on the logger touches it.
    pub step-IsUntouched : (e : Event p) → begins p l e ≡ false → IsUntouched p l (step p e s)
    unfolding write_source_path write_date_time set_also_to_stdout set_all_to_stdout
    step-IsUntouched (Event.enters c) h = enter-IsUntouched p l s u c h
    step-IsUntouched (Event.adds i) h = add_task-IsUntouched p l s u i
    step-IsUntouched (Event.sends i) h = send-IsUntouched p l s u i
    step-IsUntouched Event.receives h = receive-IsUntouched p l s u
    step-IsUntouched (Event.writes opens random) h = write-IsUntouched p l s u opens random
    step-IsUntouched (Event.begins_wait k) h = begin_wait-IsUntouched k
    step-IsUntouched (Event.finishes_tasks k) h = finish_tasks-IsUntouched k
    step-IsUntouched (Event.ends_wait k) h = end_wait-IsUntouched k
    step-IsUntouched (Event.closes k) h = close-IsUntouched k
    step-IsUntouched (Event.evicts k) h = close_evicted-IsUntouched k
    step-IsUntouched (Event.sets_key k key) h = set_encryption_key-IsUntouched k key
    step-IsUntouched (Event.sets_global key) h = set_global_encryption-IsUntouched key
    step-IsUntouched (Event.sets_source_path k b) h = kept p u refl refl refl refl refl refl refl
    step-IsUntouched (Event.sets_date_time k b) h = kept p u refl refl refl refl refl refl refl
    step-IsUntouched (Event.sets_stdout k b) h = kept p u refl refl refl refl refl refl refl
    step-IsUntouched (Event.sets_all_stdout b) h = kept p u refl refl refl refl refl refl refl
