-- ===== src/Logger/Stretches.antt =====
-- The three stretches of a `Wait`, which leave the tasks alone.
use zipologger.Base.{ℕ, ◌≡◌, refl, true, false, Bool-cases, inl, inr, ◌==◌, ◌&&◌, ==_iff}
use zipologger.Enc.{Packages}
use zipologger.Logger.{System, update, begin_wait, finish_tasks, end_wait}

module _ (p : Packages) where
  -- The three stretches of a `Wait` that is not under way twice.
  pub begin_wait_lem :
      (l : ℕ) (s : System p)
      → s.wait_started l ≡ false
      → let t = begin_wait p l s in
        (t.entering ≡ s.entering)
        × (t.log_tasks ≡ s.log_tasks)
        × (t.wait_started ≡ update s.wait_started l true)
  unfolding begin_wait
  begin_wait_lem l s e = (rw (begin_wait, e) refl, rw (begin_wait, e) refl, rw (begin_wait, e) refl)

  pub finish_tasks_calm :
      (l : ℕ) (s : System p)
      → s.wait_started l ≡ true
      → (s.log_tasks l == 0) ≡ true
      → let t = finish_tasks p l s in
        (t.entering ≡ s.entering)
        × (t.log_tasks ≡ s.log_tasks)
        × (t.wait_started ≡ s.wait_started)
        × (t.wait_returned l ≡ true)
  unfolding finish_tasks
  finish_tasks_calm l s e z =
      let same : (l == l) ≡ true = (==_iff l l).1 refl in
      (
        rw (finish_tasks, e, z) refl,
        rw (finish_tasks, e, z) refl,
        rw (finish_tasks, e, z) refl,
        rw (finish_tasks, e, z, same) refl,
      )

  pub end_wait_calm :
      (l : ℕ) (s : System p)
      → s.wait_returned l ≡ true
      → let t = end_wait p l s in
        (t.entering ≡ s.entering)
        × (t.log_tasks ≡ s.log_tasks)
        × (t.wait_started ≡ update s.wait_started l false)
  unfolding end_wait
  end_wait_calm l s e = (rw (end_wait, e) refl, rw (end_wait, e) refl, rw (end_wait, e) refl)

  -- A `Wait` that finds another one under way does nothing, nor does one whose tasks are not done.
  pub begin_wait_again : (l : ℕ) (s : System p) → s.wait_started l ≡ true → begin_wait p l s ≡ s
  unfolding begin_wait
  begin_wait_again l s e = simp (begin_wait, e) refl

  pub finish_tasks_later :
      (l : ℕ) (s : System p) → (s.log_tasks l == 0) ≡ false → finish_tasks p l s ≡ s
  unfolding finish_tasks
  finish_tasks_later l s e = elim (Bool-cases (s.wait_started l)) [
    | inl f ↦ simp (finish_tasks, e, f) refl
    | inr f ↦ simp (finish_tasks, e, f) refl
  ]

  -- None of them changes the count of the tasks.
  pub begin_wait-log_tasks :
      (l k : ℕ) (s : System p) → (begin_wait p l s).log_tasks k ≡ s.log_tasks k
  unfolding begin_wait
  begin_wait-log_tasks l k s = elim (Bool-cases (s.wait_started l)) [
    | inl e ↦ rw (begin_wait, e) refl
    | inr e ↦ rw (begin_wait, e) refl
  ]

  pub finish_tasks-log_tasks :
      (l k : ℕ) (s : System p) → (finish_tasks p l s).log_tasks k ≡ s.log_tasks k
  unfolding finish_tasks
  finish_tasks-log_tasks l k s = elim (Bool-cases (s.wait_started l && s.log_tasks l == 0)) [
    | inl e ↦ rw (finish_tasks, e) refl
    | inr e ↦ rw (finish_tasks, e) refl
  ]

  pub end_wait-log_tasks : (l k : ℕ) (s : System p) → (end_wait p l s).log_tasks k ≡ s.log_tasks k
  unfolding end_wait
  end_wait-log_tasks l k s = elim (Bool-cases (s.wait_returned l)) [
    | inl e ↦ rw (end_wait, e) refl
    | inr e ↦ rw (end_wait, e) refl
  ]
