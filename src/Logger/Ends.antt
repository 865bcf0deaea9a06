-- ===== src/Logger/Ends.antt =====
-- A `Wait` is never stuck: from every state the calls of print under way and the goroutine can go on
-- until it returns.
use zipologger.Base.{
  ℕ, zero, suc, All, ◌≡◌, refl, ap, subst, ◌∙◌, arith, inl, inr, true, false, Bool, Bool-cases, ltb,
  ◌==◌, ==_iff, List, [], List-cases, ◌∷◌, ◌++◌, length, replicate, length-replicate, Option-cases,
  none,
}
use zipologger.Enc.{Packages}
use zipologger.Logger.{Message, System, capacity, take_out, send, receive, write, finish_tasks}
use zipologger.Logger.Run.{Event, step, run, initial}
use zipologger.Logger.Count.{count, held}
use zipologger.Logger.Counted.{IsCounted}
use zipologger.Logger.Tasks.{run-IsCounted}
use zipologger.Logger.Drain.{rounds, drain_lem}

module _ (p : Packages) where
  -- The steps of calls of print that have added their task, and of the goroutine.
  abbrev pub goes_on : Event p → Bool
  goes_on (Event.sends i) = true
  goes_on Event.receives = true
  goes_on (Event.writes opens random) = true
  goes_on e = false

  abbrev pub AllGoOn : List (Event p) → Type 0
  AllGoOn = All (λ e. goes_on e ≡ true)

  append-AllGoOn : (es fs : List (Event p)) → AllGoOn es → AllGoOn fs → AllGoOn (es ++ fs)
  append-AllGoOn [] fs h g = g
  append-AllGoOn (e ∷ es) fs h g = (h.0, append-AllGoOn es fs h.1 g)

  sends-AllGoOn : (n : ℕ) → AllGoOn (replicate n (Event.sends 0))
  sends-AllGoOn zero = tt
  sends-AllGoOn (suc n) = (refl, sends-AllGoOn n)

  rounds-AllGoOn : (rs : List p.Random) → AllGoOn (rounds p rs)
  rounds-AllGoOn [] = tt
  rounds-AllGoOn (r ∷ rs) = (refl, (refl, rounds-AllGoOn rs))

  pub run-append :
      (es fs : List (Event p)) (s : System p) → run p (es ++ fs) s ≡ run p fs (run p es s)
  run-append [] fs s = refl
  run-append (e ∷ es) fs s = run-append es fs (step p e s)

  send-wait_started : (i : ℕ) (s : System p) → (send p i s).wait_started ≡ s.wait_started
  unfolding send
  send-wait_started i s = elim (Option-cases (take_out i s.sending)) [
    | inl e ↦ simp (send, e) refl
    | inr (x, e) ↦ elim (Bool-cases (ltb (length s.tolog_ch) capacity)) [
      | inl room ↦ simp (send, e, room) refl
      | inr full ↦ simp (send, e, full) refl
    ]
  ]

  send-sending :
      (s : System p) (m : Message) (ms : List Message)
      → s.sending ≡ m ∷ ms
      → (send p 0 s).sending ≡ ms
  unfolding send
  send-sending s m ms e = elim (Bool-cases (ltb (length s.tolog_ch) capacity)) [
    | inl room ↦ rw (send, e, room) refl
    | inr full ↦ rw (send, e, full) refl
  ]

  -- The calls under way send their messages, or drop them.
  sends_lem :
      (ms : List Message) (s : System p)
      → s.sending ≡ ms
      → let t = run p (replicate (length ms) (Event.sends 0)) s in
        (t.sending ≡ []) × (t.wait_started ≡ s.wait_started)
  sends_lem [] s e = (e, refl)
  sends_lem (m ∷ ms) s e =
      let there = sends_lem ms (send p 0 s) (send-sending s m ms e) in
      (there.0, there.1 ∙ send-wait_started 0 s)

  receive_keeps :
      (s : System p)
      → ((receive p s).sending ≡ s.sending) × ((receive p s).wait_started ≡ s.wait_started)
  unfolding receive
  receive_keeps s = elim (Option-cases s.in_hand) [
    | inr (m, e) ↦ (simp (receive, e) refl, simp (receive, e) refl)
    | inl e ↦ elim (List-cases s.tolog_ch) [
      | inl f ↦ (simp (receive, e, f) refl, simp (receive, e, f) refl)
      | inr (m, rest, f) ↦ (simp (receive, e, f) refl, simp (receive, e, f) refl)
    ]
  ]

  write_keeps :
      (r : p.Random) (s : System p)
      → let t = write p true r s in
        (t.sending ≡ s.sending) × (t.wait_started ≡ s.wait_started) × (t.in_hand ≡ none)
  unfolding write
  write_keeps r s = elim (Option-cases s.in_hand) [
    | inl e ↦ (simp (write, e) refl, simp (write, e) refl, simp (write, e) refl)
    | inr (m, e) ↦ (simp (write, e) refl, simp (write, e) refl, simp (write, e) refl)
  ]

  rounds_keep :
      (rs : List p.Random) (s : System p)
      → let t = run p (rounds p rs) s in (t.sending ≡ s.sending) × (t.wait_started ≡ s.wait_started)
  rounds_keep [] s = (refl, refl)
  rounds_keep (r ∷ rs) s =
      let taken = receive_keeps s in
      let written = write_keeps r (receive p s) in
      let there = rounds_keep rs (write p true r (receive p s)) in
      (there.0 ∙ written.0 ∙ taken.0, there.1 ∙ written.1 ∙ taken.1)

  -- The steps after which nothing is under way.
  pub way_out :
      (r : p.Random) (s : System p)
      → (es : List (Event p)) × AllGoOn es
        × (let t = run p es s in
            (t.sending ≡ [])
            × (t.tolog_ch ≡ [])
            × (t.in_hand ≡ none)
            × (t.wait_started ≡ s.wait_started))
  way_out r s =
      let sends = replicate (length s.sending) (Event.sends 0) in
      let a = run p sends s in
      let b = write p true r a in
      let rs = replicate (length b.tolog_ch) r in
      let sent = sends_lem s.sending s refl in
      let written = write_keeps r a in
      let drained =
        drain_lem p b.tolog_ch rs b (length-replicate (length b.tolog_ch) r) written.2 refl in
      let kept = rounds_keep rs b in
      let es = sends ++ Event.writes true r ∷ rounds p rs in
      let same : run p es s ≡ run p (rounds p rs) b =
        run-append sends (Event.writes true r ∷ rounds p rs) s in
      (
        es,
        append-AllGoOn sends (Event.writes true r ∷ rounds p rs) (sends-AllGoOn (length s.sending))
            (refl, rounds-AllGoOn rs),
        (
          ap (λ (t : System p). t.sending) same ∙ kept.0 ∙ written.0 ∙ sent.0,
          ap (λ (t : System p). t.tolog_ch) same ∙ drained.0,
          ap (λ (t : System p). t.in_hand) same ∙ drained.1,
          ap (λ (t : System p). t.wait_started) same ∙ kept.1 ∙ written.1 ∙ sent.1,
        ),
      )

  -- After any interleaving of steps in which a `Wait` of logger `l` has started, the sends of the
  -- calls of print under way and rounds of the goroutine alone can lead to a state in which its
  -- `logTasks.Wait` returns: a wait is never stuck.
  pub finish_tasks_lem :
      (paths : ℕ → Bool) (es : List (Event p)) (l : ℕ) (r : p.Random)
      → let s = run p es (initial p paths) in
        s.wait_started l ≡ true
        → (fs : List (Event p)) × AllGoOn fs
          × ((finish_tasks p l (run p fs s)).wait_returned l ≡ true)
  unfolding finish_tasks
  finish_tasks_lem paths es l r h =
      let s = run p es (initial p paths) in
      let (fs, on, out) = way_out r s in
      let t = run p fs s in
      let v : IsCounted p t =
        subst (IsCounted p) (run-append es fs (initial p paths))
          (run-IsCounted p paths (es ++ fs)) in
      let none_left : t.log_tasks l ≡ 0 =
        omega (arith, v.tasks l, ap (count l) out.0, ap (count l) out.1, ap (held l) out.2) in
      let started : t.wait_started l ≡ true = ap (λ (f : ℕ → Bool). f l) out.3 ∙ h in
      let zero : (t.log_tasks l == 0) ≡ true = (==_iff (t.log_tasks l) 0).1 none_left in
      let same : (l == l) ≡ true = (==_iff l l).1 refl in
      (fs, on, rw (finish_tasks, started, zero, same) refl)
