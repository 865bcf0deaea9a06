-- ===== src/Program/Waited.antt =====
-- What holds when `Wait` has returned.
use mathlib.Core.List.{Memᴰ}
use zipologger.Base.{
  ℕ, ◌≡◌, refl, sym, ap, ◌∙◌, arith, subst, Bool, false, false≢true, Bool-cases, inl, inr, ◌==◌,
  List, [], ◌∷◌, ◌++◌, append-nil, Option, none, some,
}
use zipologger.Enc.{Packages}
use zipologger.Logger.{Message}
use zipologger.Logger.Count.{count, held}
use zipologger.Logger.Counted.{IsCounted}
use zipologger.Logger.Tasks.{run-IsCounted}
use zipologger.Logger.Ledger.{Ledger, IsFifo, Lines}
use zipologger.Logger.Moves.{ledger, texts_of, ahead, accepted}
use zipologger.Logger.Refine.{run-IsFifo}
use zipologger.Registry.{Names, IsNames}
use zipologger.Program.{Progress, Program, Event, start_wait, go_on, step, run, initial, trace}
use zipologger.Program.Trace.{AllCalm, run-append, run-loggers}
use zipologger.Program.Waiting.{IsLeft, IsWaiting, logs-IsWaiting, go_on-IsWaiting}

-- No messages of a logger are pending if none is in the channel and none in hand.
nothing_pending : (l : ℕ) (ms : List Message) → count l ms ≡ 0 → texts_of l ms ≡ []
nothing_pending l [] h = refl
nothing_pending l (m ∷ ms) h = elim (Bool-cases (l == m.logger)) [
  | inl e ↦ let h = rw e at h in absurd (omega arith)
  | inr e ↦ let h = rw e at h in rw e (nothing_pending l ms (omega arith))
]

ahead-pending :
    (l : ℕ) (h : Option Message) (ms : List Message)
    → count l ms ≡ 0
    → held l h ≡ 0
    → texts_of l (ahead h ms) ≡ []
ahead-pending l none ms c e = nothing_pending l ms c
ahead-pending l (some m) ms c e = nothing_pending l (m ∷ ms) (omega arith)

module _ (p : Packages) (cache : Names) (v : IsNames cache) (keys : cache.State → List ℕ) where
  run-IsWaiting :
      (found : ℕ → Option ℕ) (es : List (Event p cache keys)) (s : Program p cache keys)
      → AllCalm p cache keys es
      → IsWaiting p cache v keys found s.wait s
      → let t = run p cache keys es s in IsWaiting p cache v keys found t.wait t
  run-IsWaiting found [] s q w = w
  run-IsWaiting found (Event.logs e ∷ es) s q w =
      run-IsWaiting found es (step p cache keys (Event.logs e) s) q.1
        (logs-IsWaiting p cache v keys found s e q.0 w)
  run-IsWaiting found (Event.registers e ∷ es) s q w = absurd (false≢true q.0)
  run-IsWaiting found (Event.calls_wait ∷ es) s q w = absurd (false≢true q.0)
  run-IsWaiting found (Event.goes_on ∷ es) s q w =
      run-IsWaiting found es (go_on p cache keys s.wait s) q.1
        (go_on-IsWaiting p cache v keys found s s.wait refl w)

  start_wait-IsWaiting :
      ((c : cache.State) (n l : ℕ) → v.read c n ≡ some l → Memᴰ n (keys c))
      → (s : Program p cache keys) → s.wait ≡ Progress.outside
      → s.loggers.entering ≡ []
      → ((k : ℕ) → s.loggers.wait_started k ≡ false)
      → let t = start_wait p cache keys s.wait s in
        IsWaiting p cache v keys (v.read s.registry.initialized_loggers) t.wait t
  unfolding start_wait
  start_wait-IsWaiting complete s at silent idle =
      subst
        (λ c.
          let t = start_wait p cache keys c s in
          IsWaiting p cache v keys (v.read s.registry.initialized_loggers) t.wait t)
        (sym at)
        (record {
          silent = silent;
          reads = λ m. refl;
          alone = idle;
          handled = λ n l h. inr (complete s.registry.initialized_loggers n l h);
        })

  -- What is left of a ledger with nothing pending.
  fifo_lem :
      (a b : Ledger) (new : List (List ℕ))
      → IsFifo p a b new
      → a.pending ≡ []
      → a.written ≡ []
      → b.pending ≡ []
      → Lines p new b.written
  fifo_lem a b new f x y z =
      let handled : new ≡ f.handled =
        ap (λ (q : List (List ℕ)). q ++ new) (sym x)
        ∙ f.queue
        ∙ ap (λ (q : List (List ℕ)). f.handled ++ q) z
        ∙ append-nil f.handled in
      let texts : b.written ≡ f.texts = f.file ∙ ap (λ (q : List (List ℕ)). q ++ f.texts) y in
      subst (λ q. Lines p q b.written) (sym handled)
        (subst (λ q. Lines p f.handled q) (sym texts) f.lines)

  -- The cache gives all its keys. From the start of a program with an empty or any other cache, after
  -- any interleaving of steps, let `Wait` be called while no call of print is before its task and no
  -- `Wait` of a logger is under way, and let no such call begin until it returns, nor one of
  -- `NewLogger` take a step. Then, whatever the goroutine and the calls of print under way did
  -- meanwhile, every logger that was in the cache has no message that is being sent or pending, and
  -- its file has the lines of the messages that the channel accepted for it, in their order, at most
  -- one for each.
  pub wait_lem :
      ((c : cache.State) (n l : ℕ) → v.read c n ≡ some l → Memᴰ n (keys c))
      → (paths : ℕ → Bool) (names : cache.State) (es fs : List (Event p cache keys)) (n l : ℕ)
      → let start = initial p cache keys paths names in
        let s = run p cache keys es start in
        let all = es ++ Event.calls_wait ∷ fs in
        let t = run p cache keys all start in
        s.wait ≡ Progress.outside
        → s.loggers.entering ≡ []
        → ((k : ℕ) → s.loggers.wait_started k ≡ false)
        → AllCalm p cache keys fs
        → v.read s.registry.initialized_loggers n ≡ some l
        → t.wait ≡ Progress.outside
        → (count l t.loggers.sending ≡ 0)
          × (texts_of l (ahead t.loggers.in_hand t.loggers.tolog_ch) ≡ [])
          × Lines p (accepted p l (trace p cache keys all start) start.loggers) (t.loggers.files l)
  wait_lem complete paths names es fs n l at silent idle calm there back =
      let start = initial p cache keys paths names in
      let s = run p cache keys es start in
      let all = es ++ Event.calls_wait ∷ fs in
      let t = run p cache keys all start in
      let steps = trace p cache keys all start in
      let found = v.read s.registry.initialized_loggers in
      let same = run-loggers p cache keys all start in
      let w : IsWaiting p cache v keys found t.wait t =
        subst (λ x. IsWaiting p cache v keys found x.wait x)
          (sym (run-append p cache keys es (Event.calls_wait ∷ fs) start))
          (run-IsWaiting found fs (start_wait p cache keys s.wait s) calm
            (start_wait-IsWaiting complete s at silent idle)) in
      let counted = subst (IsCounted p) (sym same) (run-IsCounted p paths steps) in
      let tasks = counted.tasks l in
      let no_task : t.loggers.log_tasks l ≡ 0 = elim (w.handled n l there) [
        | inl z ↦ z
        | inr left ↦ absurd (subst (λ c. IsLeft c n l) back left)
      ] in
      let empty =
        ahead-pending l t.loggers.in_hand t.loggers.tolog_ch (omega arith) (omega arith) in
      (
        omega arith,
        empty,
        fifo_lem (ledger p l start.loggers) (ledger p l t.loggers)
            (accepted p l steps start.loggers)
            (subst
              (λ x.
                IsFifo p (ledger p l start.loggers) (ledger p l x)
                  (accepted p l steps start.loggers))
              (sym same) (run-IsFifo p paths l steps))
            refl refl empty,
      )
