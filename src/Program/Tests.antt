-- ===== src/Program/Tests.antt =====
-- A program with a cache that forgets nothing.
use mathlib.Core.List.{Memᴰ}
use zipologger.Base.{
  ℕ, ◌≡◌, refl, ◌++◌, Bool-cases, inl, inr, ◌==◌, ==_iff, if◌then◌else◌, List, [], ◌∷◌, Option,
  none, some, true, false, Bool,
}
use zipologger.Enc.Toy.{toy}
use zipologger.Logger.{enter, add_task, send, receive, write, begin_wait, finish_tasks, end_wait}
use zipologger.Logger.Line.{line}
use zipologger.Logger.Run as LoggerRun
use zipologger.Logger.Count.{count}
use zipologger.Logger.Ledger.{Lines}
use zipologger.Logger.Moves.{texts_of, ahead, accepted}
use zipologger.Registry as Registry
use zipologger.Registry.{Names, IsNames, look, lock, look_again, create}
use zipologger.Program.{
  Progress, Program, Event, start_wait, look_up, begin, finish, go_on, run, initial, trace,
}
use zipologger.Program.Waited.{wait_lem}
use zipologger.Program.Returns.{AllInCall, wait_returns}

abbrev find : ℕ → List (ℕ × ℕ) → Option ℕ
find n [] = none
find n ((m, l) ∷ rest) = let later = find n rest in if n == m then some l else later

abbrev names_of : List (ℕ × ℕ) → List ℕ
names_of [] = []
names_of ((m, l) ∷ rest) = m ∷ names_of rest

abbrev growing : Names
growing = record {
  State = List (ℕ × ℕ);
  get = λ n s. (find n s, s);
  add = λ n l s. ((n, l) ∷ s, none);
}

nothing_evicted : (e k : ℕ) (x : Option (ℕ × ℕ)) → x ≡ none → x ≡ some (e, k) → ⊥
nothing_evicted e k x g h = cc

abbrev growing-IsNames : IsNames growing
growing-IsNames = record {
  read = λ s n. find n s;
  get-read = λ n s. refl;
  read-get = λ n m s. refl;
  read-add_own = λ n l s. rw ((==_iff n n).1 refl) refl;
  read-add_kept = λ n l m s h d. rw d refl;
  read-add_other = λ n l m e k s h d g. rw d refl;
  read-add_evicted = λ n l e k s h. absurd (nothing_evicted e k none refl h);
  add_fits = λ n l s h b. refl;
}

growing_complete : (c : List (ℕ × ℕ)) (n l : ℕ) → find n c ≡ some l → Memᴰ n (names_of c)
growing_complete [] n l h = cc
growing_complete ((m, k) ∷ rest) n l h = elim (Bool-cases (n == m)) [
  | inl e ↦ Memᴰ.head ((==_iff n m).0 e)
  | inr e ↦ let h = rw e at h in Memᴰ.tail (growing_complete rest n l h)
]

-- A caller gets the logger of the name 7, and prints "A" on it.
abbrev printed : List (Event toy growing names_of)
printed =
    Event.registers (Registry.Event.calls 1 7)
    ∷ Event.registers (Registry.Event.goes_on 1)
    ∷ Event.registers (Registry.Event.goes_on 1)
    ∷ Event.registers (Registry.Event.goes_on 1)
    ∷ Event.logs (
        LoggerRun.Event.enters
          (record { of = record { logger = 0; msg = 65 ∷ [] }; caller = []; now = [] }))
    ∷ Event.logs (LoggerRun.Event.adds 0)
    ∷ Event.logs (LoggerRun.Event.sends 0)
    ∷ []

-- `Wait` up to its return.
abbrev waited : List (Event toy growing names_of)
waited =
    Event.goes_on
    ∷ Event.goes_on
    ∷ Event.goes_on
    ∷ Event.logs LoggerRun.Event.receives
    ∷ Event.logs (LoggerRun.Event.writes true 1)
    ∷ Event.goes_on
    ∷ Event.goes_on
    ∷ Event.goes_on
    ∷ []

abbrev no_paths : ℕ → Bool
no_paths l = false

abbrev begun : Program toy growing names_of
begun = initial toy growing names_of no_paths []

abbrev before : Program toy growing names_of
before = run toy growing names_of printed begun

abbrev after : Program toy growing names_of
after = run toy growing names_of (printed ++ Event.calls_wait ∷ waited) begun

cached : find 7 before.registry.initialized_loggers ≡ some 0
unfolding look lock look_again create enter add_task send
cached = refl

silent : before.loggers.entering ≡ []
unfolding enter add_task send look lock look_again create
silent = refl

idle : (k : ℕ) → before.loggers.wait_started k ≡ false
unfolding enter add_task send look lock look_again create
idle k = refl

back : after.wait ≡ Progress.outside
unfolding look lock look_again create enter add_task send receive write begin_wait finish_tasks
    end_wait line start_wait look_up begin finish go_on
back = refl

wait_lem_example :
    (count 0 after.loggers.sending ≡ 0)
    × (texts_of 0 (ahead after.loggers.in_hand after.loggers.tolog_ch) ≡ [])
    × Lines toy
        (accepted toy 0
          (trace toy growing names_of (printed ++ Event.calls_wait ∷ waited) begun)
          begun.loggers)
        (after.loggers.files 0)
wait_lem_example =
    wait_lem toy growing growing-IsNames names_of growing_complete no_paths [] printed waited 7 0
      refl silent idle (refl, (refl, (refl, (refl, (refl, (refl, (refl, (refl, tt)))))))) cached
      back

wait_returns_example :
    let s = run toy growing names_of (printed ++ Event.calls_wait ∷ []) begun in
    (fs : List (Event toy growing names_of)) × AllInCall toy growing names_of fs
    × ((run toy growing names_of fs s).wait ≡ Progress.outside)
wait_returns_example =
    wait_returns toy growing names_of no_paths [] (printed ++ Event.calls_wait ∷ []) 1
