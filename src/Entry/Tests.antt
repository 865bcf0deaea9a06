-- ===== src/Entry/Tests.antt =====
-- Logger 0 is `EmptyLogger`, and neither directory takes the log of a panic.
use zipologger.Base.{
  ℕ, ◌≡◌, ◌↔◌, refl, inl, true, false, Bool, ◌==◌, ◌++◌, List, [], ◌∷◌, none, some,
}
use zipologger.Enc.Toy.{toy}
use zipologger.Logger.{Call, System}
use zipologger.Logger.Run as LoggerRun
use zipologger.Logger.Count.{count}
use zipologger.Panic.{Files}
use zipologger.Panic.Saved.{takes}
use zipologger.Entry.{Place, panic_line, print_text, printf, handle_panic_log, Event, run}
use zipologger.Entry.NoOp.{no_op_lem}
use zipologger.Entry.Handlers.{handle_panic_log_lost, handle_panic_log_told}

abbrev unnamed : ℕ → Bool
unnamed l = l == 0

abbrev no_paths : ℕ → Bool
no_paths l = false

abbrev on : ℕ → Call
on l = record { of = record { logger = l; msg = 65 ∷ [] }; caller = []; now = 100 ∷ [] }

abbrev full : Place
full = record {
  disk = record { mkdir_all = λ d. true; create = λ f. false };
  beside = 1;
  working = 2;
  now = 0;
  at = [];
  stack = [];
}

abbrev empty : Files
empty = λ f. none

abbrev start : System toy
start = LoggerRun.initial toy no_paths

abbrev calls : List (Event toy 0 unnamed)
calls =
    Event.prints (on 0)
    ∷ Event.printlns 1 (on 1)
    ∷ Event.goes_on (LoggerRun.Event.adds 0)
    ∷ Event.handles_panic_log full (some (on 0)) (66 ∷ []) empty
    ∷ []

no_op_lem_example :
    let s = run toy 0 unnamed calls start in
    (s.opened 0 ≡ false)
    × (s.files 0 ≡ [])
    × (count 0 s.tolog_ch ≡ 0)
    × ((c : Call)
        → c.of.logger ≡ 0
        → (print_text toy 0 unnamed c s ≡ (s, c.of.msg))
          × (printf toy 0 unnamed c s ≡ (s, c.of.msg)))
no_op_lem_example =
    no_op_lem toy 0 unnamed 0 (inl refl) no_paths calls (refl, (refl, (refl, (refl, tt))))

handle_panic_log_lost_example :
    handle_panic_log toy 0 unnamed full none (66 ∷ []) empty start
    ≡ handle_panic_log toy 0 unnamed full none (67 ∷ []) empty start
handle_panic_log_lost_example =
    handle_panic_log_lost toy 0 unnamed full (66 ∷ []) (67 ∷ []) empty start refl refl

handle_panic_log_told_example :
    let r = handle_panic_log toy 0 unnamed full (some (on 1)) (66 ∷ []) empty start in
    ((before : List ℕ) × (r.1.1.entering
        ≡ record { logger = 1; msg = before ++ (panic_line (66 ∷ []) ++ 10 ∷ []) } ∷ []))
    × ((r.0 ≡ []) ↔ ((takes full.disk 0 1 ≡ false) × (takes full.disk 0 2 ≡ false)))
handle_panic_log_told_example =
    handle_panic_log_told toy 0 unnamed full (on 1) (66 ∷ []) empty start refl refl
