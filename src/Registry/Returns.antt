-- ===== src/Registry/Returns.antt =====
-- A caller of `NewLogger` is never stuck.
use zipologger.Base.{
  ℕ, ◌<◌, ◌≡◌, refl, sym, ap, ◌∙◌, subst, true, false, Bool, Bool-cases, inl, inr, ◌==◌, ==_iff,
  All, List, [], ◌∷◌, ◌++◌, none, Option-cases,
}
use zipologger.Registry.{
  Names, IsNames, Caller, Registry, Event, update, lock, look_again, create, release, go_on, step,
  run, initial,
}
use zipologger.Registry.Invariant.{IsFine, IsRegistered}
use zipologger.Registry.Runs.{run-IsRegistered}
use zipologger.Registry.Held.{IsHolder, IsHeld, run-IsHeld}

-- The caller is in a call for the name `n`, and has not got its logger.
abbrev pub IsWaitingFor : ℕ → Caller → Type 0
IsWaitingFor n Caller.outside = ⊥
IsWaitingFor n (Caller.locking m) = m ≡ n
IsWaitingFor n (Caller.holding m) = m ≡ n
IsWaitingFor n (Caller.creating m) = m ≡ n
IsWaitingFor n (Caller.evicting m l k) = m ≡ n
IsWaitingFor n (Caller.returned m l) = ⊥

-- The caller that goes on in an event, if it is none that starts a call.
abbrev pub is_step : Event → Bool
is_step (Event.calls i n) = false
is_step (Event.goes_on i) = true

abbrev pub AllSteps : List Event → Type 0
AllSteps = All (λ e. is_step e ≡ true)

append-AllSteps : (es fs : List Event) → AllSteps es → AllSteps fs → AllSteps (es ++ fs)
append-AllSteps [] fs h g = g
append-AllSteps (e ∷ es) fs h g = (h.0, append-AllSteps es fs h.1 g)

module _ (cache : Names) where
  run-append :
      (es fs : List Event) (r : Registry cache)
      → run cache (es ++ fs) r ≡ run cache fs (run cache es r)
  run-append [] fs r = refl
  run-append (e ∷ es) fs r = run-append es fs (step cache e r)

  -- From `r`, caller `i` gets a logger for `n` and releases the mutex, and the others stay.
  record Ends (i n : ℕ) (r : Registry cache) : Type 0 where
    steps : List Event
    only : AllSteps steps
    logger : ℕ
    back : (run cache steps r).callers i ≡ Caller.returned n logger
    free : (run cache steps r).new_logger_mutex ≡ none
    others : (k : ℕ) → (k == i) ≡ false → (run cache steps r).callers k ≡ r.callers k

  -- One step more.
  one_more :
      (i n : ℕ) (c : Caller) (r : Registry cache)
      → r.callers i ≡ c
      → ((k : ℕ) → (k == i) ≡ false → (go_on cache i c r).callers k ≡ r.callers k)
      → Ends i n (go_on cache i c r)
      → Ends i n r
  one_more i n c r e keep f =
      let same : step cache (Event.goes_on i) r ≡ go_on cache i c r =
        ap (λ (x : Caller). go_on cache i x r) e in
      let there = ap (run cache f.steps) same in
      record {
        steps = Event.goes_on i ∷ f.steps;
        only = (refl, f.only);
        logger = f.logger;
        back = ap (λ (x : Registry cache). x.callers i) there ∙ f.back;
        free = ap (λ (x : Registry cache). x.new_logger_mutex) there ∙ f.free;
        others = λ k d. ap (λ (x : Registry cache). x.callers k) there ∙ f.others k d ∙ keep k d;
      }

  -- At the end.
  at_end :
      (i n l : ℕ) (r : Registry cache)
      → r.callers i ≡ Caller.returned n l
      → r.new_logger_mutex ≡ none
      → Ends i n r
  at_end i n l r e f = record {
    steps = [];
    only = tt;
    logger = l;
    back = e;
    free = f;
    others = λ k d. refl;
  }

  placed : (f : ℕ → Caller) (i : ℕ) (c : Caller) → update f i c i ≡ c
  placed f i c = rw ((==_iff i i).1 refl) refl

  moved : (f : ℕ → Caller) (i : ℕ) (c : Caller) (k : ℕ) → (k == i) ≡ false → update f i c k ≡ f k
  moved f i c k d = rw d refl

  evicting-Ends :
      (i n l v : ℕ) (r : Registry cache) → r.callers i ≡ Caller.evicting n l v → Ends i n r
  unfolding release
  evicting-Ends i n l v r e =
      let c = Caller.evicting n l v in
      one_more i n c r e (moved r.callers i (Caller.returned n l))
        (at_end i n l (go_on cache i c r) (placed r.callers i (Caller.returned n l)) refl)

  creating-Ends : (i n : ℕ) (r : Registry cache) → r.callers i ≡ Caller.creating n → Ends i n r
  unfolding create
  creating-Ends i n r e =
      let done = Caller.returned n r.created in
      elim (Option-cases (cache.add n r.created r.initialized_loggers).1) [
        | inl f ↦ one_more i n (Caller.creating n) r e (rw (create, f) (moved r.callers i done)) (
            at_end i n r.created (create cache i n r) (rw (create, f) (placed r.callers i done))
              (rw (create, f) refl))
        | inr (x, f) ↦
            let next = Caller.evicting n r.created x.1 in
            one_more i n (Caller.creating n) r e (rw (create, f) (moved r.callers i next)) (
              evicting-Ends i n r.created x.1 (create cache i n r)
                (rw (create, f) (placed r.callers i next)))
      ]

  holding-Ends : (i n : ℕ) (r : Registry cache) → r.callers i ≡ Caller.holding n → Ends i n r
  unfolding look_again
  holding-Ends i n r e = elim (Option-cases (cache.get n r.initialized_loggers).0) [
    | inr (l, f) ↦
        let done = Caller.returned n l in
        one_more i n (Caller.holding n) r e (rw (look_again, f) (moved r.callers i done)) (
          at_end i n l (look_again cache i n r) (rw (look_again, f) (placed r.callers i done))
            (rw (look_again, f) refl))
    | inl f ↦
        let next = Caller.creating n in
        one_more i n (Caller.holding n) r e (rw (look_again, f) (moved r.callers i next)) (
          creating-Ends i n (look_again cache i n r) (rw (look_again, f) (placed r.callers i next)))
  ]

  -- Whoever holds the mutex can return.
  IsHolder-Ends :
      (j : ℕ) (c : Caller) (r : Registry cache)
      → r.callers j ≡ c
      → IsHolder c
      → (m : ℕ) × Ends j m r
  IsHolder-Ends j Caller.outside r e h = absurd h
  IsHolder-Ends j (Caller.locking n) r e h = absurd h
  IsHolder-Ends j (Caller.holding n) r e h = (n, holding-Ends j n r e)
  IsHolder-Ends j (Caller.creating n) r e h = (n, creating-Ends j n r e)
  IsHolder-Ends j (Caller.evicting n l k) r e h = (n, evicting-Ends j n l k r e)
  IsHolder-Ends j (Caller.returned n l) r e h = absurd h

  free_lock-Ends :
      (i n : ℕ) (r : Registry cache)
      → r.callers i ≡ Caller.locking n
      → r.new_logger_mutex ≡ none
      → Ends i n r
  unfolding lock
  free_lock-Ends i n r e f =
      let next = Caller.holding n in
      one_more i n (Caller.locking n) r e (rw (lock, f) (moved r.callers i next))
        (holding-Ends i n (lock cache i n r) (rw (lock, f) (placed r.callers i next)))

  -- What caller `i` needs to return: steps after which it has its logger.
  abbrev Gets : ℕ → ℕ → Registry cache → Type 0
  Gets i n r =
      (fs : List Event) × (l : ℕ) × AllSteps fs × ((run cache fs r).callers i ≡ Caller.returned n l)

  Ends-Gets : (i n : ℕ) (r : Registry cache) → Ends i n r → Gets i n r
  Ends-Gets i n r f = (f.steps, f.logger, f.only, f.back)

  locking-Gets :
      (i n : ℕ) (r : Registry cache) → IsHeld cache r → r.callers i ≡ Caller.locking n → Gets i n r
  locking-Gets i n r h e = elim (Option-cases r.new_logger_mutex) [
    | inl f ↦ Ends-Gets i n r (free_lock-Ends i n r e f)
    | inr (j, f) ↦
        let (m, first) = IsHolder-Ends j (r.callers j) r refl (h j f) in
        elim (Bool-cases (i == j)) [
          | inl same ↦
              let clash = ap r.callers ((==_iff i j).0 same) in
              absurd (subst IsHolder (sym clash ∙ e) (h j f))
          | inr other ↦
              let t = run cache first.steps r in
              let then = free_lock-Ends i n t (first.others i other ∙ e) first.free in
              (
                first.steps ++ then.steps,
                then.logger,
                append-AllSteps first.steps then.steps first.only then.only,
                ap (λ (x : Registry cache). x.callers i) (run-append first.steps then.steps r)
                    ∙ then.back,
              )
        ]
  ]

  waiting-Gets :
      (i n : ℕ) (c : Caller) (r : Registry cache)
      → IsHeld cache r
      → r.callers i ≡ c
      → IsWaitingFor n c
      → Gets i n r
  waiting-Gets i n Caller.outside r h e w = absurd w
  waiting-Gets i n (Caller.locking m) r h e w = locking-Gets i n r h (e ∙ ap Caller.locking w)
  waiting-Gets i n (Caller.holding m) r h e w =
      Ends-Gets i n r (holding-Ends i n r (e ∙ ap Caller.holding w))
  waiting-Gets i n (Caller.creating m) r h e w =
      Ends-Gets i n r (creating-Ends i n r (e ∙ ap Caller.creating w))
  waiting-Gets i n (Caller.evicting m l k) r h e w =
      Ends-Gets i n r (evicting-Ends i n l k r (e ∙ ap (λ (x : ℕ). Caller.evicting x l k) w))
  waiting-Gets i n (Caller.returned m l) r h e w = absurd w

  -- From an empty cache, whatever it evicts and whatever callers of `NewLogger` did in any order:
  -- from then on, steps of the callers that are in a call, without any new call, can lead each of
  -- them to its return, also one that waits for the mutex, with a created logger whose file name is
  -- the one that it asked for. The end of the callback for an evicted logger is such a step.
  pub new_logger_returns :
      (v : IsNames cache) (names : cache.State) (es : List Event) (i n : ℕ)
      → ((m : ℕ) → v.read names m ≡ none)
      → let r = run cache es (initial cache names) in
        IsWaitingFor n (r.callers i)
        → (fs : List Event) × (l : ℕ) × AllSteps fs
          × (let t = run cache fs r in
              (t.callers i ≡ Caller.returned n l) × (l < t.created) × (t.filename l ≡ n))
  new_logger_returns v names es i n empty w =
      let start = initial cache names in
      let r = run cache es start in
      let (fs, l, only, back) =
        waiting-Gets i n (r.callers i) r (run-IsHeld cache es start (λ j e. cc)) refl w in
      let fine =
        subst (IsRegistered cache v) (run-append es fs start)
          (run-IsRegistered cache v names (es ++ fs) empty) in
      let t = run cache fs r in
      let named = subst (IsFine cache v t i) back (fine.each i) in
      (fs, l, only, (back, named.0, named.1))
