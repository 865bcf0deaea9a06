-- ===== src/Registry/Runs.antt =====
-- Runs of callers of `NewLogger`, and what they find when they create a logger.
use zipologger.Base.{
  ℕ, ◌<◌, ◌≡◌, inl, inr, refl, true, sym, ap, ◌∙◌, arith, subst, List, [], ◌∷◌, none,
  some-injective,
}
use zipologger.Registry.{Names, IsNames, Caller, Registry, Event, go_on, start, run, initial}
use zipologger.Registry.Invariant.{NotEvicting, IsFine, IsRegistered, set}
use zipologger.Registry.Steps.{
  callers-IsAccounted, look-IsRegistered, lock-IsRegistered, look_again-IsRegistered,
  release-IsRegistered,
}
use zipologger.Registry.Creation.{create-IsRegistered}

module _ (cache : Names) (v : IsNames cache) where
  start-IsRegistered :
      (r : Registry cache) (i name : ℕ) (c : Caller)
      → r.callers i ≡ c
      → IsRegistered cache v r
      → IsRegistered cache v (start cache i name c r)
  start-IsRegistered r i name Caller.outside e f =
      look-IsRegistered cache v r f i name (subst NotEvicting (sym e) tt)
  start-IsRegistered r i name (Caller.locking n) e f = f
  start-IsRegistered r i name (Caller.holding n) e f = f
  start-IsRegistered r i name (Caller.creating n) e f = f
  start-IsRegistered r i name (Caller.evicting n l k) e f = f
  start-IsRegistered r i name (Caller.returned n l) e f =
      look-IsRegistered cache v r f i name (subst NotEvicting (sym e) tt)

  go_on-IsRegistered :
      (r : Registry cache) (i : ℕ) (c : Caller)
      → r.callers i ≡ c
      → IsFine cache v r i c
      → IsRegistered cache v r
      → IsRegistered cache v (go_on cache i c r)
  go_on-IsRegistered r i Caller.outside e g f = f
  go_on-IsRegistered r i (Caller.locking n) e g f =
      lock-IsRegistered cache v r f i n (subst NotEvicting (sym e) tt)
  go_on-IsRegistered r i (Caller.holding n) e g f =
      look_again-IsRegistered cache v r f i n (subst NotEvicting (sym e) tt) g
  go_on-IsRegistered r i (Caller.creating n) e g f =
      create-IsRegistered cache v r f i n g.0 (subst NotEvicting (sym e) tt) g.1
  go_on-IsRegistered r i (Caller.evicting n l k) e g f =
      release-IsRegistered cache v r f i n l k e g.0 g.1
  go_on-IsRegistered r i (Caller.returned n l) e g f = record {
    each = set cache v r r.callers i Caller.outside tt (λ j d. f.each j);
    known = f.known;
    accounted = λ k b.
        callers-IsAccounted cache v r i Caller.outside k (subst NotEvicting (sym e) tt)
          (f.accounted k b);
  }

  run-IsRegistered_from :
      (es : List Event) (r : Registry cache)
      → IsRegistered cache v r
      → IsRegistered cache v (run cache es r)
  run-IsRegistered_from [] r f = f
  run-IsRegistered_from (Event.calls i name ∷ es) r f =
      run-IsRegistered_from es (start cache i name (r.callers i) r)
        (start-IsRegistered r i name (r.callers i) refl f)
  run-IsRegistered_from (Event.goes_on i ∷ es) r f =
      run-IsRegistered_from es (go_on cache i (r.callers i) r)
        (go_on-IsRegistered r i (r.callers i) refl (f.each i) f)

  -- From an empty cache, whatever callers of `NewLogger` do in any order: every caller is fine, the
  -- loggers of the cache are created ones under their file names, and every created logger is in the
  -- cache, or closed, or in the callback.
  pub run-IsRegistered :
      (names : cache.State) (es : List Event)
      → ((n : ℕ) → v.read names n ≡ none)
      → IsRegistered cache v (run cache es (initial cache names))
  run-IsRegistered names es h = run-IsRegistered_from es (initial cache names) (record {
    each = λ j. tt;
    known = λ n l e. let z = h n in cc;
    accounted = λ l b. absurd (omega arith);
  })

  -- From an empty cache, whatever callers of `NewLogger` do in any order: when one of them is about
  -- to create a logger for a file name, every logger that was created for this name before has been
  -- evicted, and the callback that flushes and closes it has ended.
  pub creating_lem :
      (names : cache.State) (es : List Event) (i n l : ℕ)
      → ((n : ℕ) → v.read names n ≡ none)
      → let r = run cache es (initial cache names) in
        r.callers i ≡ Caller.creating n → l < r.created → r.filename l ≡ n → r.released l ≡ true
  creating_lem names es i n l empty h b e =
      let r = run cache es (initial cache names) in
      let f = run-IsRegistered names es empty in
      let fine = subst (IsFine cache v r i) h (f.each i) in
      elim (f.accounted l b) [
        | inl there ↦ let same = ap (v.read r.initialized_loggers) e in cc
        | inr (inl closed) ↦ closed
        | inr (inr (j, m, k, being)) ↦
            let holder = subst (IsFine cache v r j) being (f.each j) in
            let same = some-injective i j (sym fine.0 ∙ holder.0) in
            let clash = sym h ∙ ap r.callers same ∙ being in cc
      ]
