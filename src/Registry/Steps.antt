-- ===== src/Registry/Steps.antt =====
-- The steps of `NewLogger` up to the creation of a logger keep the invariant.
use zipologger.Base.{
  ℕ, ◌≡◌, refl, sym, ap, ◌∙◌, inl, inr, false≢true, Bool-cases, ◌==◌, ==_iff, none, some,
  Option-cases,
}
use zipologger.Registry.{Names, IsNames, Caller, Registry, update, look, lock, look_again, release}
use zipologger.Registry.Invariant.{
  NotEvicting, still_IsBeingEvicted, no_other, HasName, IsFine, IsAccounted, IsRegistered, other,
  set,
}

victim_of : Caller → ℕ
victim_of (Caller.evicting n l k) = k
victim_of c = 0

module _ (cache : Names) (v : IsNames cache) where
  -- Only the callers change, and not one in the callback.
  pub callers-IsAccounted :
      (r : Registry cache) (i : ℕ) (c : Caller) (l : ℕ)
      → NotEvicting (r.callers i)
      → IsAccounted cache v r l
      → IsAccounted cache v (record r { callers = update r.callers i c }) l
  callers-IsAccounted r i c l h (inl a) = inl a
  callers-IsAccounted r i c l h (inr (inl a)) = inr (inl a)
  callers-IsAccounted r i c l h (inr (inr a)) = inr (inr (still_IsBeingEvicted r.callers i c l h a))

  module _ (r : Registry cache) (f : IsRegistered cache v r) (i name : ℕ) where
    -- The registry after a look into the cache.
    abbrev looked : Registry cache
    looked = record r { initialized_loggers = (cache.get name r.initialized_loggers).1 }

    looked-IsRegistered : IsRegistered cache v looked
    looked-IsRegistered = record {
      each = λ j.
          other cache v r looked j (r.callers j)
            (λ m. (m, λ n. v.read-get name n r.initialized_loggers)) (λ n l h. h) (f.each j);
      known = λ n l e. f.known n l (sym (v.read-get name n r.initialized_loggers) ∙ e);
      accounted = λ l b. elim (f.accounted l b) [
        | inl a ↦ inl (v.read-get name (r.filename l) r.initialized_loggers ∙ a)
        | inr a ↦ inr a
      ];
    }

    -- A caller that goes on without the mutex.
    moved-IsRegistered :
        (s : Registry cache) (c : Caller)
        → IsRegistered cache v s
        → NotEvicting (s.callers i)
        → IsFine cache v s i c
        → IsRegistered cache v (record s { callers = update s.callers i c })
    moved-IsRegistered s c g h own = record {
      each = set cache v s s.callers i c own (λ j e. g.each j);
      known = g.known;
      accounted = λ l b. callers-IsAccounted s i c l h (g.accounted l b);
    }

    found_name :
        (l : ℕ) → (cache.get name r.initialized_loggers).0 ≡ some l → HasName cache v r name l
    found_name l e = f.known name l (sym (v.get-read name r.initialized_loggers) ∙ e)

    module _ (h : NotEvicting (r.callers i)) where
      pub look-IsRegistered : IsRegistered cache v (look cache i name r)
      unfolding look
      look-IsRegistered = elim (Option-cases (cache.get name r.initialized_loggers).0) [
        | inl e ↦
            rw (look, e) (moved-IsRegistered looked (Caller.locking name) looked-IsRegistered h tt)
        | inr (l, e) ↦
            rw (look, e)
              (moved-IsRegistered looked (Caller.returned name l) looked-IsRegistered h
                (found_name l e))
      ]

      pub lock-IsRegistered : IsRegistered cache v (lock cache i name r)
      unfolding lock
      lock-IsRegistered = elim (Option-cases r.new_logger_mutex) [
        | inr (k, e) ↦ simp (lock, e) f
        | inl e ↦
            let held = record r { new_logger_mutex = some i } in
            simp (lock, e)
              (record {
                each =
                    set cache v held r.callers i (Caller.holding name) refl (λ j g.
                      other cache v r held j (r.callers j) (λ m. cc) (λ n l d. d) (f.each j));
                known = f.known;
                accounted =
                    λ l b. callers-IsAccounted r i (Caller.holding name) l h (f.accounted l b);
              })
      ]

      module _ (own : r.new_logger_mutex ≡ some i) where
        pub look_again-IsRegistered : IsRegistered cache v (look_again cache i name r)
        unfolding look_again
        look_again-IsRegistered = elim (Option-cases (cache.get name r.initialized_loggers).0) [
          | inl e ↦
              rw (look_again, e)
                (moved-IsRegistered looked (Caller.creating name) looked-IsRegistered h (
                  own,
                  v.read-get name name r.initialized_loggers
                      ∙ sym (v.get-read name r.initialized_loggers)
                      ∙ e,
                ))
          | inr (l, e) ↦
              let free = record looked { new_logger_mutex = none } in
              let g = looked-IsRegistered in
              rw (look_again, e)
                (record {
                  each =
                      set cache v free r.callers i (Caller.returned name l) (found_name l e) (λ j d.
                        other cache v looked free j (r.callers j)
                          (λ m. absurd (no_other r.new_logger_mutex i j own m d)) (λ n k a. a)
                          (g.each j));
                  known = g.known;
                  accounted = λ k b.
                      callers-IsAccounted looked i (Caller.returned name l) k h (g.accounted k b);
                })
        ]

    -- The end of the callback.
    module _ (l k : ℕ) (here : r.callers i ≡ Caller.evicting name l k) where
      after_release :
          (m : ℕ) → IsAccounted cache v r m → IsAccounted cache v (release cache i name l k r) m
      unfolding release victim_of
      after_release m (inl a) = inl a
      after_release m (inr (inl a)) = elim (Bool-cases (m == k)) [
        | inl e ↦ inr (inl (rw e refl))
        | inr e ↦ inr (inl (rw e a))
      ]
      after_release m (inr (inr (j, n, d, a))) = elim (Bool-cases (m == k)) [
        | inl e ↦ inr (inl (rw e refl))
        | inr e ↦ elim (Bool-cases (j == i)) [
          | inr g ↦ inr (inr (j, n, d, rw g a))
          | inl g ↦
              let there = ap r.callers ((==_iff j i).0 g) in
              let same : m ≡ k = ap victim_of (sym a ∙ there ∙ here) in
              absurd (false≢true (sym e ∙ (==_iff m k).1 same))
        ]
      ]

      pub release-IsRegistered :
          r.new_logger_mutex ≡ some i
          → HasName cache v r name l
          → IsRegistered cache v (release cache i name l k r)
      unfolding release
      release-IsRegistered own named = record {
        each =
            set cache v (record r { new_logger_mutex = none }) r.callers i (Caller.returned name l)
              named
              (λ j d.
                other cache v r (record r { new_logger_mutex = none }) j (r.callers j)
                  (λ m. absurd (no_other r.new_logger_mutex i j own m d)) (λ n m a. a) (f.each j));
        known = f.known;
        accounted = λ m b. after_release m (f.accounted m b);
      }
