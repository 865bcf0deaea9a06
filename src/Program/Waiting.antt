-- ===== src/Program/Waiting.antt =====
-- What holds while a call of `Wait` goes on and no call of print or of another `Wait` begins.
use mathlib.Core.List.{Memᴰ}
use mathlib.Core.List.Memᴰ
use zipologger.Base.{
  ℕ, ◌≡◌, ◌⊎◌, inl, inr, refl, sym, ap, ◌∙◌, arith, subst, Bool, true, false, Bool-cases, ◌==◌,
  ==_iff, List, [], ◌∷◌, Option, some, some-injective, Option-cases,
}
use zipologger.Enc.{Packages}
use zipologger.Logger.{System, update}
use zipologger.Logger.Run as LoggerRun
use zipologger.Logger.Quiet.{is_quiet, IsQuiet, step-IsQuiet}
use zipologger.Logger.Stretches.{begin_wait_lem, finish_tasks_calm, end_wait_calm}
use zipologger.Registry.{Names, IsNames}
use zipologger.Program.{Progress, Program, look_up, begin, finish, go_on}

-- The logger `l` of the name `n` is still to be waited for.
abbrev pub IsLeft : Progress → ℕ → ℕ → Type 0
IsLeft Progress.outside n l = ⊥
IsLeft (Progress.looking names) n l = Memᴰ n names
IsLeft (Progress.beginning k names) n l = (l ≡ k) ⊎ Memᴰ n names
IsLeft (Progress.waiting k names) n l = (l ≡ k) ⊎ Memᴰ n names
IsLeft (Progress.ending k names) n l = Memᴰ n names

module _ (p : Packages) where
  -- The only wait under way is that of the call.
  abbrev pub IsAlone : Progress → System p → Type 0
  IsAlone Progress.outside s = (k : ℕ) → s.wait_started k ≡ false
  IsAlone (Progress.looking names) s = (k : ℕ) → s.wait_started k ≡ false
  IsAlone (Progress.beginning l names) s = (k : ℕ) → s.wait_started k ≡ false
  IsAlone (Progress.waiting l names) s = (k : ℕ) → s.wait_started k ≡ (k == l)
  IsAlone (Progress.ending l names) s =
      ((k : ℕ) → s.wait_started k ≡ (k == l)) × (s.wait_returned l ≡ true)

  IsAlone-quiet : (c : Progress) (s t : System p) → IsQuiet p s t → IsAlone c s → IsAlone c t
  IsAlone-quiet Progress.outside s t q h = λ k. ap (λ (f : ℕ → Bool). f k) q.started ∙ h k
  IsAlone-quiet (Progress.looking names) s t q h = λ k. ap (λ (f : ℕ → Bool). f k) q.started ∙ h k
  IsAlone-quiet (Progress.beginning l names) s t q h =
      λ k. ap (λ (f : ℕ → Bool). f k) q.started ∙ h k
  IsAlone-quiet (Progress.waiting l names) s t q h = λ k. ap (λ (f : ℕ → Bool). f k) q.started ∙ h k
  IsAlone-quiet (Progress.ending l names) s t q h = (
    λ k. ap (λ (f : ℕ → Bool). f k) q.started ∙ h.0 k,
    ap (λ (f : ℕ → Bool). f l) q.returned ∙ h.1,
  )

module _ (p : Packages) (cache : Names) (v : IsNames cache) (keys : cache.State → List ℕ) where
  -- With the loggers `found` in the cache, and the call as far as `c`: no call of print is before
  -- its task, the cache still has these loggers, and each has no task or is still to be waited for.
  pub record IsWaiting (found : ℕ → Option ℕ) (c : Progress) (s : Program p cache keys)
      : Type 0 where
    pub silent : s.loggers.entering ≡ []
    pub reads : (m : ℕ) → v.read s.registry.initialized_loggers m ≡ found m
    pub alone : IsAlone p c s.loggers
    pub handled : (n l : ℕ) → found n ≡ some l → (s.loggers.log_tasks l ≡ 0) ⊎ IsLeft c n l

  module _ (found : ℕ → Option ℕ) (s : Program p cache keys) where
    pub logs-IsWaiting :
        (e : LoggerRun.Event p)
        → is_quiet p e ≡ true
        → IsWaiting found s.wait s
        → IsWaiting found s.wait (record s { loggers = LoggerRun.step p e s.loggers })
    logs-IsWaiting e q w =
        let calm = step-IsQuiet p e s.loggers q w.silent in
        record {
          silent = calm.entering ∙ w.silent;
          reads = w.reads;
          alone = IsAlone-quiet p s.wait s.loggers (LoggerRun.step p e s.loggers) calm w.alone;
          handled = λ n l h. elim (w.handled n l h) [
            | inl z ↦ inl (omega (arith, calm.tasks l))
            | inr left ↦ inr left
          ];
        }

    look_up-IsWaiting :
        (n : ℕ) (names : List ℕ)
        → IsWaiting found (Progress.looking (n ∷ names)) s
        → let t = look_up p cache keys n names s in IsWaiting found t.wait t
    unfolding look_up
    look_up-IsWaiting n names w =
        let c = s.registry.initialized_loggers in
        let seen = sym (w.reads n) ∙ sym (v.get-read n c) in
        elim (Option-cases (cache.get n c).0) [
          | inl e ↦
              rw (look_up, e)
                (record {
                  silent = w.silent;
                  reads = λ m. v.read-get n m c ∙ w.reads m;
                  alone = w.alone;
                  handled = λ m l h. elim (w.handled m l h) [
                    | inl z ↦ inl z
                    | inr (Memᴰ.head same) ↦ let there = ap found same in cc
                    | inr (Memᴰ.tail left) ↦ inr left
                  ];
                })
          | inr (k, e) ↦
              rw (look_up, e)
                (record {
                  silent = w.silent;
                  reads = λ m. v.read-get n m c ∙ w.reads m;
                  alone = w.alone;
                  handled = λ m l h. elim (w.handled m l h) [
                    | inl z ↦ inl z
                    | inr (Memᴰ.head same) ↦
                        inr (inl (some-injective l k (sym h ∙ ap found same ∙ seen ∙ e)))
                    | inr (Memᴰ.tail left) ↦ inr (inr left)
                  ];
                })
        ]

    begin-IsWaiting :
        (l : ℕ) (names : List ℕ)
        → IsWaiting found (Progress.beginning l names) s
        → let t = begin p cache keys l names s in IsWaiting found t.wait t
    unfolding begin
    begin-IsWaiting l names w =
        let free = w.alone l in
        let (entering, tasks, started) = begin_wait_lem p l s.loggers free in
        rw (begin, free)
          (record {
            silent = entering ∙ w.silent;
            reads = w.reads;
            alone = λ k. ap (λ (f : ℕ → Bool). f k) started ∙ own_flag k;
            handled = λ m k h. elim (w.handled m k h) [
              | inl z ↦ inl (ap (λ (f : ℕ → ℕ). f k) tasks ∙ z)
              | inr left ↦ inr left
            ];
          })
      where
        own_flag : (k : ℕ) → update s.loggers.wait_started l true k ≡ (k == l)
        own_flag k = elim (Bool-cases (k == l)) [ inl e ↦ rw e refl | inr e ↦ rw e (w.alone k) ]

    finish-IsWaiting :
        (l : ℕ) (names : List ℕ)
        → s.wait ≡ Progress.waiting l names
        → IsWaiting found (Progress.waiting l names) s
        → let t = finish p cache keys l names s in IsWaiting found t.wait t
    unfolding finish
    finish-IsWaiting l names at w = elim (Bool-cases (s.loggers.log_tasks l == 0)) [
      | inr e ↦ simp (finish, e) (subst (λ c. IsWaiting found c s) (sym at) w)
      | inl e ↦
          let own_flag = w.alone l ∙ (==_iff l l).1 refl in
          let (entering, tasks, started, returned) = finish_tasks_calm p l s.loggers own_flag e in
          let zero = (==_iff (s.loggers.log_tasks l) 0).0 e in
          rw (finish, e)
            (record {
              silent = entering ∙ w.silent;
              reads = w.reads;
              alone = (λ k. ap (λ (f : ℕ → Bool). f k) started ∙ w.alone k, returned);
              handled = λ m k h. elim (w.handled m k h) [
                | inl z ↦ inl (ap (λ (f : ℕ → ℕ). f k) tasks ∙ z)
                | inr (inl same) ↦
                    inl (ap (λ (f : ℕ → ℕ). f k) tasks ∙ ap s.loggers.log_tasks same ∙ zero)
                | inr (inr left) ↦ inr left
              ];
            })
    ]

    end-IsWaiting :
        (l : ℕ) (names : List ℕ)
        → IsWaiting found (Progress.ending l names) s
        → let t = go_on p cache keys (Progress.ending l names) s in IsWaiting found t.wait t
    unfolding go_on
    end-IsWaiting l names w =
        let (entering, tasks, started) = end_wait_calm p l s.loggers w.alone.1 in
        record {
          silent = entering ∙ w.silent;
          reads = w.reads;
          alone = λ k. ap (λ (f : ℕ → Bool). f k) started ∙ lowered_flag k;
          handled = λ m k h. elim (w.handled m k h) [
            | inl z ↦ inl (ap (λ (f : ℕ → ℕ). f k) tasks ∙ z)
            | inr left ↦ inr left
          ];
        }
      where
        lowered_flag : (k : ℕ) → update s.loggers.wait_started l false k ≡ false
        lowered_flag k = elim (Bool-cases (k == l)) [
          | inl e ↦ rw e refl
          | inr e ↦ rw e (w.alone.0 k ∙ e)
        ]

    pub go_on-IsWaiting :
        (c : Progress)
        → s.wait ≡ c
        → IsWaiting found c s
        → let t = go_on p cache keys c s in IsWaiting found t.wait t
    unfolding go_on
    go_on-IsWaiting Progress.outside at w = subst (λ c. IsWaiting found c s) (sym at) w
    go_on-IsWaiting (Progress.looking []) at w = record {
      silent = w.silent;
      reads = w.reads;
      alone = w.alone;
      handled =
          λ m k h. elim (w.handled m k h) [ inl z ↦ inl z | inr left ↦ absurd (Memᴰ.not-nil left) ];
    }
    go_on-IsWaiting (Progress.looking (n ∷ names)) at w = look_up-IsWaiting n names w
    go_on-IsWaiting (Progress.beginning l names) at w = begin-IsWaiting l names w
    go_on-IsWaiting (Progress.waiting l names) at w = finish-IsWaiting l names at w
    go_on-IsWaiting (Progress.ending l names) at w = end-IsWaiting l names w
