-- ===== src/Logger/Closing.antt =====
-- `Close`, and what is printed after it.
use zipologger.Base.{
  ℕ, Bool, ◌+◌, ◌≡◌, refl, sym, true, false, false≢true, subst, inl, inr, Bool-cases, ◌==◌, ◌++◌,
  some, ==_iff, List, [], ◌∷◌,
}
use zipologger.Enc.{Packages}
use zipologger.Logger.{Message, System, write, close}
use zipologger.Logger.Line.{line}
use zipologger.Logger.Run.{Event, step, run, initial}
use zipologger.Logger.Lifecycle.{File, Change, after, is_for, change, file, file-step}

-- A file that `zlog` holds is open.
after-opened :
    (c : Change) (v : File)
    → (v.zlog ≡ true → v.opened ≡ true)
    → (after c v).zlog ≡ true
    → (after c v).opened ≡ true
after-opened Change.nothing v h e = h e
after-opened (Change.opening opens) v h e = elim (Bool-cases v.opened) [
  | inl f ↦ rw f refl
  | inr f ↦ let e = rw f at e in rw f e
]
after-opened Change.closing v h e = elim (Bool-cases v.zlog) [
  | inl f ↦ let e = rw f at e in absurd (false≢true e)
  | inr f ↦ let e = rw f at e in absurd (false≢true e)
]
after-opened Change.evicting v h e = elim (Bool-cases v.zlog) [
  | inl f ↦ rw f (h f)
  | inr f ↦ let e = rw f at e in absurd (false≢true e)
]

-- A file that `Close` has closed: it counts as open, but `zlog` is not set.
abbrev IsShut : ℕ → File → Type 0
IsShut n v = (v.opened ≡ true) × (v.zlog ≡ false) × (v.closes ≡ n)

after-IsShut : (n : ℕ) (c : Change) (v : File) → IsShut n v → IsShut n (after c v)
after-IsShut n Change.nothing v h = h
after-IsShut n (Change.opening opens) v h = rw h.0 (refl, h.1, h.2)
after-IsShut n Change.closing v h = rw h.1 (h.0, refl, h.2)
after-IsShut n Change.evicting v h = rw h.1 (h.0, refl, h.2)

module _ (p : Packages) where
  run_opened :
      (l : ℕ) (es : List (Event p)) (s : System p)
      → (s.zlog l ≡ true → s.opened l ≡ true)
      → (run p es s).zlog l ≡ true
      → (run p es s).opened l ≡ true
  run_opened l [] s h e = h e
  run_opened l (x ∷ xs) s h e =
      run_opened l xs (step p x s)
        (subst (λ (v : File). v.zlog ≡ true → v.opened ≡ true) (sym (file-step p l x s))
          (after-opened (change p l x (is_for l s.in_hand)) (file p l s) h))
        e

  run-IsShut :
      (n l : ℕ) (es : List (Event p)) (s : System p)
      → IsShut n (file p l s)
      → IsShut n (file p l (run p es s))
  run-IsShut n l [] s h = h
  run-IsShut n l (x ∷ xs) s h = run-IsShut n l xs (step p x s) (
      subst (IsShut n) (sym (file-step p l x s))
        (after-IsShut n (change p l x (is_for l s.in_hand)) (file p l s) h))

  -- What a round of the goroutine adds to an open file.
  write-files :
      (l : ℕ) (opens : Bool) (random : p.Random) (m : Message) (s : System p)
      → s.opened l ≡ true
      → s.in_hand ≡ some m
      → m.logger ≡ l
      → (write p opens random s).files l
        ≡ s.files l ++ line p random (s.encryption_key l) s.global_key m.msg ∷ []
  unfolding write
  write-files l opens random m s h e same =
      let own : (l == l) ≡ true = (==_iff l l).1 refl in rw (write, e, same, h, own) refl

  -- After any interleaving of steps, once `Close` has closed the file of logger `l`: whatever is
  -- printed and waited for then, the logger counts as open, a round of the goroutine with a message
  -- of it writes the line of this message to the file that was closed, and neither `Close` nor an
  -- eviction has closed it again, nor will `Close`.
  pub close_lem :
      (paths : ℕ → Bool) (es fs : List (Event p)) (l : ℕ)
      → let s = run p es (initial p paths) in
        s.zlog l ≡ true
        → let t = (close p l s).0 in
          let u = run p fs t in
          (u.opened l ≡ true)
          × (u.zlog l ≡ false)
          × (u.closes l ≡ s.closes l + 1)
          × ((close p l u).1 ≡ false)
          × ((opens : Bool) (random : p.Random) (m : Message)
              → u.in_hand ≡ some m
              → m.logger ≡ l
              → let w = write p opens random u in
                (w.files l
                  ≡ u.files l ++ line p random (u.encryption_key l) u.global_key m.msg ∷ [])
                × (w.closes l ≡ s.closes l + 1))
  unfolding close
  close_lem paths es fs l h =
      let s = run p es (initial p paths) in
      let t = (close p l s).0 in
      let u = run p fs t in
      let n = s.closes l + 1 in
      let here : (l == l) ≡ true = (==_iff l l).1 refl in
      let opened = run_opened l es (initial p paths) (λ e. absurd (false≢true e)) h in
      let shut : IsShut n (file p l t) = rw (close, h, here) (opened, refl, refl) in
      let still = run-IsShut n l fs t shut in
      (
        still.0,
        still.1,
        still.2,
        rw (close, still.1) refl,
        λ opens random m e same. (
          write-files l opens random m u still.0 e same,
          (run-IsShut n l (Event.writes opens random ∷ []) u still).2,
        ),
      )
