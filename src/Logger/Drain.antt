-- ===== src/Logger/Drain.antt =====
-- The goroutine writes what is in the channel, in the order in which it was sent.
use zipologger.Base.{
  ℕ, ◌≡◌, refl, sym, ap, ap₂, ◌∙◌, ==_iff, true, Bool-cases, inl, inr, ◌==◌, arith,
}
use zipologger.Base.{
  List, [], ◌∷◌, ◌++◌, length, append-nil, append_assoc, Option, none, some, if◌then◌else◌,
}
use zipologger.Enc.{Packages}
use zipologger.Logger.{Message, System, update, receive, write}
use zipologger.Logger.Line.{line}
use zipologger.Logger.Run.{Event, run}

module _ (p : Packages) where
  -- Rounds of the goroutine, with the random input of each.
  abbrev pub rounds : List p.Random → List (Event p)
  rounds [] = []
  rounds (r ∷ rs) = Event.receives ∷ Event.writes true r ∷ rounds rs

  -- The lines for logger `l` from the messages of a channel, in their order.
  abbrev pub lines_of :
      (ℕ → Option p.PublicKey)
      → Option p.PublicKey
      → ℕ
      → List p.Random
      → List Message
      → List (List ℕ)
  lines_of own global l rs [] = []
  lines_of own global l [] (m ∷ ms) = []
  lines_of own global l (r ∷ rs) (m ∷ ms) =
      let rest = lines_of own global l rs ms in
      if l == m.logger then line p r (own m.logger) global m.msg ∷ rest else rest

  module _ (r : p.Random) (s : System p) (m : Message) (rest : List Message) (h : s.in_hand ≡ none)
      (e : s.tolog_ch ≡ m ∷ rest) where
    round : System p
    round = write p true r (receive p s)

    receive_lem : receive p s ≡ record s { tolog_ch = rest; in_hand = some m }
    unfolding receive
    receive_lem = rw (receive, h, e) refl

    round-tolog_ch : round.tolog_ch ≡ rest
    unfolding round write
    round-tolog_ch = rw receive_lem refl

    round-in_hand : round.in_hand ≡ none
    unfolding round write
    round-in_hand = rw receive_lem refl

    round-encryption_key : round.encryption_key ≡ s.encryption_key
    unfolding round write
    round-encryption_key = rw receive_lem refl

    round-global_key : round.global_key ≡ s.global_key
    unfolding round write
    round-global_key = rw receive_lem refl

    round-files :
        round.files
        ≡ update s.files m.logger
            (s.files m.logger ++ line p r (s.encryption_key m.logger) s.global_key m.msg ∷ [])
    unfolding round write
    round-files = elim (Bool-cases (s.opened m.logger)) [
      | inl o ↦ rw (receive_lem, o) refl
      | inr o ↦ rw (receive_lem, o) refl
    ]

  one_line :
      (files : ℕ → List (List ℕ)) (text : List ℕ) (k l : ℕ) (more : List (List ℕ))
      → update files k (files k ++ text ∷ []) l ++ more
        ≡ files l ++ (if l == k then text ∷ more else more)
  one_line files text k l more = elim (Bool-cases (l == k)) [
    | inl e ↦
        let same : files k ≡ files l = ap files (sym ((==_iff l k).0 e)) in
        rw (e, same) (append_assoc (files l) (text ∷ []) more)
    | inr e ↦ rw e refl
  ]

  -- While nothing else happens and files can be opened, as many rounds of the goroutine as there
  -- are messages in the channel leave it empty, and add to the file of each logger the lines of
  -- its messages in the order of the channel.
  pub drain_lem :
      (ms : List Message) (rs : List p.Random) (s : System p)
      → length rs ≡ length ms
      → s.in_hand ≡ none
      → s.tolog_ch ≡ ms
      → let t = run p (rounds rs) s in
        (t.tolog_ch ≡ [])
        × (t.in_hand ≡ none)
        × ((l : ℕ) → t.files l ≡ s.files l ++ lines_of s.encryption_key s.global_key l rs ms)
  unfolding round
  drain_lem [] [] s n h e = (e, h, λ l. sym (append-nil (s.files l)))
  drain_lem [] (r ∷ rs) s n h e = absurd (omega arith)
  drain_lem (m ∷ ms) [] s n h e = absurd (omega arith)
  drain_lem (m ∷ ms) (r ∷ rs) s n h e =
      let w = round r s m ms h e in
      let there =
        drain_lem ms rs w (omega arith) (round-in_hand r s m ms h e)
          (round-tolog_ch r s m ms h e) in
      (
        there.0,
        there.1,
        λ l.
            there.2 l
            ∙ ap₂ (λ (f : ℕ → List (List ℕ)) (x : List (List ℕ)). f l ++ x)
                (round-files r s m ms h e)
                (ap₂ (λ (o : ℕ → Option p.PublicKey) (g : Option p.PublicKey). lines_of o g l rs ms)
                  (round-encryption_key r s m ms h e) (round-global_key r s m ms h e))
            ∙ one_line s.files (line p r (s.encryption_key m.logger) s.global_key m.msg) m.logger l
                (lines_of s.encryption_key s.global_key l rs ms),
      )
