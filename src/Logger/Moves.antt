-- ===== src/Logger/Moves.antt =====
-- The ledger of each logger, and the move that each operation makes on it.
use zipologger.Base.{
  ℕ, ◌≡◌, refl, sym, ap, ◌∙◌, ==_iff, Bool, Bool-cases, inl, inr, ◌==◌, ◌||◌, ◌&&◌, ltb, length,
}
use zipologger.Base.{
  List, [], List-cases, ◌∷◌, ◌++◌, append-nil, Option, none, some, Option-cases, if◌then◌else◌,
}
use zipologger.Enc.{Packages, encrypt_string, new_encrypt_key}
use zipologger.Logger.{
  close, close_evicted, Message, Call, System, capacity, take_out, enter, add_task, send, receive,
  write, begin_wait, finish_tasks, end_wait, set_encryption_key, set_global_encryption,
}
use zipologger.Logger.Line.{trim, line}
use zipologger.Logger.Run.{Event, step}
use zipologger.Logger.Ledger.{Ledger, IsLineOf, Move}

-- The texts of the messages of logger `l`.
abbrev pub texts_of : ℕ → List Message → List (List ℕ)
texts_of l [] = []
texts_of l (m ∷ ms) = let rest = texts_of l ms in if l == m.logger then m.msg ∷ rest else rest

texts_of-append :
    (l : ℕ) (ms ns : List Message) → texts_of l (ms ++ ns) ≡ texts_of l ms ++ texts_of l ns
texts_of-append l [] ns = refl
texts_of-append l (m ∷ ms) ns = elim (Bool-cases (l == m.logger)) [
  | inl e ↦ rw (e, texts_of-append l ms ns) refl
  | inr e ↦ rw (e, texts_of-append l ms ns) refl
]

-- The message in hand comes before those of the channel.
abbrev pub ahead : Option Message → List Message → List Message
ahead none ms = ms
ahead (some m) ms = m ∷ ms

ahead-append : (h : Option Message) (ms ns : List Message) → ahead h (ms ++ ns) ≡ ahead h ms ++ ns
ahead-append none ms ns = refl
ahead-append (some m) ms ns = refl

module _ (p : Packages) where
  -- The ledger of logger `l`.
  abbrev pub ledger : ℕ → System p → Ledger
  ledger l s = record { pending = texts_of l (ahead s.in_hand s.tolog_ch); written = s.files l }

  -- The messages of logger `l` that a step accepts: those that `send` puts into the channel.
  abbrev pub accepted_by : ℕ → Event p → System p → List (List ℕ)
  accepted_by l (Event.sends i) s = elim (take_out i s.sending) [
    | none ↦ []
    | some (m, rest) ↦ if ltb (length s.tolog_ch) capacity then texts_of l (m ∷ []) else []
  ]
  accepted_by l e s = []

  abbrev pub accepted : ℕ → List (Event p) → System p → List (List ℕ)
  accepted l [] s = []
  accepted l (e ∷ es) s = accepted_by l e s ++ accepted l es (step p e s)

  line-IsLineOf :
      (random : p.Random) (own global : Option p.PublicKey) (msg : List ℕ)
      → IsLineOf p msg (line p random own global msg)
  unfolding line
  line-IsLineOf random none none msg = inl refl
  line-IsLineOf random none (some k) msg =
      elim (Option-cases (encrypt_string p random k (trim msg))) [
        | inl e ↦ rw (line, e) (inl refl)
        | inr (ret, e) ↦ rw (line, e) (inr (random, k, ret, e, refl))
      ]
  line-IsLineOf random (some k) global msg =
      elim (Option-cases (encrypt_string p random k (trim msg))) [
        | inl e ↦ rw (line, e) (inl refl)
        | inr (ret, e) ↦ rw (line, e) (inr (random, k, ret, e, refl))
      ]

  pub send-Move :
      (l i : ℕ) (s : System p)
      → Move p (ledger l s) (ledger l (send p i s)) (accepted_by l (Event.sends i) s)
  unfolding send
  send-Move l i s = elim (Option-cases (take_out i s.sending)) [
    | inl e ↦ rw (send, accepted_by, e) (Move.stays refl refl)
    | inr (x, e) ↦ elim (Bool-cases (ltb (length s.tolog_ch) capacity)) [
      | inr full ↦ rw (send, accepted_by, e, full) (Move.stays refl refl)
      | inl room ↦
          let more : texts_of l (ahead s.in_hand (s.tolog_ch ++ x.0 ∷ []))
              ≡ texts_of l (ahead s.in_hand s.tolog_ch) ++ texts_of l (x.0 ∷ []) =
            ap (texts_of l) (ahead-append s.in_hand s.tolog_ch (x.0 ∷ []))
            ∙ texts_of-append l (ahead s.in_hand s.tolog_ch) (x.0 ∷ []) in
          elim (Bool-cases (l == x.0.logger)) [
            | inl own ↦
                let more = rw own at more in
                rw (send, accepted_by, e, room, own) (Move.accepts x.0.msg more refl)
            | inr other ↦
                let more = rw other at more in
                rw (send, accepted_by, e, room, other)
                  (Move.stays (more ∙ append-nil (texts_of l (ahead s.in_hand s.tolog_ch))) refl)
          ]
    ]
  ]

  pub receive-Move : (l : ℕ) (s : System p) → Move p (ledger l s) (ledger l (receive p s)) []
  unfolding receive
  receive-Move l s = elim (Option-cases s.in_hand) [
    | inr (m, e) ↦
        let same : receive p s ≡ s = simp (receive, e) refl in rw same (Move.stays refl refl)
    | inl e ↦ elim (List-cases s.tolog_ch) [
      | inl f ↦
          let same : receive p s ≡ s = simp (receive, e, f) refl in rw same (Move.stays refl refl)
      | inr (m, rest, f) ↦ rw (receive, e, f) (Move.stays refl refl)
    ]
  ]

  pub write-Move :
      (l : ℕ) (opens : Bool) (random : p.Random) (s : System p)
      → Move p (ledger l s) (ledger l (write p opens random s)) []
  unfolding write
  write-Move l opens random s = elim (Option-cases s.in_hand) [
    | inl e ↦
        let same : write p opens random s ≡ s = simp (write, e) refl in
        rw same (Move.stays refl refl)
    | inr (m, e) ↦ elim (Bool-cases (s.opened m.logger || opens)) [
      | inr closed ↦ elim (Bool-cases (l == m.logger)) [
        | inl own ↦ rw (write, e, closed, own) (Move.loses m.msg refl refl)
        | inr other ↦ rw (write, e, closed, other) (Move.stays refl refl)
      ]
      | inl ready ↦ elim (Bool-cases (l == m.logger)) [
        | inl own ↦
            let same : s.files m.logger ≡ s.files l =
              ap s.files (sym ((==_iff l m.logger).0 own)) in
            let text = line p random (s.encryption_key m.logger) s.global_key m.msg in
            rw (write, e, ready, own)
              (Move.delivers m.msg text
                (line-IsLineOf random (s.encryption_key m.logger) s.global_key m.msg) refl
                (ap (λ (f : List (List ℕ)). f ++ text ∷ []) same))
        | inr other ↦ rw (write, e, ready, other) (Move.stays refl refl)
      ]
    ]
  ]

  -- The steps that neither put a message into the channel nor take one out of it.
  pub enter-Move :
      (l : ℕ) (c : Call) (s : System p) → Move p (ledger l s) (ledger l (enter p c s)) []
  unfolding enter
  enter-Move l c s = elim (Bool-cases (s.wait_started c.of.logger)) [
    | inl e ↦ rw (enter, e) (Move.stays refl refl)
    | inr e ↦ rw (enter, e) (Move.stays refl refl)
  ]

  pub add_task-Move : (l i : ℕ) (s : System p) → Move p (ledger l s) (ledger l (add_task p i s)) []
  unfolding add_task
  add_task-Move l i s = elim (Option-cases (take_out i s.entering)) [
    | inl e ↦ rw (add_task, e) (Move.stays refl refl)
    | inr (x, e) ↦ rw (add_task, e) (Move.stays refl refl)
  ]

  pub begin_wait-Move :
      (l k : ℕ) (s : System p) → Move p (ledger l s) (ledger l (begin_wait p k s)) []
  unfolding begin_wait
  begin_wait-Move l k s = elim (Bool-cases (s.wait_started k)) [
    | inl e ↦ rw (begin_wait, e) (Move.stays refl refl)
    | inr e ↦ rw (begin_wait, e) (Move.stays refl refl)
  ]

  pub finish_tasks-Move :
      (l k : ℕ) (s : System p) → Move p (ledger l s) (ledger l (finish_tasks p k s)) []
  unfolding finish_tasks
  finish_tasks-Move l k s = elim (Bool-cases (s.wait_started k && s.log_tasks k == 0)) [
    | inl e ↦ rw (finish_tasks, e) (Move.stays refl refl)
    | inr e ↦ rw (finish_tasks, e) (Move.stays refl refl)
  ]

  pub end_wait-Move : (l k : ℕ) (s : System p) → Move p (ledger l s) (ledger l (end_wait p k s)) []
  unfolding end_wait
  end_wait-Move l k s = elim (Bool-cases (s.wait_returned k)) [
    | inl e ↦ rw (end_wait, e) (Move.stays refl refl)
    | inr e ↦ rw (end_wait, e) (Move.stays refl refl)
  ]

  pub close-Move : (l k : ℕ) (s : System p) → Move p (ledger l s) (ledger l (close p k s).0) []
  unfolding close
  close-Move l k s = elim (Bool-cases (s.zlog k)) [
    | inl e ↦ rw (close, e) (Move.stays refl refl)
    | inr e ↦ rw (close, e) (Move.stays refl refl)
  ]

  pub close_evicted-Move :
      (l k : ℕ) (s : System p) → Move p (ledger l s) (ledger l (close_evicted p k s)) []
  unfolding close_evicted
  close_evicted-Move l k s = elim (Bool-cases (s.zlog k)) [
    | inl e ↦ rw (close_evicted, e) (Move.stays refl refl)
    | inr e ↦ rw (close_evicted, e) (Move.stays refl refl)
  ]

  pub set_encryption_key-Move :
      (l k : ℕ) (key : List ℕ) (s : System p)
      → Move p (ledger l s) (ledger l (set_encryption_key p k key s).0) []
  unfolding set_encryption_key
  set_encryption_key-Move l k key s = elim (Option-cases (new_encrypt_key p key)) [
    | inl e ↦ rw (set_encryption_key, e) (Move.stays refl refl)
    | inr (x, e) ↦ rw (set_encryption_key, e) (Move.stays refl refl)
  ]

  pub set_global_encryption-Move :
      (l : ℕ) (key : List ℕ) (s : System p)
      → Move p (ledger l s) (ledger l (set_global_encryption p key s).0) []
  unfolding set_global_encryption
  set_global_encryption-Move l key s = elim (Option-cases (new_encrypt_key p key)) [
    | inl e ↦ rw (set_global_encryption, e) (Move.stays refl refl)
    | inr (x, e) ↦ rw (set_global_encryption, e) (Move.stays refl refl)
  ]
