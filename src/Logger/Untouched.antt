-- ===== src/Logger/Untouched.antt =====
-- A logger for which no call of print begins: it has no message anywhere, and no file. The steps of
-- print and of the goroutine leave it so.
pub mod Step
use zipologger.Base.{
  ℕ, ◌+◌, ◌≡◌, refl, sym, ap, ◌∙◌, arith, inl, inr, false, Bool, Bool-cases, ◌==◌, ◌||◌, ◌&&◌, ltb,
  length, List, [], List-cases, ◌∷◌, Option-cases,
}
use zipologger.Enc.{Packages, new_encrypt_key}
use zipologger.Logger.{
  Call, System, capacity, prefixed, update, take_out, enter, add_task, send, receive, write,
  begin_wait, finish_tasks, end_wait, close, close_evicted, set_encryption_key,
  set_global_encryption, write_source_path, write_date_time, set_also_to_stdout, set_all_to_stdout,
}
use zipologger.Logger.Run.{Event, step}
use zipologger.Logger.Count.{count, held, count-append, take_out-count}

module _ (p : Packages) where
  pub record IsUntouched (l : ℕ) (s : System p) : Type 0 where
    pub entering : count l s.entering ≡ 0
    pub sending : count l s.sending ≡ 0
    pub queued : count l s.tolog_ch ≡ 0
    pub in_hand : held l s.in_hand ≡ 0
    pub opened : s.opened l ≡ false
    pub zlog : s.zlog l ≡ false
    pub files : s.files l ≡ []

  -- The step begins a call of print on logger `l`.
  abbrev pub begins : ℕ → Event p → Bool
  begins l (Event.enters c) = l == c.of.logger
  begins l e = false

  -- A step that leaves the messages and the files alone.
  pub kept :
      {l : ℕ} {s t : System p}
      → IsUntouched l s
      → t.entering ≡ s.entering
      → t.sending ≡ s.sending
      → t.tolog_ch ≡ s.tolog_ch
      → t.in_hand ≡ s.in_hand
      → t.opened ≡ s.opened
      → t.zlog ≡ s.zlog
      → t.files ≡ s.files
      → IsUntouched l t
  kept {l} u a b c d e f g = record {
    entering = ap (count l) a ∙ u.entering;
    sending = ap (count l) b ∙ u.sending;
    queued = ap (count l) c ∙ u.queued;
    in_hand = ap (held l) d ∙ u.in_hand;
    opened = ap (λ (h : ℕ → Bool). h l) e ∙ u.opened;
    zlog = ap (λ (h : ℕ → Bool). h l) f ∙ u.zlog;
    files = ap (λ (h : ℕ → List (List ℕ)). h l) g ∙ u.files;
  }

  module _ (l : ℕ) (s : System p) (u : IsUntouched l s) where
    pub enter-IsUntouched : (c : Call) → (l == c.of.logger) ≡ false → IsUntouched l (enter p c s)
    unfolding enter
    enter-IsUntouched c other = elim (Bool-cases (s.wait_started c.of.logger)) [
      | inl e ↦ simp (enter, e) u
      | inr e ↦
          let clean : count l (prefixed p s c ∷ s.entering) ≡ 0 =
            rw other (ap (λ n. 0 + n) u.entering) in
          simp (enter, e)
            (record {
              entering = clean;
              sending = u.sending;
              queued = u.queued;
              in_hand = u.in_hand;
              opened = u.opened;
              zlog = u.zlog;
              files = u.files;
            })
    ]

    pub add_task-IsUntouched : (i : ℕ) → IsUntouched l (add_task p i s)
    unfolding add_task
    add_task-IsUntouched i = elim (Option-cases (take_out i s.entering)) [
      | inl e ↦ simp (add_task, e) u
      | inr (x, e) ↦
          let c = take_out-count i s.entering x.0 x.1 e l in
          let n = u.entering in
          let m = u.sending in
          rw (add_task, e)
            (record {
              entering = omega arith;
              sending = omega arith;
              queued = u.queued;
              in_hand = u.in_hand;
              opened = u.opened;
              zlog = u.zlog;
              files = u.files;
            })
    ]

    pub send-IsUntouched : (i : ℕ) → IsUntouched l (send p i s)
    unfolding send
    send-IsUntouched i = elim (Option-cases (take_out i s.sending)) [
      | inl e ↦ simp (send, e) u
      | inr (x, e) ↦
          let c = take_out-count i s.sending x.0 x.1 e l in
          let n = u.sending in
          let m = u.queued in
          elim (Bool-cases (ltb (length s.tolog_ch) capacity)) [
            | inl room ↦
                rw (send, e, room)
                  (record {
                    entering = u.entering;
                    sending = omega arith;
                    queued = omega (arith, count-append l s.tolog_ch (x.0 ∷ []));
                    in_hand = u.in_hand;
                    opened = u.opened;
                    zlog = u.zlog;
                    files = u.files;
                  })
            | inr full ↦
                rw (send, e, full)
                  (record {
                    entering = u.entering;
                    sending = omega arith;
                    queued = u.queued;
                    in_hand = u.in_hand;
                    opened = u.opened;
                    zlog = u.zlog;
                    files = u.files;
                  })
          ]
    ]

    pub receive-IsUntouched : IsUntouched l (receive p s)
    unfolding receive
    receive-IsUntouched = elim (Option-cases s.in_hand) [
      | inr (m, e) ↦ simp (receive, e) u
      | inl e ↦ elim (List-cases s.tolog_ch) [
        | inl f ↦ simp (receive, e, f) u
        | inr (m, rest, f) ↦
            let n = ap (count l) (sym f) ∙ u.queued in
            rw (receive, e, f)
              (record {
                entering = u.entering;
                sending = u.sending;
                queued = omega arith;
                in_hand = omega arith;
                opened = u.opened;
                zlog = u.zlog;
                files = u.files;
              })
      ]
    ]

    pub write-IsUntouched :
        (opens : Bool) (random : p.Random) → IsUntouched l (write p opens random s)
    unfolding write
    write-IsUntouched opens random = elim (Option-cases s.in_hand) [
      | inl e ↦ simp (write, e) u
      | inr (m, e) ↦ elim (Bool-cases (l == m.logger)) [
        | inl own ↦
            let n = ap (held l) (sym e) ∙ u.in_hand in let n = rw own at n in absurd (omega arith)
        | inr other ↦ elim (Bool-cases (s.opened m.logger || opens)) [
          | inl ready ↦
              rw (write, e, ready)
                (record {
                  entering = u.entering;
                  sending = u.sending;
                  queued = u.queued;
                  in_hand = refl;
                  opened = rw other u.opened;
                  zlog = rw other u.zlog;
                  files = rw other u.files;
                })
          | inr failed ↦
              rw (write, e, failed)
                (record {
                  entering = u.entering;
                  sending = u.sending;
                  queued = u.queued;
                  in_hand = refl;
                  opened = rw other u.opened;
                  zlog = rw other u.zlog;
                  files = u.files;
                })
        ]
      ]
    ]
