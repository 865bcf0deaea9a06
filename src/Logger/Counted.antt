-- ===== src/Logger/Counted.antt =====
-- The count of the tasks, kept by the steps of print, of the goroutine and of the key setters.
use zipologger.Base.{ℕ, ◌+◌, ◌≤◌, ◌≡◌, ap, arith, some, Option}
use zipologger.Base.{Bool, true, false, Bool-cases, inl, inr, flag, ltb, ltb→lt, if◌then◌else◌}
use zipologger.Base.{List, [], List-cases, ◌∷◌, length, length-append, Option-cases}
use zipologger.Enc.{Packages, new_encrypt_key}
use zipologger.Logger.{
  close, close_evicted, Message, System, capacity, update, take_out, add_task, send, receive, write,
  set_encryption_key, set_global_encryption,
}
use zipologger.Logger.Count.{count, held, count-append, take_out-count, raised, lowered}

module _ (p : Packages) where
  -- The tasks of each logger are its messages that are being sent, in the channel, or in the hand
  -- of the goroutine; the channel is within its capacity; a `Wait` has only returned from its tasks
  -- if it has started; and the drops are told once, if there are any.
  pub record IsCounted (s : System p) : Type 0 where
    pub tasks :
        (l : ℕ) → s.log_tasks l ≡ count l s.sending + (count l s.tolog_ch + held l s.in_hand)
    pub bounded : length s.tolog_ch ≤ capacity
    pub started : (l : ℕ) → s.wait_returned l ≡ true → s.wait_started l ≡ true
    pub told_once : s.alerts ≡ flag s.drop_alert

  pub add_task-IsCounted : (i : ℕ) (s : System p) → IsCounted s → IsCounted (add_task p i s)
  unfolding add_task
  add_task-IsCounted i s v = elim (Option-cases (take_out i s.entering)) [
    | inl e ↦ rw (add_task, e) v
    | inr (x, e) ↦
        rw (add_task, e)
          (record {
            tasks = λ l.
                raised s.log_tasks x.0.logger l (count l s.sending)
                  (count l s.tolog_ch + held l s.in_hand) (v.tasks l);
            bounded = v.bounded;
            started = v.started;
            told_once = v.told_once;
          })
  ]

  pub send-IsCounted : (i : ℕ) (s : System p) → IsCounted s → IsCounted (send p i s)
  unfolding send
  send-IsCounted i s v = elim (Option-cases (take_out i s.sending)) [
    | inl e ↦ rw (send, e) v
    | inr (x, e) ↦
        let c = take_out-count i s.sending x.0 x.1 e in
        elim (Bool-cases (ltb (length s.tolog_ch) capacity)) [
          | inl room ↦
              let below = ltb→lt (length s.tolog_ch) capacity room in
              rw (send, e, room)
                (record {
                  tasks = λ l.
                      let a = v.tasks l in omega (arith, c l, count-append l s.tolog_ch (x.0 ∷ []));
                  bounded = omega (arith, length-append s.tolog_ch (x.0 ∷ []));
                  started = v.started;
                  told_once = v.told_once;
                })
          | inr full ↦
              rw (send, e, full)
                (record {
                  tasks = λ l.
                      lowered s.log_tasks x.0.logger l
                        (count l x.1 + (count l s.tolog_ch + held l s.in_hand))
                        (omega (arith, v.tasks l, c l));
                  bounded = v.bounded;
                  started = v.started;
                  told_once = told s.drop_alert s.alerts v.told_once;
                })
        ]
  ]
    where
      told : (b : Bool) (n : ℕ) → n ≡ flag b → (if b then n else n + 1) ≡ 1
      told true n h = h
      told false n h = omega arith

  pub receive-IsCounted : (s : System p) → IsCounted s → IsCounted (receive p s)
  unfolding receive
  receive-IsCounted s v = elim (Option-cases s.in_hand) [
    | inr (m, e) ↦ rw (receive, e) v
    | inl e ↦ elim (List-cases s.tolog_ch) [
      | inl f ↦ rw (receive, e, f) v
      | inr (m, rest, f) ↦
          let bound = v.bounded in
          rw (receive, e, f)
            (record {
              tasks = λ l. omega (arith, v.tasks l, ap (held l) e, ap (count l) f);
              bounded = omega (arith, ap length f);
              started = v.started;
              told_once = v.told_once;
            })
    ]
  ]

  pub write-IsCounted :
      (opens : Bool) (random : p.Random) (s : System p)
      → IsCounted s
      → IsCounted (write p opens random s)
  unfolding write
  write-IsCounted opens random s v = elim (Option-cases s.in_hand) [
    | inl e ↦ rw (write, e) v
    | inr (m, e) ↦
        rw (write, e)
          (record {
            tasks = λ l.
                lowered s.log_tasks m.logger l (count l s.sending + (count l s.tolog_ch + 0))
                  (omega (arith, v.tasks l, ap (held l) e));
            bounded = v.bounded;
            started = v.started;
            told_once = v.told_once;
          })
  ]

  -- The fields that the count does not look at.
  pub settings-IsCounted :
      (s : System p) (entering : List Message) (own : ℕ → Option p.PublicKey)
      (global : Option p.PublicKey) (paths dates outs : ℕ → Bool) (all : Bool)
      → IsCounted s
      → IsCounted (record s {
        entering = entering;
        encryption_key = own;
        global_key = global;
        log_source_path = paths;
        log_date_time = dates;
        to_stdout = outs;
        also_to_stdout = all;
      })
  settings-IsCounted s entering own global paths dates outs all v = record {
    tasks = v.tasks;
    bounded = v.bounded;
    started = v.started;
    told_once = v.told_once;
  }

  pub set_encryption_key-IsCounted :
      (l : ℕ) (key : List ℕ) (s : System p)
      → IsCounted s
      → IsCounted (set_encryption_key p l key s).0
  unfolding set_encryption_key
  set_encryption_key-IsCounted l key s v = elim (Option-cases (new_encrypt_key p key)) [
    | inl e ↦ rw (set_encryption_key, e) v
    | inr (k, e) ↦
        rw (set_encryption_key, e)
          (settings-IsCounted s s.entering (update s.encryption_key l (some k)) s.global_key
            s.log_source_path s.log_date_time s.to_stdout s.also_to_stdout v)
  ]

  pub set_global_encryption-IsCounted :
      (key : List ℕ) (s : System p) → IsCounted s → IsCounted (set_global_encryption p key s).0
  unfolding set_global_encryption
  set_global_encryption-IsCounted key s v = elim (Option-cases (new_encrypt_key p key)) [
    | inl e ↦ rw (set_global_encryption, e) v
    | inr (k, e) ↦
        rw (set_global_encryption, e)
          (settings-IsCounted s s.entering s.encryption_key (some k) s.log_source_path
            s.log_date_time s.to_stdout s.also_to_stdout v)
  ]

  pub close-IsCounted : (l : ℕ) (s : System p) → IsCounted s → IsCounted (close p l s).0
  unfolding close
  close-IsCounted l s v = elim (Bool-cases (s.zlog l)) [
    | inl e ↦
        rw (close, e)
          (record {
            tasks = v.tasks;
            bounded = v.bounded;
            started = v.started;
            told_once = v.told_once;
          })
    | inr e ↦ rw (close, e) v
  ]

  pub close_evicted-IsCounted :
      (l : ℕ) (s : System p) → IsCounted s → IsCounted (close_evicted p l s)
  unfolding close_evicted
  close_evicted-IsCounted l s v = elim (Bool-cases (s.zlog l)) [
    | inl e ↦
        rw (close_evicted, e)
          (record {
            tasks = v.tasks;
            bounded = v.bounded;
            started = v.started;
            told_once = v.told_once;
          })
    | inr e ↦ rw (close_evicted, e) v
  ]
