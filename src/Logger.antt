-- ===== src/Logger.antt =====
-- logger.go and logger_enc.go: the loggers of a program, the channel that they share, and the
-- goroutine that writes. A call of `print` is three steps, a call of `Wait` three, and a round of
-- the goroutine two; they may interleave in any order.
pub mod Line
pub mod Run
pub mod Count
pub mod Counted
pub mod Tasks
pub mod Drain
pub mod Ledger
pub mod Moves
pub mod Refine
pub mod Ends
pub mod Lifecycle
pub mod Closing
pub mod Quiet
pub mod Stretches
pub mod Untouched
mod Tests
use zipologger.Base.{
  ℕ, zero, suc, ◌+◌, ◌-◌, Bool, true, false, ◌||◌, ◌&&◌, ◌==◌, if◌then◌else◌, ltb,
}
use zipologger.Base.{List, [], ◌∷◌, ◌++◌, length, Option, none, some, ◌>>=◌}
use zipologger.Enc.{Packages, new_encrypt_key}
use zipologger.Logger.Line.{line}

-- `loggerMessage`, with the number of its logger, and its text as bytes.
pub record Message : Type 0 where
  pub logger : ℕ
  pub msg : List ℕ

-- A call of `print`: its message, what `formatCaller` returns to it, and the current time in the
-- format of the log.
pub record Call : Type 0 where
  pub of : Message
  pub caller : List ℕ
  pub now : List ℕ

-- The size of `tologCh`.
abbrev pub capacity : ℕ
capacity = 10000

-- `f` with the value at `l` replaced.
abbrev pub update {ℓ} : {A : Type ℓ} → (ℕ → A) → ℕ → A → ℕ → A
update f l a l' = if l' == l then a else f l'

-- The element at an index, and the others.
abbrev pub take_out : ℕ → List Message → Option (Message × List Message)
take_out i [] = none
take_out zero (m ∷ ms) = some (m, ms)
take_out (suc i) (m ∷ ms) = take_out i ms >>= λ (x, rest). some (x, m ∷ rest)

module _ (p : Packages) where
  -- The fields of the loggers by their number, the channel and the message that the goroutine has
  -- taken from it, the files, the output to the terminal, and the calls of `print` under way:
  -- `entering` have passed the test of `waitStarted`, `sending` have added their task. Of a call of
  -- `Wait`, `wait_returned` says that `logTasks.Wait` has returned.
  pub record System : Type 0 where
    pub entering : List Message
    pub sending : List Message
    pub tolog_ch : List Message
    pub in_hand : Option Message
    pub log_tasks : ℕ → ℕ
    pub wait_started : ℕ → Bool
    pub wait_returned : ℕ → Bool
    pub opened : ℕ → Bool
    pub zlog : ℕ → Bool
    pub closes : ℕ → ℕ
    pub files : ℕ → List (List ℕ)
    pub encryption_key : ℕ → Option p.PublicKey
    pub global_key : Option p.PublicKey
    pub log_source_path : ℕ → Bool
    pub log_date_time : ℕ → Bool
    pub to_stdout : ℕ → Bool
    pub also_to_stdout : Bool
    pub stdout : List (List ℕ)
    pub drop_alert : Bool
    pub alerts : ℕ

  -- The message of a call with the prefixes that the logger asks for.
  abbrev pub prefixed : System → Call → Message
  prefixed s c =
      let l = c.of.logger in
      let msg = if s.log_source_path l then c.caller ++ c.of.msg else c.of.msg in
      record { logger = l; msg = if s.log_date_time l then c.now ++ msg else msg }

  -- `print` up to its test of `waitStarted`, and the prefixes.
  unfoldable pub enter : Call → System → System
  enter c s =
      if s.wait_started c.of.logger then s else record s { entering = prefixed s c ∷ s.entering }

  -- `l.logTasks.Add(1)` of one of the calls under way, and the copy to the terminal.
  unfoldable pub add_task : ℕ → System → System
  add_task i s = elim (take_out i s.entering) [
    | none ↦ s
    | some (m, rest) ↦ record s {
      entering = rest;
      sending = m ∷ s.sending;
      log_tasks = update s.log_tasks m.logger (s.log_tasks m.logger + 1);
      stdout =
          if s.also_to_stdout || s.to_stdout m.logger then s.stdout ++ m.msg ∷ [] else s.stdout;
    }
  ]

  -- The `select`: the message is sent, or dropped with its task if the channel is full. The first
  -- drop is told on the standard error output.
  unfoldable pub send : ℕ → System → System
  send i s = elim (take_out i s.sending) [
    | none ↦ s
    | some (m, rest) ↦
        if ltb (length s.tolog_ch) capacity
        then record s { sending = rest; tolog_ch = s.tolog_ch ++ m ∷ [] }
        else record s {
          sending = rest;
          log_tasks = update s.log_tasks m.logger (s.log_tasks m.logger - 1);
          drop_alert = true;
          alerts = if s.drop_alert then s.alerts else s.alerts + 1;
        }
  ]

  -- The goroutine takes the next message.
  unfoldable pub receive : System → System
  receive s = elim s.in_hand [
    | some m ↦ s
    | none ↦ elim s.tolog_ch [ [] ↦ s | m ∷ rest ↦ record s { tolog_ch = rest; in_hand = some m } ]
  ]

  -- The rest of its round. `opens` is whether `newLogger` succeeds, if it is called.
  unfoldable pub write : Bool → p.Random → System → System
  write opens random s = elim s.in_hand [
    | none ↦ s
    | some m ↦
        let l = m.logger in
        let ready = s.opened l || opens in
        let text = line p random (s.encryption_key l) s.global_key m.msg in
        record s {
          in_hand = none;
          log_tasks = update s.log_tasks l (s.log_tasks l - 1);
          opened = update s.opened l ready;
          zlog = update s.zlog l (if s.opened l then s.zlog l else opens);
          files = if ready then update s.files l (s.files l ++ text ∷ []) else s.files;
        }
  ]

  -- `Wait` up to `l.logTasks.Wait()`.
  unfoldable pub begin_wait : ℕ → System → System
  begin_wait l s =
      if s.wait_started l then s else record s { wait_started = update s.wait_started l true }

  -- `l.logTasks.Wait()` returns in a call of `Wait`, once no task is left.
  unfoldable pub finish_tasks : ℕ → System → System
  finish_tasks l s =
      if s.wait_started l && s.log_tasks l == 0
      then record s { wait_returned = update s.wait_returned l true }
      else s

  -- The end of `Wait`.
  unfoldable pub end_wait : ℕ → System → System
  end_wait l s =
      if s.wait_returned l
      then record s {
        wait_started = update s.wait_started l false;
        wait_returned = update s.wait_returned l false;
      }
      else s

  -- `Close` behind its `Wait`, which may have returned at once: whether it closes the rotating file.
  pub close : ℕ → System → System × Bool
  close l s =
      if s.zlog l
      then (
        record s { zlog = update s.zlog l false; closes = update s.closes l (s.closes l + 1) },
        true,
      )
      else (s, false)

  -- The callback of the cache for an evicted logger, behind its `Flush`.
  pub close_evicted : ℕ → System → System
  close_evicted l s =
      if s.zlog l then record s { closes = update s.closes l (s.closes l + 1) } else s

  -- `SetEncryptionKey` with the text of a key: whether it is valid.
  pub set_encryption_key : ℕ → List ℕ → System → System × Bool
  set_encryption_key l key s = elim (new_encrypt_key p key) [
    | none ↦ (s, false)
    | some k ↦ (record s { encryption_key = update s.encryption_key l (some k) }, true)
  ]

  -- `SetGlobalEncryption`.
  pub set_global_encryption : List ℕ → System → System × Bool
  set_global_encryption key s = elim (new_encrypt_key p key) [
    | none ↦ (s, false)
    | some k ↦ (record s { global_key = some k }, true)
  ]

  -- The setters of the prefixes and of the copy to the terminal.
  pub write_source_path : ℕ → Bool → System → System
  write_source_path l b s = record s { log_source_path = update s.log_source_path l b }

  pub write_date_time : ℕ → Bool → System → System
  write_date_time l b s = record s { log_date_time = update s.log_date_time l b }

  pub set_also_to_stdout : ℕ → Bool → System → System
  set_also_to_stdout l b s = record s { to_stdout = update s.to_stdout l b }

  pub set_all_to_stdout : Bool → System → System
  set_all_to_stdout b s = record s { also_to_stdout = b }
