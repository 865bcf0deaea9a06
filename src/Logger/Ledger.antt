-- ===== src/Logger/Ledger.antt =====
-- What a logger promises, whatever the others do: a queue of accepted messages, and a file with the
-- lines of those that were taken from its front. A message may be lost, since a file may fail to
-- open, but none is written twice or out of order.
use zipologger.Base.{ℕ, ◌≡◌, ◌⊎◌, sym, ap, ◌∙◌, List, [], ◌∷◌, ◌++◌, append-nil, append_assoc, some}
use zipologger.Text.Base64
use zipologger.Enc.{Packages, encrypt_string}
use zipologger.Logger.Line.{trim}

-- The messages of a logger that wait for the goroutine, and the lines of its file.
pub record Ledger : Type 0 where
  pub pending : List (List ℕ)
  pub written : List (List ℕ)

module _ (p : Packages) where
  -- A line for a message: the text without its newlines at the end, plain or encrypted under some
  -- key, in one line.
  abbrev pub IsLineOf : List ℕ → List ℕ → Type 0
  IsLineOf msg text =
      (text ≡ trim msg ++ 10 ∷ [])
      ⊎ ((random : p.Random) × (key : p.PublicKey) × (ret : List ℕ) × (encrypt_string p random key
              (trim msg)
            ≡ some ret)
          × (text ≡ Base64.encode_to_string ret ++ 10 ∷ []))

  -- A move, with the messages that it accepts.
  pub data Move (a b : Ledger) : List (List ℕ) → Type 0 where
    stays : b.pending ≡ a.pending → b.written ≡ a.written → Move a b []
    accepts :
        (msg : List ℕ)
        → b.pending ≡ a.pending ++ msg ∷ []
        → b.written ≡ a.written
        → Move a b (msg ∷ [])
    delivers :
        (msg text : List ℕ)
        → IsLineOf msg text
        → a.pending ≡ msg ∷ b.pending
        → b.written ≡ a.written ++ text ∷ []
        → Move a b []
    loses : (msg : List ℕ) → a.pending ≡ msg ∷ b.pending → b.written ≡ a.written → Move a b []

  pub data Moves : Ledger → Ledger → List (List ℕ) → Type 0 where
    done : (a : Ledger) → Moves a a []
    then :
        (a b c : Ledger) (new more : List (List ℕ))
        → Move a b new
        → Moves b c more
        → Moves a c (new ++ more)

  -- Lines of some of the messages, in their order.
  pub data Lines : List (List ℕ) → List (List ℕ) → Type 0 where
    end : Lines [] []
    written :
        (msg text : List ℕ) (msgs texts : List (List ℕ))
        → IsLineOf msg text
        → Lines msgs texts
        → Lines (msg ∷ msgs) (text ∷ texts)
    lost : (msg : List ℕ) (msgs texts : List (List ℕ)) → Lines msgs texts → Lines (msg ∷ msgs) texts

  -- What was pending or accepted is what was handled, and then what is pending: the queue is first
  -- in, first out.
  pub record IsFifo (a b : Ledger) (accepted : List (List ℕ)) : Type 0 where
    pub handled : List (List ℕ)
    pub texts : List (List ℕ)
    pub queue : a.pending ++ accepted ≡ handled ++ b.pending
    pub file : b.written ≡ a.written ++ texts
    pub lines : Lines handled texts

  after :
      (a b c : Ledger) (new more : List (List ℕ))
      → Move a b new
      → IsFifo b c more
      → IsFifo a c (new ++ more)
  after a b c new more (Move.stays q w) f = record {
    handled = f.handled;
    texts = f.texts;
    queue = ap (λ (x : List (List ℕ)). x ++ more) (sym q) ∙ f.queue;
    file = f.file ∙ ap (λ (x : List (List ℕ)). x ++ f.texts) w;
    lines = f.lines;
  }
  after a b c new more (Move.accepts msg q w) f = record {
    handled = f.handled;
    texts = f.texts;
    queue =
        sym (append_assoc a.pending (msg ∷ []) more)
        ∙ ap (λ (x : List (List ℕ)). x ++ more) (sym q)
        ∙ f.queue;
    file = f.file ∙ ap (λ (x : List (List ℕ)). x ++ f.texts) w;
    lines = f.lines;
  }
  after a b c new more (Move.delivers msg text l q w) f = record {
    handled = msg ∷ f.handled;
    texts = text ∷ f.texts;
    queue = ap (λ (x : List (List ℕ)). x ++ more) q ∙ ap (◌∷◌ msg) f.queue;
    file =
        f.file
        ∙ ap (λ (x : List (List ℕ)). x ++ f.texts) w
        ∙ append_assoc a.written (text ∷ []) f.texts;
    lines = Lines.written msg text f.handled f.texts l f.lines;
  }
  after a b c new more (Move.loses msg q w) f = record {
    handled = msg ∷ f.handled;
    texts = f.texts;
    queue = ap (λ (x : List (List ℕ)). x ++ more) q ∙ ap (◌∷◌ msg) f.queue;
    file = f.file ∙ ap (λ (x : List (List ℕ)). x ++ f.texts) w;
    lines = Lines.lost msg f.handled f.texts f.lines;
  }

  -- Whatever a logger promises is first in, first out.
  pub Moves-IsFifo :
      (a b : Ledger) (accepted : List (List ℕ)) → Moves a b accepted → IsFifo a b accepted
  Moves-IsFifo a b accepted (Moves.done c) = record {
    handled = [];
    texts = [];
    queue = append-nil c.pending;
    file = sym (append-nil c.written);
    lines = Lines.end;
  }
  Moves-IsFifo a b accepted (Moves.then x y z new more m ms) =
      after x y z new more m (Moves-IsFifo y z more ms)
