-- ===== src/Decrypter/Composed.antt =====
-- The logger and the decrypter together: decrypting the file that a logger writes with a key gives
-- the file that it writes without one.
use zipologger.Base.{
  ℕ, ◌<◌, ◌≡◌, ◌≢◌, ◌⊎◌, inl, inr, refl, ap, ◌∙◌, true, false, ◌==◌, ==_iff, subst, List, [], ◌∷◌,
  ◌++◌, length, append_assoc, Option, none, some, if◌then◌else◌,
}
use zipologger.Base.Bytes.{IsBytes}
use zipologger.Text.Base64
use zipologger.Text.Lines.{unlines}
use zipologger.Enc.{Packages, IsLawful, decryption_key, encrypt_string}
use zipologger.Logger.{Message, System}
use zipologger.Logger.Line.{trim, line}
use zipologger.Logger.Run.{run}
use zipologger.Logger.Drain.{rounds, lines_of, drain_lem}
use zipologger.Decrypter.{Status, main}
use zipologger.Decrypter.Log.{Log, long_message, main-Log}

-- The bytes of a file from the texts that were written to it.
abbrev pub content : List (List ℕ) → List ℕ
content [] = []
content (t ∷ ts) = t ++ content ts

module _ (p : Packages) where
  -- The messages of logger `l` are bytes, not empty without the newlines at their end, and not too
  -- long, and their encryption with the random input of their round succeeds.
  pub data IsSent (k : p.PrivateKey) (l : ℕ) : List p.Random → List Message → Type 0 where
    no_messages : IsSent k l [] []
    of_logger :
        (r : p.Random) (m : Message) (rs : List p.Random) (ms : List Message) (c : List ℕ)
        → (l == m.logger) ≡ true
        → IsBytes (trim m.msg)
        → trim m.msg ≢ []
        → length (trim m.msg) < long_message
        → encrypt_string p r (p.public_key k) (trim m.msg) ≡ some c
        → IsSent k l rs ms
        → IsSent k l (r ∷ rs) (m ∷ ms)
    of_other :
        (r : p.Random) (m : Message) (rs : List p.Random) (ms : List Message)
        → (l == m.logger) ≡ false
        → IsSent k l rs ms
        → IsSent k l (r ∷ rs) (m ∷ ms)

  -- The key that the goroutine takes for logger `l`: its own, or else the global one.
  abbrev pub TakesKey : System p → ℕ → p.PublicKey → Type 0
  TakesKey s l key =
      (s.encryption_key l ≡ some key) ⊎ ((s.encryption_key l ≡ none) × (s.global_key ≡ some key))

  -- The texts without the newlines at their end.
  abbrev trimmed : ℕ → List Message → List (List ℕ)
  trimmed l [] = []
  trimmed l (m ∷ ms) = let rest = trimmed l ms in if l == m.logger then trim m.msg ∷ rest else rest

  line_keyed :
      (r : p.Random) (own global : Option p.PublicKey) (key : p.PublicKey) (msg c : List ℕ)
      → (own ≡ some key) ⊎ ((own ≡ none) × (global ≡ some key))
      → encrypt_string p r key (trim msg) ≡ some c
      → line p r own global msg ≡ Base64.encode_to_string c ++ 10 ∷ []
  unfolding line
  line_keyed r own global key msg c (inl e) h = rw (e, line, h) refl
  line_keyed r own global key msg c (inr (e, g)) h = rw (e, g, line, h) refl

  -- The lines with the key, and without one.
  keyed :
      (k : p.PrivateKey) (l : ℕ) (own : ℕ → Option p.PublicKey) (global : Option p.PublicKey)
      (rs : List p.Random) (ms : List Message)
      → (own l ≡ some (p.public_key k)) ⊎ ((own l ≡ none) × (global ≡ some (p.public_key k)))
      → IsSent k l rs ms
      → (ls : List (List ℕ)) × Log p k ls (trimmed l ms)
        × (content (lines_of p own global l rs ms) ≡ unlines ls)
  keyed k l own global rs ms h IsSent.no_messages = ([], Log.empty, refl)
  keyed k l own global rs ms h (IsSent.of_other r m rs' ms' e g) =
      rw (lines_of, trimmed, e) (keyed k l own global rs' ms' h g)
  keyed k l own global rs ms h (IsSent.of_logger r m rs' ms' c e b n w enc g) =
      let (ls, log, eq) = keyed k l own global rs' ms' h g in
      let same : l ≡ m.logger = (==_iff l m.logger).0 e in
      let takes =
        subst
          (λ (i : ℕ).
            (own i ≡ some (p.public_key k)) ⊎ ((own i ≡ none) × (global ≡ some (p.public_key k))))
          same h in
      let text = Base64.encode_to_string c in
      let here : content (lines_of p own global l (r ∷ rs') (m ∷ ms')) ≡ text ++ 10 ∷ unlines ls =
        rw (e, line_keyed r (own m.logger) global (p.public_key k) m.msg c takes enc, eq)
          (append_assoc text (10 ∷ []) (unlines ls)) in
      let split : Log p k (text ∷ ls) (trimmed l (m ∷ ms')) =
        rw e (Log.encrypted r (trim m.msg) c ls (trimmed l ms') b n w enc log) in
      (text ∷ ls, split, here)

  plain_lem :
      (l : ℕ) (k : p.PrivateKey) (rs : List p.Random) (ms : List Message)
      → IsSent k l rs ms
      → content (lines_of p (λ i. none) none l rs ms) ≡ unlines (trimmed l ms)
  unfolding line
  plain_lem l k rs ms IsSent.no_messages = refl
  plain_lem l k rs ms (IsSent.of_other r m rs' ms' e g) = rw e (plain_lem l k rs' ms' g)
  plain_lem l k rs ms (IsSent.of_logger r m rs' ms' c e b n w enc g) =
      rw (e, plain_lem l k rs' ms' g)
        (append_assoc (trim m.msg) (10 ∷ []) (unlines (trimmed l ms')))

  -- Where files can be opened, no message is in hand, the file of logger `l` is empty, the
  -- goroutine takes the public key of `k` for `l`, and each message of `l` in the channel, without
  -- the newlines at its end, is bytes, not empty, shorter than 49039 bytes, and its encryption
  -- succeeds: the decrypter, with the text of the private key, makes from the file that the rounds
  -- of the goroutine write for `l` the file that the same rounds write when no key is set.
  pub main-drain :
      (v : IsLawful p) (k : p.PrivateKey) (l : ℕ) (rs : List p.Random) (s : System p)
      (file : List ℕ)
      → file ≢ []
      → s.in_hand ≡ none
      → length rs ≡ length s.tolog_ch
      → s.files l ≡ []
      → TakesKey s l (p.public_key k)
      → IsSent k l rs s.tolog_ch
      → let unkeyed = record s { encryption_key = λ i. none; global_key = none } in
        main p file (decryption_key p k) (some (content ((run p (rounds p rs) s).files l))) true
        ≡ record {
          status = Status.finished;
          decfile = some (content ((run p (rounds p rs) unkeyed).files l));
        }
  main-drain v k l rs s file n h len e takes g =
      let unkeyed = record s { encryption_key = λ i. none; global_key = none } in
      let (ls, log, eq) = keyed k l s.encryption_key s.global_key rs s.tolog_ch takes g in
      let with_key : content ((run p (rounds p rs) s).files l) ≡ unlines ls =
        ap content (
          (drain_lem p s.tolog_ch rs s len h refl).2 l
          ∙ ap
              (λ (f : List (List ℕ)). f ++ lines_of p s.encryption_key s.global_key l rs s.tolog_ch)
              e)
        ∙ eq in
      let without : content ((run p (rounds p rs) unkeyed).files l)
          ≡ unlines (trimmed l s.tolog_ch) =
        ap content (
          (drain_lem p s.tolog_ch rs unkeyed len h refl).2 l
          ∙ ap (λ (f : List (List ℕ)). f ++ lines_of p (λ i. none) none l rs s.tolog_ch) e)
        ∙ plain_lem l k rs s.tolog_ch g in
      rw (with_key, without) (main-Log p v k file ls (trimmed l s.tolog_ch) n log)
