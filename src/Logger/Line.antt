-- ===== src/Logger/Line.antt =====
-- logger.go: the line that the goroutine writes for a message.
use zipologger.Base.{ℕ, ◌==◌, if◌then◌else◌, List, [], ◌∷◌, ◌++◌, Option, none, some}
use zipologger.Text.Base64
use zipologger.Enc.{Packages, encrypt_string}

-- The text without the newlines at its end.
abbrev pub trim : List ℕ → List ℕ
trim [] = []
trim (c ∷ cs) = attach c (trim cs)
  where
    attach : ℕ → List ℕ → List ℕ
    attach c [] = if c == 10 then [] else c ∷ []
    attach c (d ∷ ds) = c ∷ d ∷ ds

module _ (p : Packages) where
  -- The line that the goroutine writes.
  unfoldable pub line : p.Random → Option p.PublicKey → Option p.PublicKey → List ℕ → List ℕ
  line random own global msg = elim (or_else own global) [
    | none ↦ trim msg ++ 10 ∷ []
    | some key ↦ elim (encrypt_string p random key (trim msg)) [
      | none ↦ trim msg ++ 10 ∷ []
      | some ret ↦ Base64.encode_to_string ret ++ 10 ∷ []
    ]
  ]
    where
      or_else : Option p.PublicKey → Option p.PublicKey → Option p.PublicKey
      or_else none global = global
      or_else (some key) global = some key
