-- ===== src/Decrypter.antt =====
-- decrypter/main.go: the program that decrypts a log file.
pub mod Log
pub mod Composed
mod Tests
use zipologger.Base.{
  ℕ, Bool, ltb, ◌||◌, ◌==◌, not, if◌then◌else◌, List, [], ◌∷◌, ◌++◌, length, Option, none, some,
}
use zipologger.Text.Base64
use zipologger.Text.Lines.{scan}
use zipologger.Enc.{Packages, decrypt, new_decrypt_key}

-- How the program ends.
pub data Status : Type 0 where
  usage : Status
  open_failed : Status
  create_failed : Status
  incorrect_key : Status
  decryption_error : Status
  finished : Status

-- The end, and what stands in the `.dec` file, if it was created.
pub record Outcome : Type 0 where
  pub status : Status
  pub decfile : Option (List ℕ)

module _ (p : Packages) where
  -- The loop over the lines, after `out` has been written.
  unfoldable pub decrypt_lines : p.PrivateKey → List (List ℕ) → List ℕ → Outcome
  decrypt_lines k [] out = record { status = Status.finished; decfile = some out }
  decrypt_lines k (text ∷ texts) out = elim (Base64.decode_string text) [
    | none ↦ decrypt_lines k texts out
    | some bb ↦ elim (decrypt p k bb) [
      | none ↦ record { status = Status.decryption_error; decfile = some out }
      | some b ↦ decrypt_lines k texts (out ++ (b ++ 10 ∷ []))
    ]
  ]

  -- `main` with the flags `-f` and `-key`. `infile` is the file, if it can be opened, and `creates`
  -- is whether the `.dec` file can be created.
  unfoldable pub main : List ℕ → List ℕ → Option (List ℕ) → Bool → Outcome
  main file key infile creates =
      if length file == 0 || ltb (length key) 10
      then record { status = Status.usage; decfile = none }
      else elim infile [
        | none ↦ record { status = Status.open_failed; decfile = none }
        | some text ↦
            if not creates
            then record { status = Status.create_failed; decfile = none }
            else elim (new_decrypt_key p key) [
              | none ↦ record { status = Status.incorrect_key; decfile = some [] }
              | some k ↦ decrypt_lines k (scan text) []
            ]
      ]
