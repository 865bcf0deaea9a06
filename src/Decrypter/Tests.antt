-- ===== src/Decrypter/Tests.antt =====
-- The decrypter with the small instance of the packages.
use zipologger.Base.{
  ℕ, inl, ◌≡◌, refl, arith, true, false, List, [], ◌∷◌, ◌++◌, length-replicate, some, none,
  replicate,
}
use zipologger.Base.Bytes.{replicate-IsBytes}
use zipologger.Text.Base64
use zipologger.Text.Lines.{unlines, IsLine, drop_cr}
use zipologger.Enc.{decryption_key, encrypt_string}
use zipologger.Enc.Toy.{toy, toy-IsLawful}
use zipologger.Logger.{System}
use zipologger.Logger.Run.{run, initial}
use zipologger.Logger.Drain.{rounds}
use zipologger.Decrypter.{Status, main}
use zipologger.Decrypter.Log.{Log, main-Log, main_long, main_empty}
use zipologger.Decrypter.Composed.{IsSent, content, main-drain}

-- No file, a short key, a file that cannot be opened, and one whose copy cannot be created.
ends :
    (main toy [] (replicate 64 48) (some []) true
      ≡ record { status = Status.usage; decfile = none })
    × (main toy (102 ∷ []) (replicate 9 48) (some []) true
        ≡ record { status = Status.usage; decfile = none })
    × (main toy (102 ∷ []) (replicate 64 48) none true
        ≡ record { status = Status.open_failed; decfile = none })
    × (main toy (102 ∷ []) (replicate 64 48) (some []) false
        ≡ record { status = Status.create_failed; decfile = none })
unfolding main
ends = (refl, refl, refl, refl)

-- "a-b" is a plain line, "hi" an encrypted one.
abbrev plain_line : List ℕ
plain_line = 97 ∷ 45 ∷ 98 ∷ []

plain_line-IsLine : IsLine plain_line
unfolding drop_cr
plain_line-IsLine = record {
  one_line =
      (λ e. absurd (omega arith), (λ e. absurd (omega arith), (λ e. absurd (omega arith), tt)));
  no_cr = refl;
  short = omega arith;
}

not_base64 : Base64.decode_string plain_line ≡ none
unfolding Base64.decode_string Base64.decode_groups Base64.without_newlines Base64.bits_of
not_base64 = refl

abbrev hello : List ℕ
hello = 104 ∷ 105 ∷ []

abbrev sealed : List ℕ
sealed = replicate 112 4 ++ 1 ∷ hello

hello_encrypts : encrypt_string toy 1 true hello ≡ some sealed
unfolding encrypt_string
hello_encrypts = refl

hello-Log : Log toy true (plain_line ∷ Base64.encode_to_string sealed ∷ []) (hello ∷ [])
hello-Log =
    Log.plain plain_line (Base64.encode_to_string sealed ∷ []) (hello ∷ []) plain_line-IsLine
      not_base64
      (Log.encrypted 1 hello sealed [] [] (omega arith, (omega arith, tt)) (λ e. cc) (omega arith)
        hello_encrypts Log.empty)

main-Log_example :
    main toy
      (102 ∷ [])
      (decryption_key toy true)
      (some (unlines (plain_line ∷ Base64.encode_to_string sealed ∷ [])))
      true
    ≡ record { status = Status.finished; decfile = some (unlines (hello ∷ [])) }
main-Log_example =
    main-Log toy toy-IsLawful true (102 ∷ []) (plain_line ∷ Base64.encode_to_string sealed ∷ [])
      (hello ∷ []) (λ e. cc) hello-Log

nothing_encrypts : encrypt_string toy 1 true [] ≡ some []
unfolding encrypt_string
nothing_encrypts = refl

main_empty_example :
    main toy
      (102 ∷ [])
      (decryption_key toy true)
      (some (
        unlines (
          (plain_line ∷ Base64.encode_to_string sealed ∷ [])
          ++ Base64.encode_to_string [] ∷ plain_line ∷ [])))
      true
    ≡ record { status = Status.decryption_error; decfile = some (unlines (hello ∷ [])) }
main_empty_example =
    main_empty toy toy-IsLawful true (102 ∷ []) (plain_line ∷ Base64.encode_to_string sealed ∷ [])
      (hello ∷ []) (plain_line ∷ []) 1 (λ e. cc) hello-Log (plain_line-IsLine, tt) []
      nothing_encrypts

-- Logger 1 has "hi\n" in the channel, and logger 2 another message.
abbrev loaded : System toy
loaded = record (initial toy (λ l. false)) {
  tolog_ch =
      record { logger = 1; msg = 104 ∷ 105 ∷ 10 ∷ [] } ∷ record { logger = 2; msg = [] } ∷ [];
  log_tasks = λ l. 1;
  encryption_key = λ l. some true;
}

loaded-IsSent : IsSent toy true 1 (1 ∷ 0 ∷ []) loaded.tolog_ch
loaded-IsSent =
    IsSent.of_logger 1 (record { logger = 1; msg = 104 ∷ 105 ∷ 10 ∷ [] }) (0 ∷ [])
      (record { logger = 2; msg = [] } ∷ []) sealed refl (omega arith, (omega arith, tt)) (λ e. cc)
      (omega arith) hello_encrypts
      (IsSent.of_other 0 (record { logger = 2; msg = [] }) [] [] refl IsSent.no_messages)

main-drain_example :
    main toy
      (102 ∷ [])
      (decryption_key toy true)
      (some (content ((run toy (rounds toy (1 ∷ 0 ∷ [])) loaded).files 1)))
      true
    ≡ record {
      status = Status.finished;
      decfile = some (
          content (
            (run toy
                (rounds toy (1 ∷ 0 ∷ []))
                (record loaded { encryption_key = λ i. none; global_key = none })).files
              1));
    }
main-drain_example =
    main-drain toy toy-IsLawful true 1 (1 ∷ 0 ∷ []) loaded (102 ∷ []) (λ e. cc) refl refl refl
      (inl refl) loaded-IsSent

-- A message of 49039 bytes, and its encryption.
abbrev long : List ℕ
long = replicate 49039 0

abbrev sealed_long : List ℕ
sealed_long = replicate 112 4 ++ 1 ∷ long

encrypts_long : encrypt_string toy 1 true long ≡ some sealed_long
unfolding encrypt_string
encrypts_long = refl

main_long_example :
    main toy
      (102 ∷ [])
      (decryption_key toy true)
      (some (
        unlines (plain_line ∷ Base64.encode_to_string sealed ∷ [])
        ++ (Base64.encode_to_string sealed_long ++ 10 ∷ plain_line)))
      true
    ≡ record { status = Status.finished; decfile = some (unlines (hello ∷ [])) }
main_long_example =
    main_long toy toy-IsLawful true (102 ∷ []) (plain_line ∷ Base64.encode_to_string sealed ∷ [])
      (hello ∷ []) 1 long sealed_long plain_line (λ e. cc) hello-Log (replicate-IsBytes 49039)
      (omega (arith, length-replicate {A = ℕ} 49039 0)) encrypts_long
