-- ===== src/Decrypter/Log.antt =====
-- The decrypter on the lines of a log: plain lines are left out, and encrypted ones are decrypted.
use zipologger.Base.{
  ℕ, ◌+◌, ◌*◌, ◌/◌, ◌≤◌, ◌<◌, ◌≡◌, ◌≢◌, refl, sym, ap, ◌∙◌, arith, true, false, ◌==◌, ltb, ◌++◌,
  List, [], ◌∷◌, length, append_assoc, append-nil, none, some, All, some-injective, subst,
}
use zipologger.Base.Bytes.{IsBytes}
use zipologger.Text.Base64
use zipologger.Text.Lines.{
  scan, unlines, IsLine, scan-unlines, scan_cut, max_scan_token_size, drop_cr, drop_cr_lem,
}
use zipologger.Enc.{Packages, IsLawful, decryption_key, new_decrypt_key, decrypt, encrypt_string}
use zipologger.Enc.Keys.{new_decrypt_key-decryption_key, length-decryption_key}
use zipologger.Decrypter.{Status, decrypt_lines, main}

-- The length from which the line of an encrypted message does not fit the scanner.
abbrev pub long_message : ℕ
long_message = 49039

All-append : (ls more : List (List ℕ)) → All IsLine ls → All IsLine more → All IsLine (ls ++ more)
All-append [] more h w = w
All-append (l ∷ ls) more h w = (h.0, All-append ls more h.1 w)

drop_cr_nil : drop_cr [] ≡ []
unfolding drop_cr
drop_cr_nil = refl

module _ (p : Packages) where
  -- The lines of a log, and the messages that are encrypted in it under the public key of `k`. A
  -- plain line is one that is not base64, as it is after a date.
  pub data Log (k : p.PrivateKey) : List (List ℕ) → List (List ℕ) → Type 0 where
    empty : Log k [] []
    plain :
        (l : List ℕ) (ls ms : List (List ℕ))
        → IsLine l
        → Base64.decode_string l ≡ none
        → Log k ls ms
        → Log k (l ∷ ls) ms
    encrypted :
        (r : p.Random) (m c : List ℕ) (ls ms : List (List ℕ))
        → IsBytes m
        → m ≢ []
        → length m < long_message
        → encrypt_string p r (p.public_key k) m ≡ some c
        → Log k ls ms
        → Log k (Base64.encode_to_string c ∷ ls) (m ∷ ms)

  module _ (v : IsLawful p) (k : p.PrivateKey) where
    encode_to_string-length :
        (r : p.Random) (m c : List ℕ)
        → m ≢ []
        → encrypt_string p r (p.public_key k) m ≡ some c
        → length (Base64.encode_to_string c) ≡ (4 * length m + 454) / 3
    unfolding encrypt_string
    encode_to_string-length r m c n e =
        let long = v.encrypt_length r (p.public_key k) m c n e in
        omega (arith, long, Base64.length-encode_to_string c)

    -- The line of a message that is not too long can be scanned.
    encode_to_string-IsLine :
        (r : p.Random) (m c : List ℕ)
        → IsBytes m
        → m ≢ []
        → length m < long_message
        → encrypt_string p r (p.public_key k) m ≡ some c
        → IsLine (Base64.encode_to_string c)
    unfolding encrypt_string
    encode_to_string-IsLine r m c b n h e =
        let seen =
          Base64.encode_to_string_printable c (v.encrypt-IsBytes r (p.public_key k) m c b e) in
        record {
          one_line = (drop_cr_lem (Base64.encode_to_string c) seen).0;
          no_cr = (drop_cr_lem (Base64.encode_to_string c) seen).1;
          short = omega (arith, encode_to_string-length r m c n e);
        }

    Log-IsLine : (ls ms : List (List ℕ)) → Log k ls ms → All IsLine ls
    Log-IsLine ls ms Log.empty = tt
    Log-IsLine ls ms (Log.plain l ls' ms' h e g) = (h, Log-IsLine ls' ms' g)
    Log-IsLine ls ms (Log.encrypted r m c ls' ms' b n h e g) =
        (encode_to_string-IsLine r m c b n h e, Log-IsLine ls' ms' g)

    joined : (out m u : List ℕ) → (out ++ (m ++ 10 ∷ [])) ++ u ≡ out ++ (m ++ 10 ∷ u)
    joined out m u =
        append_assoc out (m ++ 10 ∷ []) u
        ∙ ap (λ (x : List ℕ). out ++ x) (append_assoc m (10 ∷ []) u)

    -- The loop writes the messages of a log, and goes on with what is behind it.
    decrypt_lines_lem :
        (ls ms more : List (List ℕ)) (out : List ℕ)
        → Log k ls ms
        → decrypt_lines p k (ls ++ more) out ≡ decrypt_lines p k more (out ++ unlines ms)
    unfolding decrypt_lines encrypt_string decrypt
    decrypt_lines_lem ls ms more out Log.empty = ap (decrypt_lines p k more) (sym (append-nil out))
    decrypt_lines_lem ls ms more out (Log.plain l ls' ms' h e g) =
        rw (decrypt_lines, e) (decrypt_lines_lem ls' ms' more out g)
    decrypt_lines_lem ls ms more out (Log.encrypted r m c ls' ms' b n h e g) =
        let back : Base64.decode_string (Base64.encode_to_string c) ≡ some c =
          Base64.decode_string-encode_to_string c (v.encrypt-IsBytes r (p.public_key k) m c b e) in
        let opened : p.decrypt k c ≡ some m = v.decrypt-encrypt r k m c b n e in
        rw (decrypt_lines, back, opened)
          (decrypt_lines_lem ls' ms' more (out ++ (m ++ 10 ∷ [])) g
            ∙ ap (decrypt_lines p k more) (joined out m (unlines ms')))

    -- The program with the text of the key, on a file that it can open.
    main_lem :
        (file text : List ℕ)
        → file ≢ []
        → main p file (decryption_key p k) (some text) true ≡ decrypt_lines p k (scan text) []
    unfolding main
    main_lem [] text n = absurd (n refl)
    main_lem (c ∷ cs) text n =
        let long : ltb (length (decryption_key p k)) 10 ≡ false =
          ground (arith, length-decryption_key p v k) in
        let some_file : (length (c ∷ cs) == 0) ≡ false = ground arith in
        let read : new_decrypt_key p (decryption_key p k) ≡ some k =
          ap (new_decrypt_key p) (sym (append-nil (decryption_key p k)))
          ∙ new_decrypt_key-decryption_key p v [] [] k tt tt in
        rw (main, some_file, long, read) refl

    -- Of a log whose lines are plain lines that are not base64, and encryptions under the public
    -- key of `k` of messages that are not empty and shorter than 49039 bytes, the program with the
    -- text of the private key `k` writes the encrypted messages in their order, each with a
    -- newline, and nothing for the plain lines.
    pub main-Log :
        (file : List ℕ) (ls ms : List (List ℕ))
        → file ≢ []
        → Log k ls ms
        → main p file (decryption_key p k) (some (unlines ls)) true
          ≡ record { status = Status.finished; decfile = some (unlines ms) }
    unfolding decrypt_lines
    main-Log file ls ms n g =
        main_lem file (unlines ls) n
        ∙ ap (λ (x : List (List ℕ)). decrypt_lines p k x [])
            (scan-unlines ls (Log-IsLine ls ms g) ∙ sym (append-nil ls))
        ∙ decrypt_lines_lem ls ms [] [] g

    -- Behind such a log, the line of an encrypted message of 49039 bytes or more ends the
    -- decryption as if the log ended before it: the program reports success, and neither this
    -- message nor anything behind it is written.
    pub main_long :
        (file : List ℕ) (ls ms : List (List ℕ)) (r : p.Random) (m c rest : List ℕ)
        → file ≢ []
        → Log k ls ms
        → IsBytes m
        → long_message ≤ length m
        → encrypt_string p r (p.public_key k) m ≡ some c
        → main p file
            (decryption_key p k)
            (some (unlines ls ++ (Base64.encode_to_string c ++ 10 ∷ rest)))
            true
          ≡ record { status = Status.finished; decfile = some (unlines ms) }
    unfolding decrypt_lines encrypt_string
    main_long file ls ms r m c rest n g b h e =
        let some_text : m ≢ [] = λ (z : m ≡ []). absurd (omega (arith, ap length z)) in
        let seen =
          Base64.encode_to_string_printable c (v.encrypt-IsBytes r (p.public_key k) m c b e) in
        let too_long : max_scan_token_size ≤ length (Base64.encode_to_string c) =
          omega (arith, encode_to_string-length r m c some_text e) in
        main_lem file (unlines ls ++ (Base64.encode_to_string c ++ 10 ∷ rest)) n
        ∙ ap (λ (x : List (List ℕ)). decrypt_lines p k x [])
            (scan_cut ls (Base64.encode_to_string c) rest (Log-IsLine ls ms g)
                (drop_cr_lem (Base64.encode_to_string c) seen).0 too_long
              ∙ sym (append-nil ls))
        ∙ decrypt_lines_lem ls ms [] [] g

    -- Behind such a log, the line of an encrypted message that is empty, with lines behind it that
    -- fit the scanner, stops the program with a decryption error, and no message behind it is
    -- written.
    pub main_empty :
        (file : List ℕ) (ls ms more : List (List ℕ)) (r : p.Random)
        → file ≢ []
        → Log k ls ms
        → All IsLine more
        → (c : List ℕ) → encrypt_string p r (p.public_key k) [] ≡ some c
        → main p file
            (decryption_key p k)
            (some (unlines (ls ++ Base64.encode_to_string c ∷ more)))
            true
          ≡ record { status = Status.decryption_error; decfile = some (unlines ms) }
    unfolding decrypt_lines encrypt_string decrypt Base64.encode_to_string Base64.decode_string
        Base64.decode_groups Base64.without_newlines
    main_empty file ls ms more r n g w c e =
        let nothing : [] ≡ c = some-injective [] c (sym (v.encrypt_empty r (p.public_key k)) ∙ e) in
        let blank : IsLine [] = record {
          one_line = tt;
          no_cr = drop_cr_nil;
          short = omega arith;
        } in
        let lines : All IsLine (ls ++ [] ∷ more) =
          All-append ls ([] ∷ more) (Log-IsLine ls ms g) (blank, w) in
        subst
          (λ (x : List ℕ).
            main p file (decryption_key p k)
              (some (unlines (ls ++ Base64.encode_to_string x ∷ more))) true
            ≡ record { status = Status.decryption_error; decfile = some (unlines ms) })
          nothing
          (main_lem file (unlines (ls ++ [] ∷ more)) n
            ∙ ap (λ (x : List (List ℕ)). decrypt_lines p k x [])
                (scan-unlines (ls ++ [] ∷ more) lines)
            ∙ decrypt_lines_lem ls ms ([] ∷ more) [] g
            ∙ rw (decrypt_lines, v.decrypt_empty k) refl)
