-- ===== src/Enc/Tests.antt =====
-- The keys of enc.go with the small instance of the packages.
use zipologger.Base.{
  ℕ, ◌≡◌, refl, inl, arith, true, false, List, [], ◌∷◌, ◌++◌, some, none, ◌>>=◌, replicate,
}
use zipologger.Text.Hex
use zipologger.Enc.{
  Key, new_key, encryption_key, decryption_key, new_encrypt_key, new_decrypt_key, encrypt_string,
  decrypt,
}
use zipologger.Enc.Toy.{toy, toy-IsLawful}
use zipologger.Enc.Keys.{new_decrypt_key-decryption_key, decrypt-encrypt_string}

-- A text with white space around it, and texts of the wrong length and of wrong characters.
trimmed_key : new_encrypt_key toy (32 ∷ 48 ∷ 49 ∷ 10 ∷ []) ≡ some true
unfolding new_encrypt_key Hex.decode_string Hex.value_of
trimmed_key = refl

odd_key : new_encrypt_key toy (48 ∷ []) ≡ none
unfolding new_encrypt_key Hex.decode_string Hex.value_of
odd_key = refl

short_key : new_decrypt_key toy (48 ∷ 48 ∷ []) ≡ none
unfolding new_decrypt_key Hex.decode_string Hex.value_of
short_key = refl

new_decrypt_key-decryption_key_example :
    new_decrypt_key toy ((9 ∷ []) ++ (decryption_key toy false ++ 13 ∷ 10 ∷ [])) ≡ some false
new_decrypt_key-decryption_key_example =
    new_decrypt_key-decryption_key toy toy-IsLawful (9 ∷ []) (13 ∷ 10 ∷ []) false
      (inl (omega arith, omega arith), tt)
      (inl (omega arith, omega arith), (inl (omega arith, omega arith), tt))

abbrev pair : Key toy
pair = record { key_encrypt = true; key_decrypt = true }

abbrev hello : List ℕ
hello = 104 ∷ 105 ∷ []

abbrev sealed : List ℕ
sealed = replicate 112 4 ++ 1 ∷ hello

made : new_key toy 1 ≡ some pair
unfolding new_key
made = refl

enciphered :
    new_encrypt_key toy (encryption_key toy true) >>= (λ k. encrypt_string toy 1 k hello)
    ≡ some sealed
unfolding new_encrypt_key encryption_key encrypt_string Hex.decode_string Hex.value_of
    Hex.encode_to_string Hex.digit_of
enciphered = refl

decrypt-encrypt_string_example :
    new_decrypt_key toy (decryption_key toy true) >>= (λ k. decrypt toy k sealed) ≡ some hello
decrypt-encrypt_string_example =
    decrypt-encrypt_string toy toy-IsLawful 1 1 pair hello sealed made
      (omega arith, (omega arith, tt)) (λ e. cc) enciphered
