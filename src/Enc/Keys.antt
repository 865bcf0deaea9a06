-- ===== src/Enc/Keys.antt =====
-- The texts of the keys of enc.go: a key is read from its text, and the two keys of a pair belong
-- together.
use zipologger.Base.{
  ℕ, arith, length, ◌≡◌, ◌≢◌, ap, ◌∙◌, List, [], ◌++◌, some, some-injective, >>=-eq-some, ◌>>=◌,
  All, sym, append-nil,
}
use zipologger.Base.Bytes.{IsBytes}
use zipologger.Text.Hex
use zipologger.Enc.{
  Packages, IsLawful, IsSpace, Key, new_key, encryption_key, decryption_key, new_encrypt_key,
  new_decrypt_key, encrypt_string, decrypt,
}

module _ (p : Packages) (v : IsLawful p) where
  -- The text of a public key gives the key back, with white space around it as well.
  pub new_encrypt_key-encryption_key :
      (before after : List ℕ) (k : p.PublicKey)
      → All IsSpace before
      → All IsSpace after
      → new_encrypt_key p (before ++ (encryption_key p k ++ after)) ≡ some k
  unfolding new_encrypt_key encryption_key
  new_encrypt_key-encryption_key before after k h a =
      let b = v.from_ecdsa_pub-IsBytes k in
      let seen = Hex.encode_to_string_visible (p.from_ecdsa_pub k) b in
      rw
        (
          v.trim_space_around before (Hex.encode_to_string (p.from_ecdsa_pub k)) after h seen a,
          Hex.decode_string-encode_to_string (p.from_ecdsa_pub k) b,
        )
        (v.unmarshal_pubkey-from_ecdsa_pub k)

  -- The text of a private key gives the key back, with white space around it as well.
  pub new_decrypt_key-decryption_key :
      (before after : List ℕ) (k : p.PrivateKey)
      → All IsSpace before
      → All IsSpace after
      → new_decrypt_key p (before ++ (decryption_key p k ++ after)) ≡ some k
  unfolding new_decrypt_key decryption_key
  new_decrypt_key-decryption_key before after k h a =
      let b = v.from_ecdsa-IsBytes k in
      let seen = Hex.encode_to_string_visible (p.from_ecdsa k) b in
      rw
        (
          v.trim_space_around before (Hex.encode_to_string (p.from_ecdsa k)) after h seen a,
          Hex.decode_string-encode_to_string (p.from_ecdsa k) b,
        )
        (v.to_ecdsa-from_ecdsa k)

  pub length-decryption_key : (k : p.PrivateKey) → length (decryption_key p k) ≡ 64
  unfolding decryption_key
  length-decryption_key k =
      omega (arith, v.length-from_ecdsa k, Hex.length-encode_to_string (p.from_ecdsa k))

  new_key_pair :
      (r : p.Random) (key : Key p)
      → new_key p r ≡ some key
      → key.key_encrypt ≡ p.public_key key.key_decrypt
  unfolding new_key
  new_key_pair r key e =
      let (k, _, same) =
        >>=-eq-some (p.generate_key r)
          (λ k. some (record { key_encrypt = p.public_key k; key_decrypt = k })) {b = key} e in
      let pair =
        some-injective (record { key_encrypt = p.public_key k; key_decrypt = k }) key same in
      sym (ap (λ (x : Key p). x.key_encrypt) pair)
      ∙ ap (λ (x : Key p). p.public_key x.key_decrypt) pair

  -- What is encrypted with the text of the encryption key of a new pair, if the encryption
  -- succeeds, is decrypted to the same message with the text of its decryption key, for a message
  -- of bytes that is not empty.
  pub decrypt-encrypt_string :
      (r seed : p.Random) (key : Key p) (message c : List ℕ)
      → new_key p r ≡ some key
      → IsBytes message
      → message ≢ []
      → new_encrypt_key p (encryption_key p key.key_encrypt)
          >>= (λ k. encrypt_string p seed k message)
        ≡ some c
      → new_decrypt_key p (decryption_key p key.key_decrypt) >>= (λ k. decrypt p k c) ≡ some message
  unfolding encrypt_string decrypt
  decrypt-encrypt_string r seed key message c e b n h =
      let own : new_encrypt_key p (encryption_key p key.key_encrypt) ≡ some key.key_encrypt =
        ap (new_encrypt_key p) (sym (append-nil (encryption_key p key.key_encrypt)))
        ∙ new_encrypt_key-encryption_key [] [] key.key_encrypt tt tt in
      let other : new_decrypt_key p (decryption_key p key.key_decrypt) ≡ some key.key_decrypt =
        ap (new_decrypt_key p) (sym (append-nil (decryption_key p key.key_decrypt)))
        ∙ new_decrypt_key-decryption_key [] [] key.key_decrypt tt tt in
      let h = rw (own, new_key_pair r key e) at h in
      rw other (v.decrypt-encrypt seed key.key_decrypt message c b n h)
