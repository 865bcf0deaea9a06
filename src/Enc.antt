-- ===== src/Enc.antt =====
-- enc/enc.go: the keys and their texts.
pub mod Keys
pub mod Toy
mod Tests
use zipologger.Base.{
  ℕ, ◌+◌, ◌≤◌, ◌<◌, ◌≡◌, ◌≢◌, ◌⊎◌, ◌++◌, List, [], Option, none, some, ◌>>=◌, All, length,
}
use zipologger.Base.Bytes.{IsBytes}
use zipologger.Text.Hex

-- What is taken from elsewhere: `GenerateKey`, `Encrypt` and `Decrypt` of the package ecies with
-- AES-256 and SHA-256 on the curve S256, the forms of the keys of the package crypto, and
-- strings.TrimSpace. A value of `Random` is what rand.Reader yields to one call. A key is one that
-- is valid for the curve.
pub record Packages : Type 1 where
  pub PublicKey : Type 0
  pub PrivateKey : Type 0
  pub Random : Type 0
  pub public_key : PrivateKey → PublicKey
  pub generate_key : Random → Option PrivateKey
  pub from_ecdsa_pub : PublicKey → List ℕ
  pub unmarshal_pubkey : List ℕ → Option PublicKey
  pub from_ecdsa : PrivateKey → List ℕ
  pub to_ecdsa : List ℕ → Option PrivateKey
  pub encrypt : Random → PublicKey → List ℕ → Option (List ℕ)
  pub decrypt : PrivateKey → List ℕ → Option (List ℕ)
  pub trim_space : List ℕ → List ℕ

-- The white space and the visible characters of ASCII.
abbrev pub IsSpace : ℕ → Type 0
IsSpace c = ((9 ≤ c) × (c ≤ 13)) ⊎ (c ≡ 32)

abbrev pub IsVisible : ℕ → Type 0
IsVisible c = (33 ≤ c) × (c < 127)

-- Their documented behaviour. `Encrypt` returns neither bytes nor an error for an empty message,
-- and puts a point, an initial vector and a tag around another one.
pub record IsLawful (p : Packages) : Type 0 where
  pub unmarshal_pubkey-from_ecdsa_pub :
      (k : p.PublicKey) → p.unmarshal_pubkey (p.from_ecdsa_pub k) ≡ some k
  pub to_ecdsa-from_ecdsa : (k : p.PrivateKey) → p.to_ecdsa (p.from_ecdsa k) ≡ some k
  pub from_ecdsa_pub-IsBytes : (k : p.PublicKey) → IsBytes (p.from_ecdsa_pub k)
  pub from_ecdsa-IsBytes : (k : p.PrivateKey) → IsBytes (p.from_ecdsa k)
  pub length-from_ecdsa : (k : p.PrivateKey) → length (p.from_ecdsa k) ≡ 32
  pub encrypt_empty : (r : p.Random) (k : p.PublicKey) → p.encrypt r k [] ≡ some []
  pub decrypt_empty : (k : p.PrivateKey) → p.decrypt k [] ≡ none
  pub encrypt_length :
      (r : p.Random) (k : p.PublicKey) (m c : List ℕ)
      → m ≢ []
      → p.encrypt r k m ≡ some c
      → length c ≡ length m + 113
  pub encrypt-IsBytes :
      (r : p.Random) (k : p.PublicKey) (m c : List ℕ)
      → IsBytes m
      → p.encrypt r k m ≡ some c
      → IsBytes c
  pub decrypt-encrypt :
      (r : p.Random) (k : p.PrivateKey) (m c : List ℕ)
      → IsBytes m
      → m ≢ []
      → p.encrypt r (p.public_key k) m ≡ some c
      → p.decrypt k c ≡ some m
  pub trim_space_around :
      (before s after : List ℕ)
      → All IsSpace before
      → All IsVisible s
      → All IsSpace after
      → p.trim_space (before ++ (s ++ after)) ≡ s

module _ (p : Packages) where
  -- `KeyEncrypt` holds a public key and `KeyDecrypt` a private one.
  pub record Key : Type 0 where
    pub key_encrypt : p.PublicKey
    pub key_decrypt : p.PrivateKey

  pub new_key : p.Random → Option Key
  new_key random = p.generate_key random >>= λ key.
      some (record { key_encrypt = p.public_key key; key_decrypt = key })

  -- The texts of the keys.
  pub encryption_key : p.PublicKey → List ℕ
  encryption_key k = Hex.encode_to_string (p.from_ecdsa_pub k)

  pub decryption_key : p.PrivateKey → List ℕ
  decryption_key k = Hex.encode_to_string (p.from_ecdsa k)

  -- The keys of texts: none is `nil`.
  unfoldable pub new_encrypt_key : List ℕ → Option p.PublicKey
  new_encrypt_key text = Hex.decode_string (p.trim_space text) >>= p.unmarshal_pubkey

  unfoldable pub new_decrypt_key : List ℕ → Option p.PrivateKey
  new_decrypt_key text = Hex.decode_string (p.trim_space text) >>= p.to_ecdsa

  -- `Encrypt` with the bytes of the text, and `Decrypt`.
  unfoldable pub encrypt_string : p.Random → p.PublicKey → List ℕ → Option (List ℕ)
  encrypt_string random k text = p.encrypt random k text

  unfoldable pub decrypt : p.PrivateKey → List ℕ → Option (List ℕ)
  decrypt k ciphertext = p.decrypt k ciphertext
