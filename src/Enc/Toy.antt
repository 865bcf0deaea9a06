-- ===== src/Enc/Toy.antt =====
-- An instance of what enc.go takes from elsewhere, small enough to run: two keys, and a cipher that
-- only puts the key before the text. Its random number 0 makes an encryption fail.
use zipologger.Base.{ℕ, zero, suc, ◌<◌, ◌≡◌, ◌≢◌, refl, arith, ap, ◌∙◌, sym, subst}
use zipologger.Base.{
  List, [], ◌∷◌, ◌++◌, append-nil, Option, none, some, All, length, Bool, true, false,
  if◌then◌else◌, leb, ltb, ◌==◌, flag, replicate, drop, get_or, some-injective, ◌&&◌,
}
use zipologger.Base.Bytes.{IsBytes, append-IsBytes, replicate-IsBytes}
use zipologger.Enc.{Packages, IsLawful, IsSpace, IsVisible}

abbrev skip_space : List ℕ → List ℕ
skip_space [] = []
skip_space (c ∷ cs) = if leb c 32 then skip_space cs else c ∷ cs

abbrev trim_right : List ℕ → List ℕ
trim_right [] = []
trim_right (c ∷ cs) = attach c (trim_right cs)
  where
    attach : ℕ → List ℕ → List ℕ
    attach c [] = if leb c 32 then [] else c ∷ []
    attach c (d ∷ ds) = c ∷ d ∷ ds

abbrev toy_encrypt : ℕ → Bool → List ℕ → Option (List ℕ)
toy_encrypt r k [] = some []
toy_encrypt zero k (c ∷ cs) = none
toy_encrypt (suc r) k (c ∷ cs) = some (replicate 112 4 ++ flag k ∷ c ∷ cs)

abbrev toy_decrypt : Bool → List ℕ → Option (List ℕ)
toy_decrypt k s =
    if ltb 113 (length s) && (get_or s 112 2 == flag k) then some (drop 113 s) else none

abbrev pub toy : Packages
toy = record {
  PublicKey = Bool;
  PrivateKey = Bool;
  Random = ℕ;
  public_key = λ k. k;
  generate_key = λ r. some (r == 1);
  from_ecdsa_pub = λ k. flag k ∷ [];
  unmarshal_pubkey = λ s. if length s == 1 then some (get_or s 0 0 == 1) else none;
  from_ecdsa = λ k. replicate 31 0 ++ flag k ∷ [];
  to_ecdsa = λ s. if length s == 32 then some (get_or s 31 0 == 1) else none;
  encrypt = toy_encrypt;
  decrypt = toy_decrypt;
  trim_space = λ s. trim_right (skip_space s);
}

skip_space_before : (a s : List ℕ) → All IsSpace a → skip_space (a ++ s) ≡ skip_space s
skip_space_before [] s h = refl
skip_space_before (c ∷ cs) s h =
    let e : leb c 32 ≡ true = ground arith in rw e (skip_space_before cs s h.1)

skip_space_all : (a : List ℕ) → All IsSpace a → skip_space a ≡ []
skip_space_all a h = ap skip_space (sym (append-nil a)) ∙ skip_space_before a [] h

trim_right_all : (a : List ℕ) → All IsSpace a → trim_right a ≡ []
trim_right_all [] h = refl
trim_right_all (c ∷ cs) h =
    let e : leb c 32 ≡ true = ground arith in rw (trim_right_all cs h.1, e) refl

skip_space_visible :
    (s a : List ℕ)
    → All IsVisible s
    → All IsSpace a
    → trim_right (skip_space (s ++ a)) ≡ trim_right (s ++ a)
skip_space_visible [] a h k = ap trim_right (skip_space_all a k) ∙ sym (trim_right_all a k)
skip_space_visible (c ∷ cs) a h k = let e : leb c 32 ≡ false = ground arith in rw e refl

trim_right_lem : (s a : List ℕ) → All IsVisible s → All IsSpace a → trim_right (s ++ a) ≡ s
trim_right_lem [] a h k = trim_right_all a k
trim_right_lem (c ∷ []) a h k =
    let e : leb c 32 ≡ false = ground arith in rw (trim_right_all a k, e) refl
trim_right_lem (c ∷ d ∷ cs) a h k = rw (trim_right_lem (d ∷ cs) a h.1 k) refl

-- What `toy_encrypt` returns for a text that is not empty.
encrypted :
    (r : ℕ) (k : Bool) (m c : List ℕ)
    → m ≢ []
    → toy_encrypt r k m ≡ some c
    → c ≡ replicate 112 4 ++ flag k ∷ m
encrypted r k [] c n e = absurd (n refl)
encrypted zero k (x ∷ xs) c n e = cc
encrypted (suc r) k (x ∷ xs) c n e = sym (some-injective (replicate 112 4 ++ flag k ∷ x ∷ xs) c e)

decrypted :
    (k : Bool) (m : List ℕ) → m ≢ [] → toy_decrypt k (replicate 112 4 ++ flag k ∷ m) ≡ some m
decrypted k [] n = absurd (n refl)
decrypted true (x ∷ xs) n =
    let e : ltb 113 (length (replicate 112 4 ++ 1 ∷ x ∷ xs)) ≡ true = ground arith in rw e refl
decrypted false (x ∷ xs) n =
    let e : ltb 113 (length (replicate 112 4 ++ 0 ∷ x ∷ xs)) ≡ true = ground arith in rw e refl

flag_byte : (k : Bool) → flag k < 256
flag_byte true = omega arith
flag_byte false = omega arith

flag_read : (k : Bool) → (flag k == 1) ≡ k
flag_read true = refl
flag_read false = refl

toy_encrypt-IsBytes :
    (r : ℕ) (k : Bool) (m c : List ℕ) → IsBytes m → toy_encrypt r k m ≡ some c → IsBytes c
toy_encrypt-IsBytes r k [] c h e = subst IsBytes (some-injective [] c e) tt
toy_encrypt-IsBytes zero k (x ∷ xs) c h e = cc
toy_encrypt-IsBytes (suc r) k (x ∷ xs) c h e =
    subst IsBytes (some-injective (replicate 112 4 ++ flag k ∷ x ∷ xs) c e)
      (append-IsBytes (replicate 112 4) (flag k ∷ x ∷ xs) fours (flag_byte k, h))
  where
    fours : IsBytes (replicate 112 4)
    fours = ground arith

pub toy-IsLawful : IsLawful toy
toy-IsLawful = record {
  unmarshal_pubkey-from_ecdsa_pub = λ k. ap some (flag_read k);
  to_ecdsa-from_ecdsa = λ k. ap some (flag_read k);
  from_ecdsa_pub-IsBytes = λ k. (flag_byte k, tt);
  from_ecdsa-IsBytes =
      λ k. append-IsBytes (replicate 31 0) (flag k ∷ []) (replicate-IsBytes 31) (flag_byte k, tt);
  length-from_ecdsa = λ k. refl;
  encrypt_empty = λ r k. refl;
  decrypt_empty = λ k. refl;
  encrypt_length = λ r k m c n e. ap length (encrypted r k m c n e) ∙ omega arith;
  encrypt-IsBytes = λ r k m c h e. toy_encrypt-IsBytes r k m c h e;
  decrypt-encrypt = λ r k m c v n e. ap (toy_decrypt k) (encrypted r k m c n e) ∙ decrypted k m n;
  trim_space_around = λ before s after h v k.
      ap trim_right (skip_space_before before (s ++ after) h)
      ∙ skip_space_visible s after v k
      ∙ trim_right_lem s after v k;
}
