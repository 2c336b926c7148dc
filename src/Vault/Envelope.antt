-- ===== src/Vault/Envelope.antt =====
-- Decryption after encryption, through both layers of the envelope.
use mathlib.Core.List.{append_assoc}
use site_foundry.Vault.{
  Bytes, Cipher, Randoms, local_wrap_key, local_unwrap_key, local_dev_kms, encrypt, decrypt,
}
use site_foundry.Prelude.{
  ℕ, zero, suc, ◌≡◌, refl, sym, ap, ◌∙◌, some, [], ◌∷◌, ◌++◌, arith, length, take, drop,
  length-append,
}

-- What the platform documents of AES-256-GCM: decryption with the key, the vector and the tag of an
-- encryption gives its plaintext back, and the tag has 16 bytes.
pub record IsSound (cipher : Cipher) : Type 0 where
  pub decrypt-encrypt :
      (key iv plaintext : Bytes)
      → cipher.decrypt key iv (cipher.auth_tag key iv plaintext) (cipher.encrypt key iv plaintext)
        ≡ some plaintext
  pub length_tag : (key iv plaintext : Bytes) → length (cipher.auth_tag key iv plaintext) ≡ 16

take-append : (n : ℕ) (xs ys : Bytes) → length xs ≡ n → take n (xs ++ ys) ≡ xs
take-append zero [] ys h = refl
take-append zero (x ∷ xs) ys h = absurd (omega arith)
take-append (suc n) [] ys h = absurd (omega arith)
take-append (suc n) (x ∷ xs) ys h = ap (λ l. x ∷ l) (take-append n xs ys (omega arith))

drop-append : (n : ℕ) (xs ys : Bytes) → length xs ≡ n → drop n (xs ++ ys) ≡ ys
drop-append zero [] ys h = refl
drop-append zero (x ∷ xs) ys h = absurd (omega arith)
drop-append (suc n) [] ys h = absurd (omega arith)
drop-append (suc n) (x ∷ xs) ys h = drop-append n xs ys (omega arith)

module _ (cipher : Cipher) (sound : IsSound cipher) where
  -- The local provider finds the three parts of a wrapped key again.
  unwrap-wrap :
      (master iv dek : Bytes)
      → length iv ≡ 12
      → local_unwrap_key cipher master (local_wrap_key cipher master iv dek) ≡ some dek
  unfolding local_wrap_key local_unwrap_key
  unwrap-wrap master iv dek h =
      let tag = cipher.auth_tag master iv dek in
      let enc = cipher.encrypt master iv dek in
      let sixteen = sound.length_tag master iv dek in
      let all_parts : drop 28 (iv ++ (tag ++ enc)) ≡ enc =
        ap (drop 28) (sym (append_assoc iv tag enc))
        ∙ drop-append 28 (iv ++ tag) enc (omega (arith, length-append iv tag)) in
      rw
        (
          local_unwrap_key,
          take-append 12 iv (tag ++ enc) h,
          drop-append 12 iv (tag ++ enc) h,
          take-append 16 tag enc sixteen,
          all_parts,
        )
        (sound.decrypt-encrypt master iv dek)

  -- A secret that was encrypted with the local provider is decrypted to itself, whatever the keys
  -- and the random bytes, if the vector of the wrapping has its 12 bytes.
  pub decrypt-encrypt :
      (master : Bytes) (r : Randoms) (plaintext : Bytes)
      → length r.wrapping ≡ 12
      → decrypt cipher
          (local_dev_kms cipher master)
          (encrypt cipher (local_dev_kms cipher master) r plaintext)
        ≡ some plaintext
  unfolding encrypt decrypt
  decrypt-encrypt master r plaintext h =
      rw (decrypt, unwrap-wrap master r.wrapping r.dek h)
        (sound.decrypt-encrypt r.dek r.iv plaintext)
