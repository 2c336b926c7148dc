-- ===== src/Vault.antt =====
-- The vault, apps/api/src/vault: the envelope encryption of vault.service.ts and the wrapping of
-- keys of `LocalDevKmsProvider` in kms.provider.ts. Buffers are lists of bytes. AES-256-GCM and the
-- random bytes are parameters; a decryption that throws is `none`.
pub mod Envelope
use site_foundry.Prelude.{ℕ, Option, none, some, List, ◌++◌, take, drop}

abbrev pub Bytes : Type 0
Bytes = List ℕ

-- `createCipheriv('aes-256-gcm', key, iv)` applied to a plaintext, with its tag, and
-- `createDecipheriv` with the tag set.
pub record Cipher : Type 0 where
  pub encrypt : Bytes → Bytes → Bytes → Bytes
  pub auth_tag : Bytes → Bytes → Bytes → Bytes
  pub decrypt : Bytes → Bytes → Bytes → Bytes → Option Bytes

-- `KmsProvider`; a wrapped key may depend on fresh random bytes.
pub record KmsProvider : Type 0 where
  pub wrap_key : Bytes → Bytes → Bytes
  pub unwrap_key : Bytes → Option Bytes

pub record EncryptedSecret : Type 0 where
  pub ciphertext : Bytes
  pub dek_wrapped : Bytes
  pub iv : Bytes
  pub auth_tag : Bytes

-- The random bytes of one encryption: the data key, the vector, and those of the wrapping
pub record Randoms : Type 0 where
  pub dek : Bytes
  pub iv : Bytes
  pub wrapping : Bytes

module _ (cipher : Cipher) where
  -- `Buffer.concat([iv, tag, enc])`
  unfoldable pub local_wrap_key : Bytes → Bytes → Bytes → Bytes
  local_wrap_key master iv dek =
      iv ++ (cipher.auth_tag master iv dek ++ cipher.encrypt master iv dek)

  unfoldable pub local_unwrap_key : Bytes → Bytes → Option Bytes
  local_unwrap_key master wrapped =
      cipher.decrypt master (take 12 wrapped) (take 16 (drop 12 wrapped)) (drop 28 wrapped)

  -- `LocalDevKmsProvider`
  abbrev pub local_dev_kms : Bytes → KmsProvider
  local_dev_kms master = record {
    wrap_key = λ iv dek. local_wrap_key master iv dek;
    unwrap_key = local_unwrap_key master;
  }

  module _ (kms : KmsProvider) where
    -- `encrypt` of VaultService
    unfoldable pub encrypt : Randoms → Bytes → EncryptedSecret
    encrypt r plaintext = record {
      ciphertext = cipher.encrypt r.dek r.iv plaintext;
      dek_wrapped = kms.wrap_key r.wrapping r.dek;
      iv = r.iv;
      auth_tag = cipher.auth_tag r.dek r.iv plaintext;
    }

    -- `decrypt` of VaultService
    unfoldable pub decrypt : EncryptedSecret → Option Bytes
    decrypt s = elim (kms.unwrap_key s.dek_wrapped) [
      | none ↦ none
      | some dek ↦ cipher.decrypt dek s.iv s.auth_tag s.ciphertext
    ]
