-- ===== src/AppConfig.antt =====
-- The configuration of the panel, apps/api/src/settings/app-config.service.ts: encrypted values by
-- key. The vault's calls are those of Vault.antt, and the encoding of texts as bytes
-- (`Buffer.from(value, 'utf8')`, `toString('utf8')`) is a parameter.
mod Kept
mod Tests
use site_foundry.Vault.{Bytes, Cipher, KmsProvider, EncryptedSecret, Randoms, encrypt, decrypt}
use site_foundry.Effects.{plain, Result, ok, thrown}
use site_foundry.Prelude.{
  Bool, not, Option, none, some, List, [], ◌∷◌, leb, if◌then◌else◌, length, keep,
}
use site_foundry.Text.{Text, txt, text_eq}

pub record Utf8 : Type 0 where
  pub encode : Text → Bytes
  pub decode : Bytes → Text

abbrev pub Row : Type 0
Row = Text × EncryptedSecret

-- `findUnique`
unfoldable pub find_row : Text → List Row → Option EncryptedSecret
find_row key [] = none
find_row key ((k, s) ∷ rest) = if text_eq k key then some s else find_row key rest

-- `upsert`
unfoldable pub upsert : Text → EncryptedSecret → List Row → List Row
upsert key secret [] = (key, secret) ∷ []
upsert key secret ((k, s) ∷ rest) =
    let later = upsert key secret rest in
    if text_eq k key then (k, secret) ∷ rest else (k, s) ∷ later

module _ (utf8 : Utf8) (cipher : Cipher) (kms : KmsProvider) where
  abbrev decoded : Option Bytes → Result (Option Text)
  decoded none = thrown plain (txt "Unsupported state or unable to authenticate data")
  decoded (some bytes) = ok (some (utf8.decode bytes))

  -- `get`: `none` for `null`, and the exception of the cipher for a row that it cannot open.
  unfoldable pub get : Text → List Row → Result (Option Text)
  unfolding find_row
  get key rows = elim (find_row key rows) [
    | none ↦ ok none
    | some s ↦ decoded (decrypt cipher kms s)
  ]

  unfoldable pub set : Randoms → Text → Text → List Row → List Row
  unfolding upsert
  set r key value rows = upsert key (encrypt cipher kms r (utf8.encode value)) rows

-- `clear`
unfoldable pub clear : Text → List Row → List Row
clear key rows = keep (λ (r : Row). not (text_eq r.0 key)) rows

-- `has`
unfoldable pub has : Text → List Row → Bool
has key rows = leb 1 (length (keep (λ (r : Row). text_eq r.0 key) rows))
