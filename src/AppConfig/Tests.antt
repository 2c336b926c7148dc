-- ===== src/AppConfig/Tests.antt =====
-- A key that is set, with a toy cipher, and the theorem at that input.
use site_foundry.AppConfig.{Utf8, Row, get, set, clear}
use site_foundry.AppConfig.Kept.{get-set}
use site_foundry.Vault.{Cipher, Randoms, local_dev_kms}
use site_foundry.Vault.Envelope.{IsSound}
use site_foundry.Effects.{Result, ok}
use site_foundry.Prelude.{◌≡◌, refl, Option, none, some, List, [], ◌∷◌, arith, if◌then◌else◌}
use site_foundry.Text.{Text, text_eq}

abbrev cipher : Cipher
cipher = record {
  encrypt = λ key iv plaintext. plaintext;
  auth_tag = λ key iv plaintext. 0 ∷ 0 ∷ 0 ∷ 0 ∷ 0 ∷ 0 ∷ 0 ∷ 0 ∷ 0 ∷ 0 ∷ 0 ∷ 0 ∷ 0 ∷ 0 ∷ 0 ∷ 0 ∷ [];
  decrypt = λ key iv tag ciphertext. some ciphertext;
}

cipher-IsSound : IsSound cipher
cipher-IsSound = record {
  decrypt-encrypt = λ key iv plaintext. refl;
  length_tag = λ key iv plaintext. refl;
}

abbrev ascii : Utf8
ascii = record { encode = λ s. s; decode = λ s. s }

abbrev randoms : Randoms
randoms = record {
  dek = 7 ∷ 8 ∷ [];
  iv = 9 ∷ [];
  wrapping = 1 ∷ 2 ∷ 3 ∷ 4 ∷ 5 ∷ 6 ∷ 7 ∷ 8 ∷ 9 ∷ 10 ∷ 11 ∷ 12 ∷ [];
}

abbrev stored : List Row
stored = set ascii cipher (local_dev_kms cipher (3 ∷ [])) randoms (1 ∷ []) (5 ∷ 6 ∷ []) []

abbrev read_with : Text → List Row → Result (Option Text)
read_with key rows = get ascii cipher (local_dev_kms cipher (3 ∷ [])) key rows

get-set_example :
    (read_with (2 ∷ []) stored
      ≡ (if text_eq (1 ∷ []) (2 ∷ []) then ok (some (5 ∷ 6 ∷ [])) else read_with (2 ∷ []) []))
    × (read_with (2 ∷ []) (clear (1 ∷ []) [])
        ≡ (if text_eq (1 ∷ []) (2 ∷ []) then ok none else read_with (2 ∷ []) []))
get-set_example =
    get-set ascii cipher cipher-IsSound (3 ∷ []) randoms (1 ∷ []) (2 ∷ []) (5 ∷ 6 ∷ []) [] refl
      (omega arith)
