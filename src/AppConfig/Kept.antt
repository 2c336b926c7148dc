-- ===== src/AppConfig/Kept.antt =====
-- Reads after writes of the configuration.
use site_foundry.AppConfig.{Utf8, Row, find_row, upsert, get, set, clear}
use site_foundry.Vault.{
  Bytes, Cipher, KmsProvider, EncryptedSecret, Randoms, local_dev_kms, encrypt,
}
use site_foundry.Vault.Envelope.{IsSound, decrypt-encrypt}
use site_foundry.Effects.{Result, ok}
use site_foundry.Prelude.{
  ◌≡◌, refl, sym, subst, ◌∙◌, inl, inr, Option, none, some, List, [], ◌∷◌, arith, if◌then◌else◌,
  Bool-cases, length,
}
use site_foundry.Text.{Text, text_eq, text_eq_iff, text_eq_refl}

find_row-upsert :
    (key other : Text) (s : EncryptedSecret) (rows : List Row)
    → find_row other (upsert key s rows)
      ≡ (if text_eq key other then some s else find_row other rows)
unfolding find_row upsert
find_row-upsert key other s [] = refl
find_row-upsert key other s ((k, old) ∷ rest) = grind (
  arith,
  find_row-upsert key other s rest,
  text_eq_iff k key,
  text_eq_iff k other,
  text_eq_iff key other,
)

find_row-clear :
    (key other : Text) (rows : List Row)
    → find_row other (clear key rows) ≡ (if text_eq key other then none else find_row other rows)
unfolding find_row clear
find_row-clear key other [] = ground arith
find_row-clear key other ((k, old) ∷ rest) = grind (
  arith,
  find_row-clear key other rest,
  text_eq_iff k key,
  text_eq_iff k other,
  text_eq_iff key other,
)

empty_rows : (key : Text) → find_row key [] ≡ none
unfolding find_row
empty_rows key = refl

no_row : (key : Text) (rows : List Row) → find_row key (clear key rows) ≡ none
no_row key rows = rw (find_row-clear key key rows, text_eq_refl key) refl

module _ (utf8 : Utf8) (cipher : Cipher) where
  get_of_row :
      (kms : KmsProvider) (key : Text) (rows rows' : List Row)
      → find_row key rows ≡ find_row key rows'
      → get utf8 cipher kms key rows ≡ get utf8 cipher kms key rows'
  unfolding get
  get_of_row kms key rows rows' h = rw (get, h) refl

  module _ (sound : IsSound cipher) (master : Bytes) where
    abbrev read : Text → List Row → Result (Option Text)
    read key rows = get utf8 cipher (local_dev_kms cipher master) key rows

    set_then_read :
        (r : Randoms) (key value : Text) (rows : List Row)
        → utf8.decode (utf8.encode value) ≡ value
        → length r.wrapping ≡ 12
        → read key (set utf8 cipher (local_dev_kms cipher master) r key value rows)
          ≡ ok (some value)
    unfolding get set
    set_then_read r key value rows text wrapped =
        let secret = encrypt cipher (local_dev_kms cipher master) r (utf8.encode value) in
        rw
          (
            get,
            find_row-upsert key key secret rows,
            text_eq_refl key,
            decrypt-encrypt cipher sound master r (utf8.encode value) wrapped,
            text,
          )
          refl

    -- With the local key provider: after `set` the key gives its value, after `clear` it gives none,
    -- and every other key reads as before; for every value that the encoding as bytes keeps.
    pub get-set :
        (r : Randoms) (key other value : Text) (rows : List Row)
        → utf8.decode (utf8.encode value) ≡ value
        → length r.wrapping ≡ 12
        → (read other (set utf8 cipher (local_dev_kms cipher master) r key value rows)
            ≡ (if text_eq key other then ok (some value) else read other rows))
          × (read other (clear key rows) ≡ (if text_eq key other then ok none else read other rows))
    unfolding set get
    get-set r key other value rows text wrapped = elim (Bool-cases (text_eq key other)) [
      | inl same ↦
          let e = (text_eq_iff key other).0 same in
          rw same (
            subst
                (λ k.
                  read k (set utf8 cipher (local_dev_kms cipher master) r key value rows)
                  ≡ ok (some value))
                e (set_then_read r key value rows text wrapped),
            get_of_row (local_dev_kms cipher master) other (clear key rows) [] (
                subst (λ k. find_row k (clear key rows) ≡ find_row k []) e
                  (no_row key rows ∙ sym (empty_rows key))),
          )
      | inr apart ↦ rw apart (
        get_of_row (local_dev_kms cipher master) other _ rows
            (find_row-upsert key other _ rows ∙ rw apart refl),
        get_of_row (local_dev_kms cipher master) other _ rows
            (find_row-clear key other rows ∙ rw apart refl),
      )
    ]
