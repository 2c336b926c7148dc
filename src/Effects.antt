-- ===== src/Effects.antt =====
-- Exceptions as values.
pub mod Keeps
pub mod Cases
use site_foundry.Prelude.{◌≡◌, refl, Bool, true, false, Option, none, some}
use site_foundry.Text.{Text}

-- Exceptions, and actions on a state that may throw. What was written before a `throw` stays
-- written; `transaction` takes it back.

-- The exceptions of @nestjs/common that the source throws, a plain `Error`, and the `TypeError` of
-- an access to a missing method or to a property of `null`.
pub data Kind : Type 0 where
  bad_request forbidden not_found conflict unauthorized unavailable plain type_error : Kind

pub record Exception : Type 0 where
  pub kind : Kind
  pub message : Text

pub data Result {ℓ} (A : Type ℓ) : Type ℓ where
  ok : A → Result A
  err : Exception → Result A

abbrev pub thrown {ℓ} : {A : Type ℓ} → Kind → Text → Result A
thrown kind message = err (record { kind = kind; message = message })

abbrev pub Act {ℓ κ} : Type ℓ → Type κ → Type (ℓ ⊔ κ)
Act W A = W → Result A × W

module _ {ℓ κ} {A : Type ℓ} {B : Type κ} where
  abbrev pub bind : Result A → (A → Result B) → Result B
  bind (ok a) f = f a
  bind (err e) f = err e

  pub bind-eq-ok :
      (m : Result A) (f : A → Result B) {b : B}
      → bind m f ≡ ok b
      → (a : A) × (m ≡ ok a) × (f a ≡ ok b)
  bind-eq-ok (ok a) f h = (a, refl, h)
  bind-eq-ok (err e) f h = cc

pub ok-injective {ℓ} : {A : Type ℓ} {a b : A} → ok a ≡ ok b → a ≡ b
ok-injective h = cc

module _ {ℓ κ} {W : Type ℓ} {A : Type κ} where
  unfoldable pub pure : A → Act W A
  pure a w = (ok a, w)

  unfoldable pub lift : Result A → Act W A
  lift r w = (r, w)

  unfoldable pub throw : Kind → Text → Act W A
  throw kind message w = (thrown kind message, w)

  unfoldable pub gets : (W → A) → Act W A
  gets f w = (ok (f w), w)

  -- The value of a row, or the exception for a missing one.
  unfoldable pub require : Option A → Kind → Text → Act W A
  require none kind message w = (thrown kind message, w)
  require (some a) kind message w = (ok a, w)

  abbrev pub recover : (Exception → Act W A) → Result A × W → Result A × W
  recover handler (ok a, w) = (ok a, w)
  recover handler (err e, w) = handler e w

  -- `try { m } catch (e) { handler e }`
  unfoldable pub catch : Act W A → (Exception → Act W A) → Act W A
  catch m handler w = recover handler (m w)

  -- `try { m } finally { f }`, for an `f` that does not throw
  unfoldable pub finally : Act W A → (W → W) → Act W A
  finally m f w = let (r, w') = m w in (r, f w')

  abbrev pub commit : W → Result A × W → Result A × W
  commit w (ok a, w') = (ok a, w')
  commit w (err e, w') = (err e, w)

  -- `$transaction`: an exception leaves the database as it was.
  unfoldable pub transaction : Act W A → Act W A
  transaction m w = commit w (m w)

module _ {ℓ} {W : Type ℓ} where
  unfoldable pub modify : (W → W) → Act W (Unit {0})
  modify f w = (ok tt, f w)

  unfoldable pub guard : Bool → Kind → Text → Act W (Unit {0})
  guard true kind message w = (ok tt, w)
  guard false kind message w = (thrown kind message, w)

module _ {ℓ κ μ} {W : Type ℓ} {A : Type κ} {B : Type μ} where
  abbrev pub continue : Result A → (A → Act W B) → Act W B
  continue (ok a) f w = f a w
  continue (err e) f w = (err e, w)

  -- To open this is to open the other actions too.
  infixl 5 ◌>>=◌
  unfoldable pub ◌>>=◌ : Act W A → (A → Act W B) → Act W B
  unfolding pure lift throw gets require catch finally transaction modify guard
  ◌>>=◌ m f w = let (r, w') = m w in continue r f w'

module _ {ℓ μ} {W : Type ℓ} {B : Type μ} where
  infixl 5 ◌>>◌
  abbrev pub ◌>>◌ : Act W (Unit {0}) → Act W B → Act W B
  m >> n = m >>= λ _. n
