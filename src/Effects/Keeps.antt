-- ===== src/Effects/Keeps.antt =====
-- Invariants of actions, with a rule for each way to build an action.
use site_foundry.Effects.{
  Kind, Exception, Result, ok, err, Act, pure, lift, throw, gets, require, recover, catch, finally,
  commit, transaction, modify, guard, continue, ◌>>=◌,
}
use site_foundry.Prelude.{Bool, true, false, Option, none, some, if◌then◌else◌}
use site_foundry.Text.{Text}

-- `m` keeps `P`, whether it returns or throws.
pub record Keeps {ℓ κ μ} {W : Type ℓ} {A : Type κ} (P : W → Type μ) (m : Act W A)
    : Type (ℓ ⊔ μ) where
  pub at : (w : W) → P w → P (m w).1

module _ {ℓ κ μ} {W : Type ℓ} {A : Type κ} {P : W → Type μ} where
  pub Keeps-pure : (a : A) → Keeps P (pure a)
  unfolding pure
  Keeps-pure a = record { at = λ w h. h }

  pub Keeps-lift : (r : Result A) → Keeps P (lift r)
  unfolding lift
  Keeps-lift r = record { at = λ w h. h }

  pub Keeps-throw : (k : Kind) (t : Text) → Keeps P (throw {A = A} k t)
  unfolding throw
  Keeps-throw k t = record { at = λ w h. h }

  pub Keeps-gets : (f : W → A) → Keeps P (gets f)
  unfolding gets
  Keeps-gets f = record { at = λ w h. h }

  pub Keeps-require : (o : Option A) (k : Kind) (t : Text) → Keeps P (require o k t)
  unfolding require
  Keeps-require none k t = record { at = λ w h. h }
  Keeps-require (some a) k t = record { at = λ w h. h }

  pub Keeps-if : (b : Bool) (m n : Act W A) → Keeps P m → Keeps P n → Keeps P (if b then m else n)
  Keeps-if true m n km kn = km
  Keeps-if false m n km kn = kn

  recover-keeps :
      (r : Result A) (w : W) (f : Exception → Act W A)
      → P w
      → ((e : Exception) → Keeps P (f e))
      → P (recover f (r, w)).1
  recover-keeps (ok a) w f h k = h
  recover-keeps (err e) w f h k = (k e).at w h

  pub Keeps-catch :
      (m : Act W A) (f : Exception → Act W A)
      → Keeps P m
      → ((e : Exception) → Keeps P (f e))
      → Keeps P (catch m f)
  unfolding catch
  Keeps-catch m f km kf = record {
    at = λ w h. let (r, w') = m w in recover-keeps r w' f (km.at w h) kf;
  }

  pub Keeps-finally :
      (m : Act W A) (f : W → W) → Keeps P m → ((w : W) → P w → P (f w)) → Keeps P (finally m f)
  unfolding finally
  Keeps-finally m f km kf = record { at = λ w h. kf (m w).1 (km.at w h) }

module _ {ℓ κ μ} {W : Type ℓ} {A : Type κ} where
  commit-keeps : (P : W → Type μ) (w : W) (r : Result A × W) → P w → P r.1 → P (commit w r).1
  commit-keeps P w (ok a, w') h k = k
  commit-keeps P w (err e, w') h k = h

  pub Keeps-transaction : {P : W → Type μ} (m : Act W A) → Keeps P m → Keeps P (transaction m)
  unfolding transaction
  Keeps-transaction {P} m km = record { at = λ w h. commit-keeps P w (m w) h (km.at w h) }

module _ {ℓ μ} {W : Type ℓ} {P : W → Type μ} where
  pub Keeps-modify : (f : W → W) → ((w : W) → P w → P (f w)) → Keeps P (modify f)
  unfolding modify
  Keeps-modify f kf = record { at = kf }

  pub Keeps-guard : (b : Bool) (k : Kind) (t : Text) → Keeps P (guard b k t)
  unfolding guard
  Keeps-guard true k t = record { at = λ w h. h }
  Keeps-guard false k t = record { at = λ w h. h }

module _ {ℓ κ μ ν} {W : Type ℓ} {A : Type κ} {B : Type μ} {P : W → Type ν} where
  continue-keeps :
      (r : Result A) (f : A → Act W B) (w : W)
      → P w
      → ((a : A) → Keeps P (f a))
      → P (continue r f w).1
  continue-keeps (ok a) f w h k = (k a).at w h
  continue-keeps (err e) f w h k = h

  pub Keeps-bind :
      (m : Act W A) (f : A → Act W B) → Keeps P m → ((a : A) → Keeps P (f a)) → Keeps P (m >>= f)
  unfolding ◌>>=◌
  Keeps-bind m f km kf = record {
    at = λ w h. let (r, w') = m w in continue-keeps r f w' (km.at w h) kf;
  }

pub ruleset keeps_rules = (
  Keeps-pure, Keeps-lift, Keeps-throw, Keeps-gets, Keeps-require, Keeps-if, Keeps-catch,
  Keeps-finally, Keeps-transaction, Keeps-modify, Keeps-guard, Keeps-bind,
)
