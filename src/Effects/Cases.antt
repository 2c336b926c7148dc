-- ===== src/Effects/Cases.antt =====
-- What an action keeps where it tests, looks up or commits: the rest is run only if it goes on.
use site_foundry.Effects.{Kind, Exception, Result, ok, err, Act, require, commit, guard, ◌>>=◌}
use site_foundry.Prelude.{◌≡◌, refl, ◌⊎◌, inl, inr, Bool, true, false, Option, none, some}
use site_foundry.Text.{Text}

module _ {ℓ κ μ} {W : Type ℓ} {A : Type κ} (P : W → Type μ) (w : W) (h : P w) where
  pub after_guard :
      (b : Bool) (k : Kind) (message : Text) (rest : Act W A)
      → P (rest w).1
      → P ((guard b k message >>= λ _. rest) w).1
  unfolding ◌>>=◌
  after_guard true k message rest then' = then'
  after_guard false k message rest then' = h

  pub after_commit : (r : Result A × W) → P r.1 → P (commit w r).1
  after_commit (ok a, w') k = k
  after_commit (err e, w') k = h

  pub after_require :
      {B : Type κ} (found : Option B) (k : Kind) (message : Text) (rest : B → Act W A)
      → ((b : B) → found ≡ some b → P (rest b w).1)
      → P ((require found k message >>= rest) w).1
  unfolding ◌>>=◌
  after_require none k message rest then' = h
  after_require (some b) k message rest then' = then' b refl

-- What an action gave: a value or an exception, and the state it left.
pub Act-cases {ℓ κ} :
    {A : Type ℓ} {W : Type κ} (r : Result A × W)
    → ((a : A) × (w : W) × (r ≡ (ok a, w))) ⊎ ((e : Exception) × (w : W) × (r ≡ (err e, w)))
Act-cases (ok a, w) = inl (a, w, refl)
Act-cases (err e, w) = inr (e, w, refl)
