-- ===== src/Prelude/Lists.antt =====
-- Lists measured and cut by native numbers, under the library's names, and a predicate for every
-- member.
use Prim.Native.Nat.{ℕ, zero, suc, ◌+◌, ◌≤◌}
use mathlib.Core.Path.{◌≡◌, sym, ap, ◌∙◌, subst}
use mathlib.Core.Bool.{Bool, true, false, ◌&&◌, ◌||◌}
use mathlib.Core.List.{List, [], ◌∷◌, ◌++◌}
use mathlib.Core.Option.{Option, none, some}
use mathlib.Core.Logic.{inl, inr}
use native.Mathlib.Omega.{arith}
use site_foundry.Prelude.Tests.{if◌then◌else◌, Bool-cases}

module _ {ℓ} {A : Type ℓ} where
  abbrev pub length : List A → ℕ
  length [] = 0
  length (x ∷ xs) = suc (length xs)

  abbrev pub take : ℕ → List A → List A
  take zero xs = []
  take (suc n) [] = []
  take (suc n) (x ∷ xs) = x ∷ take n xs

  abbrev pub drop : ℕ → List A → List A
  drop zero xs = xs
  drop (suc n) [] = []
  drop (suc n) (x ∷ xs) = drop n xs

  -- `xs.filter(p)`, `xs.some(p)` and `xs.every(p)`
  abbrev pub keep : (A → Bool) → List A → List A
  keep p [] = []
  keep p (x ∷ xs) = let rest = keep p xs in if p x then x ∷ rest else rest

  abbrev pub any : (A → Bool) → List A → Bool
  any p [] = false
  any p (x ∷ xs) = p x || any p xs

  abbrev pub all : (A → Bool) → List A → Bool
  all p [] = true
  all p (x ∷ xs) = p x && all p xs

  -- The first row with a property: what `findFirst`, `update` and `delete` by a unique key act on.
  abbrev pub find : (A → Bool) → List A → Option A
  find p [] = none
  find p (x ∷ xs) = let rest = find p xs in if p x then some x else rest

  abbrev pub edit_first : (A → Bool) → (A → A) → List A → List A
  edit_first p f [] = []
  edit_first p f (x ∷ xs) = let rest = edit_first p f xs in if p x then f x ∷ xs else x ∷ rest

  abbrev pub remove_first : (A → Bool) → List A → List A
  remove_first p [] = []
  remove_first p (x ∷ xs) = let rest = remove_first p xs in if p x then xs else x ∷ rest

  pub length-append : (xs ys : List A) → length (xs ++ ys) ≡ length xs + length ys
  length-append [] ys = omega arith
  length-append (x ∷ xs) ys = omega (arith, length-append xs ys)

  pub length-take : (n : ℕ) (xs : List A) → length (take n xs) ≤ n
  length-take zero xs = omega arith
  length-take (suc n) [] = omega arith
  length-take (suc n) (x ∷ xs) = omega (arith, length-take n xs)

  pub length-keep : (p : A → Bool) (xs : List A) → length (keep p xs) ≤ length xs
  length-keep p [] = omega arith
  length-keep p (x ∷ xs) = ground (arith, length-keep p xs)

pub some-injective {ℓ} : {A : Type ℓ} {x y : A} → some x ≡ some y → x ≡ y
some-injective h = cc

-- How many rows have a property.
module _ {ℓ} {A : Type ℓ} (q : A → Bool) where
  abbrev pub bit : A → ℕ
  bit x = if q x then 1 else 0

  abbrev pub count : List A → ℕ
  count [] = 0
  count (x ∷ xs) = bit x + count xs

  pub count-append : (xs ys : List A) → count (xs ++ ys) ≡ count xs + count ys
  count-append [] ys = omega arith
  count-append (x ∷ xs) ys = omega (arith, count-append xs ys)

  pub find-holds : (xs : List A) (x : A) → find q xs ≡ some x → q x ≡ true
  find-holds [] x h = absurd (cc)
  find-holds (y ∷ xs) x h = grind (arith, find-holds xs x)

  pub find-edit_first :
      (f : A → A) (xs : List A) (x : A)
      → find q xs ≡ some x
      → q (f x) ≡ true
      → find q (edit_first q f xs) ≡ some (f x)
  find-edit_first f [] x h k = absurd (cc)
  find-edit_first f (y ∷ xs) x h k = grind (arith, find-edit_first f xs x)

  module _ (p : A → Bool) where
    pub count-edit_first :
        (f : A → A) (xs : List A) (x : A)
        → find p xs ≡ some x
        → count (edit_first p f xs) + bit x ≡ count xs + bit (f x)
    count-edit_first f [] x h = absurd (cc)
    count-edit_first f (y ∷ xs) x h = grind (arith, count-edit_first f xs x)

    pub count-remove_first :
        (xs : List A) (x : A) → find p xs ≡ some x → count (remove_first p xs) + bit x ≡ count xs
    count-remove_first [] x h = absurd (cc)
    count-remove_first (y ∷ xs) x h = grind (arith, count-remove_first xs x)

module _ {ℓ κ} {A : Type ℓ} (P : A → Type κ) where
  abbrev pub All : List A → Type κ
  All [] = Unit
  All (x ∷ xs) = P x × All xs

  pub All-append : (xs ys : List A) → All xs → All ys → All (xs ++ ys)
  All-append [] ys h k = k
  All-append (x ∷ xs) ys (h, hs) k = (h, All-append xs ys hs k)

  pub All-last : (xs : List A) (x : A) → All xs → P x → All (xs ++ x ∷ [])
  All-last [] x h k = (k, tt)
  All-last (y ∷ xs) x (h, hs) k = (h, All-last xs x hs k)

  pub All-edit_first :
      (p : A → Bool) (f : A → A)
      → ((x : A) → p x ≡ true → P x → P (f x))
      → (xs : List A) → All xs
      → All (edit_first p f xs)
  All-edit_first p f kf [] h = tt
  All-edit_first p f kf (x ∷ xs) (h, hs) = elim (Bool-cases (p x)) [
    | inl here ↦
        subst (λ b. All (if b then f x ∷ xs else x ∷ edit_first p f xs)) (sym here)
          (kf x here h, hs)
    | inr there ↦
        subst (λ b. All (if b then f x ∷ xs else x ∷ edit_first p f xs)) (sym there)
          (h, All-edit_first p f kf xs hs)
  ]

  pub All-find : (p : A → Bool) (xs : List A) (x : A) → All xs → find p xs ≡ some x → P x
  All-find p [] x h e = absurd (cc)
  All-find p (y ∷ xs) x (h, hs) e = elim (Bool-cases (p y)) [
    | inl here ↦
        subst P (some-injective (sym (ap (λ b. if b then some y else find p xs) here) ∙ e)) h
    | inr there ↦ All-find p xs x hs (sym (ap (λ b. if b then some y else find p xs) there) ∙ e)
  ]
