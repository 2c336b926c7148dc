-- ===== src/Catalog/Related.antt =====
-- What a product page shows beside its product.
use site_foundry.Catalog.{Entry, Catalog, find_category, products_of, is_other, related_to}
use site_foundry.Prelude.{
  ℕ, zero, suc, ◌≤◌, ◌≡◌, inl, inr, Bool, true, false, ◌&&◌, List, [], ◌∷◌, ◌++◌, arith, leb,
  Bool-cases, length, take, keep, All,
}
use site_foundry.Text.{Text, text_eq}

-- Another product
abbrev pub IsOther : Text → Entry → Type 0
IsOther slug e = text_eq e.slug slug ≡ false

All-keep :
    (slug : Text) (p : Entry → Bool) (xs : List Entry)
    → ((x : Entry) → p x ≡ true → IsOther slug x)
    → All (IsOther slug) (keep p xs)
All-keep slug p [] h = tt
All-keep slug p (x ∷ xs) h = elim (Bool-cases (p x)) [
  | inl kept ↦ rw kept (h x kept, All-keep slug p xs h)
  | inr left ↦ rw left (All-keep slug p xs h)
]

All-take :
    (slug : Text) (n : ℕ) (xs : List Entry) → All (IsOther slug) xs → All (IsOther slug) (take n xs)
All-take slug zero xs h = tt
All-take slug (suc n) [] h = tt
All-take slug (suc n) (x ∷ xs) (h, hs) = (h, All-take slug n xs hs)

All-append :
    (slug : Text) (xs ys : List Entry)
    → All (IsOther slug) xs
    → All (IsOther slug) ys
    → All (IsOther slug) (xs ++ ys)
All-append slug [] ys h k = k
All-append slug (x ∷ xs) ys (h, hs) k = (h, All-append slug xs ys hs k)

length-take-le : (n : ℕ) (xs : List Entry) → length (take n xs) ≤ n
length-take-le zero xs = omega arith
length-take-le (suc n) [] = omega arith
length-take-le (suc n) (x ∷ xs) = let h = length-take-le n xs in omega arith

is_other-holds : (slug : Text) (x : Entry) → is_other slug x ≡ true → IsOther slug x
is_other-holds slug x h = ground arith

is_other_and : (slug : Text) (x : Entry) (b : Bool) → (is_other slug x && b) ≡ true → IsOther slug x
is_other_and slug x b h = ground arith

-- The related products are at most as many as asked for, and the product itself is not among them.
pub related_to_lem :
    (c : Catalog) (entry : Entry) (n : ℕ)
    → (length (related_to c entry n) ≤ n) × All (IsOther entry.slug) (related_to c entry n)
unfolding related_to
related_to_lem c entry n =
    let same =
      keep (is_other entry.slug) (products_of (find_category entry.category_slug c.categories)) in
    let others =
      All-keep entry.slug (is_other entry.slug)
        (products_of (find_category entry.category_slug c.categories))
        (is_other-holds entry.slug) in
    elim (Bool-cases (leb n (length same))) [
      | inl full ↦ rw full (length-take-le n same, All-take entry.slug n same others)
      | inr more ↦ rw more (
        length-take-le n _,
        All-take entry.slug n _ (
            All-append entry.slug same _ others
              (All-keep entry.slug _ c.products (λ x h. is_other_and entry.slug x _ h))),
      )
    ]
