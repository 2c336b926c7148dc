-- ===== src/Discovery/Distinct.antt =====
-- The products and the categories of a home page, counted and compared.
use site_foundry.Discovery.Featured.{
  fresh_rows, product_key, is_skipped, all_results, collect, featured, Category, row_products,
  is_nil, category_of, collect_rows, categories,
}
use site_foundry.Discovery.Search.{Row}
use site_foundry.Discovery.Product.{DiscoveredProduct}
use site_foundry.Prelude.{
  ℕ, suc, ◌+◌, ◌≤◌, ◌<◌, ◌≡◌, refl, inl, inr, true, false, List, [], ◌∷◌, map, arith, leb,
  Bool-cases, length, any, All,
}
use site_foundry.Text.{Text, text_eq}

-- No text stands twice.
abbrev pub IsDistinct : List Text → Type 0
IsDistinct [] = Unit
IsDistinct (k ∷ ks) = (any (λ j. text_eq j k) ks ≡ false) × IsDistinct ks

-- None of the keys is among those that were seen.
abbrev IsNew : List Text → List Text → Type 0
IsNew seen ks = All (λ k. any (text_eq k) seen ≡ false) ks

apart_lem :
    (k : Text) (seen ks : List Text) → IsNew (k ∷ seen) ks → any (λ j. text_eq j k) ks ≡ false
apart_lem k seen [] h = refl
apart_lem k seen (j ∷ ks) (h, hs) = ground (arith, apart_lem k seen ks hs)

weaken_lem : (k : Text) (seen ks : List Text) → IsNew (k ∷ seen) ks → IsNew seen ks
weaken_lem k seen [] h = tt
weaken_lem k seen (j ∷ ks) (h, hs) = (ground arith, weaken_lem k seen ks hs)

-- A list that a loop makes when `n` were pushed and `seen` were seen.
abbrev Collected : {A : Type 0} → (A → Text) → ℕ → ℕ → List Text → List A → Type 0
Collected key limit n seen out =
    (n + length out ≤ limit) × IsNew seen (map key out) × IsDistinct (map key out)

module _ {A : Type 0} (key : A → Text) (limit n : ℕ) (seen : List Text) (x : A) where
  first_lem : n < limit → any (text_eq (key x)) seen ≡ false → Collected key limit n seen (x ∷ [])
  first_lem h new = (omega arith, (new, tt), (refl, tt))

  push_lem :
      (out : List A)
      → any (text_eq (key x)) seen ≡ false
      → Collected key limit (suc n) (key x ∷ seen) out
      → Collected key limit n seen (x ∷ out)
  push_lem out new (few, fresh, distinct) = (
    omega arith,
    (new, weaken_lem (key x) seen (map key out) fresh),
    (apart_lem (key x) seen (map key out) fresh, distinct),
  )

  next_lem :
      (rest : List A)
      → n < limit
      → any (text_eq (key x)) seen ≡ false
      → (suc n < limit → Collected key limit (suc n) (key x ∷ seen) rest)
      → Collected key limit n seen (x ∷ elim (leb limit (suc n)) [ true ↦ [] | false ↦ rest ])
  next_lem rest h new k = elim (Bool-cases (leb limit (suc n))) [
    | inl full ↦ rw full (first_lem h new)
    | inr more ↦ rw more (push_lem rest new (k (ground arith)))
  ]

collect_lem :
    (limit n : ℕ) (seen : List Text) (ps : List DiscoveredProduct)
    → n < limit
    → Collected product_key limit n seen (collect limit n seen ps)
unfolding collect
collect_lem limit n seen [] h = (omega arith, tt, tt)
collect_lem limit n seen (p ∷ ps) h = elim (Bool-cases (is_skipped seen p)) [
  | inl skipped ↦ rw (collect, skipped) (collect_lem limit n seen ps h)
  | inr kept ↦
      rw (collect, kept)
        (next_lem product_key limit n seen p (collect limit (suc n) (product_key p ∷ seen) ps) h
          (ground arith) (collect_lem limit (suc n) (product_key p ∷ seen) ps))
]

-- The products of a home page are at most as many as asked for, and no two have the same title, in
-- lower case and cut to 60 units.
pub featured-IsDistinct :
    (limit now : ℕ) (rows : List Row)
    → 1 ≤ limit
    → (length (featured limit now rows) ≤ limit)
      × IsDistinct (map product_key (featured limit now rows))
unfolding featured
featured-IsDistinct limit now rows h =
    let (few, fresh, distinct) = collect_lem limit 0 [] (all_results (fresh_rows 40 now rows)) h in
    (omega (arith, few), distinct)

rows_lem :
    (limit per_cat n : ℕ) (seen : List Text) (rs : List Row)
    → n < limit
    → Collected (λ (c : Category). c.query) limit n seen (collect_rows limit per_cat n seen rs)
unfolding collect_rows
rows_lem limit per_cat n seen [] h = (omega arith, tt, tt)
rows_lem limit per_cat n seen (r ∷ rs) h = elim (Bool-cases (any (text_eq r.query) seen)) [
  | inl known ↦ rw (collect_rows, known) (rows_lem limit per_cat n seen rs h)
  | inr new ↦ elim (Bool-cases (is_nil (row_products per_cat r))) [
    | inl empty ↦
        rw (collect_rows, new, empty)
          (let (few, fresh, distinct) = rows_lem limit per_cat n (r.query ∷ seen) rs h in
            (few, weaken_lem r.query seen _ fresh, distinct))
    | inr filled ↦
        rw (collect_rows, new, filled)
          (next_lem (λ (c : Category). c.query) limit n seen (category_of per_cat r)
            (collect_rows limit per_cat (suc n) (r.query ∷ seen) rs) h new
            (rows_lem limit per_cat (suc n) (r.query ∷ seen) rs))
  ]
]

-- The categories of a home page are at most as many as asked for, and no two are of the same query.
pub categories-IsDistinct :
    (limit per_cat now : ℕ) (rows : List Row)
    → 1 ≤ limit
    → (length (categories limit per_cat now rows) ≤ limit)
      × IsDistinct (map (λ (c : Category). c.query) (categories limit per_cat now rows))
unfolding categories
categories-IsDistinct limit per_cat now rows h =
    let (few, fresh, distinct) = rows_lem limit per_cat 0 [] (fresh_rows 60 now rows) h in
    (omega (arith, few), distinct)
