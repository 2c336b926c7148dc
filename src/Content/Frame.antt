-- ===== src/Content/Frame.antt =====
-- What `setPath` leaves beside its path.
use site_foundry.Content.Path.{
  all_digits, decimal, index_of, item, put_item, item_at, put_at, put_field, child, set_child,
  container_for, set_path,
}
use site_foundry.Json.{Json, null, arr, obj, Items, nil, cons, Fields, end, member, fields, lookup}
use site_foundry.Prelude.{
  ℕ, zero, suc, ◌≡◌, refl, sym, ap, subst, ◌∙◌, ◌≢◌, ◌⊎◌, inl, inr, Bool, true, false, Option, none,
  some, List, [], ◌∷◌, arith, if◌then◌else◌, Option-cases,
}
use site_foundry.Text.{Text, text_eq_iff, text_eq_refl, show}

-- The value at a path, `null` where there is none.
unfoldable pub read_path : List Text → Json → Json
read_path [] c = c
read_path (key ∷ rest) c = read_path rest (child c key)

-- Two paths that part before either ends.
abbrev pub Diverge : List Text → List Text → Type 0
Diverge [] q = ⊥
Diverge (a ∷ p) [] = ⊥
Diverge (a ∷ p) (b ∷ q) = (a ≢ b) ⊎ ((a ≡ b) × Diverge p q)

lookup-put_field_ne :
    (a b : Text) (v : Json) (fs : Fields)
    → a ≢ b
    → lookup b (fields (put_field a v fs)) ≡ lookup b (fields fs)
unfolding put_field lookup
lookup-put_field_ne a b v end ne = ground (arith, text_eq_iff a b)
lookup-put_field_ne a b v (member j u fs) ne =
    grind (arith, lookup-put_field_ne a b v fs ne, text_eq_iff j a, text_eq_iff j b)

item_nil : (n : ℕ) → item n nil ≡ null
unfolding item
item_nil n = refl

item-put_item_ne : (m n : ℕ) (v : Json) (vs : Items) → m ≢ n → item n (put_item m v vs) ≡ item n vs
unfolding item put_item
item-put_item_ne zero zero v vs ne = absurd (ne refl)
item-put_item_ne zero (suc n) v nil ne = refl
item-put_item_ne zero (suc n) v (cons u vs) ne = refl
item-put_item_ne (suc m) zero v nil ne = refl
item-put_item_ne (suc m) zero v (cons u vs) ne = refl
item-put_item_ne (suc m) (suc n) v nil ne =
    item-put_item_ne m n v nil (λ e. ne (ap suc e)) ∙ item_nil n
item-put_item_ne (suc m) (suc n) v (cons u vs) ne = item-put_item_ne m n v vs (λ e. ne (ap suc e))

index_of-show : (a : Text) (m : ℕ) → index_of a ≡ some m → show m ≡ a
unfolding index_of
index_of-show a m h = grind (arith, text_eq_iff (show (decimal 0 a)) a)

index_of_ne : (a b : Text) (m n : ℕ) → a ≢ b → index_of a ≡ some m → index_of b ≡ some n → m ≢ n
index_of_ne a b m n ne ha hb e = ne (sym (index_of-show a m ha) ∙ ap show e ∙ index_of-show b n hb)

child-set_child_ne : (a b : Text) (v c : Json) → a ≢ b → child (set_child c a v) b ≡ child c b
unfolding child set_child
child-set_child_ne a b v (obj fs) ne = lookup-put_field_ne a b v fs ne
child-set_child_ne a b v (arr vs) ne = elim (Option-cases (index_of a)) [
  | inl no_index ↦ rw no_index refl
  | inr (m, ha) ↦ elim (Option-cases (index_of b)) [
    | inl no_index ↦ rw (ha, no_index) refl
    | inr (n, hb) ↦ rw (ha, hb) (item-put_item_ne m n v vs (index_of_ne a b m n ne ha hb))
  ]
]
child-set_child_ne a b v _ ne = refl

lookup-put_field : (a : Text) (v : Json) (fs : Fields) → lookup a (fields (put_field a v fs)) ≡ v
unfolding put_field lookup
lookup-put_field a v end = rw (text_eq_refl a) refl
lookup-put_field a v (member j u fs) = grind (arith, lookup-put_field a v fs)

item-put_item : (n : ℕ) (v : Json) (vs : Items) → item n (put_item n v vs) ≡ v
unfolding item put_item
item-put_item zero v nil = refl
item-put_item zero v (cons u vs) = refl
item-put_item (suc n) v nil = item-put_item n v nil
item-put_item (suc n) v (cons u vs) = item-put_item n v vs

item_at-put_at :
    (n : Option ℕ) (v : Json) (vs : Items)
    → (item_at n (put_at n v vs) ≡ v) ⊎ (item_at n (put_at n v vs) ≡ item_at n vs)
item_at-put_at none v vs = inr refl
item_at-put_at (some n) v vs = inl (item-put_item n v vs)

-- What was set is read back, or nothing was set.
child-set_child :
    (a : Text) (v c : Json)
    → (child (set_child c a v) a ≡ v) ⊎ (child (set_child c a v) a ≡ child c a)
unfolding child set_child
child-set_child a v (obj fs) = inl (lookup-put_field a v fs)
child-set_child a v (arr vs) = elim (Option-cases (index_of a)) [
  | inl no_index ↦ rw no_index (inr refl)
  | inr (n, h) ↦ rw h (inl (item-put_item n v vs))
]
child-set_child a v _ = inr refl

item_at_nil : (n : Option ℕ) → item_at n nil ≡ null
item_at_nil none = refl
item_at_nil (some n) = item_nil n

child-new : (b : Bool) (key : Text) → child (if b then arr nil else obj end) key ≡ null
unfolding child lookup
child-new true key = item_at_nil (index_of key)
child-new false key = refl

child-container_for : (next key : Text) (c : Json) → child (container_for next c) key ≡ child c key
unfolding child container_for
child-container_for next key (obj fs) = refl
child-container_for next key (arr vs) = refl
child-container_for next key _ = child-new (all_digits next) key

-- Writing at one path leaves what stands at every path that parts from it.
pub read_path-set_path :
    (a b : Text) (p q : List Text) (v c : Json)
    → Diverge (a ∷ p) (b ∷ q)
    → read_path (b ∷ q) (set_path a p v c) ≡ read_path (b ∷ q) c
unfolding read_path set_path
read_path-set_path a b [] q v c (inl ne) = ap (read_path q) (child-set_child_ne a b v c ne)
read_path-set_path a b [] q v c (inr (e, d)) = absurd d
read_path-set_path a b (next ∷ rest) q v c (inl ne) =
    ap (read_path q) (child-set_child_ne a b _ c ne)
read_path-set_path a b (next ∷ rest) [] v c (inr (e, d)) = absurd d
read_path-set_path a b (next ∷ rest) (b2 ∷ q2) v c (inr (e, d)) =
    subst
      (λ k.
        read_path (b2 ∷ q2)
          (child (set_child c a (set_path next rest v (container_for next (child c a)))) k)
        ≡ read_path (b2 ∷ q2) (child c k))
      e
      (elim (child-set_child a (set_path next rest v (container_for next (child c a))) c) [
        | inl written ↦
            ap (read_path (b2 ∷ q2)) written
            ∙ read_path-set_path next b2 rest q2 v (container_for next (child c a)) d
            ∙ ap (read_path q2) (child-container_for next b2 (child c a))
        | inr kept ↦ ap (read_path (b2 ∷ q2)) kept
      ])
