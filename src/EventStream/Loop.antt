-- ===== src/EventStream/Loop.antt =====
-- The inner loop, its test and its fuel.
use site_foundry.EventStream.{index_of_blank, cut, cut_all}
use site_foundry.Prelude.{
  ℕ, zero, suc, ◌+◌, ◌≤◌, ◌<◌, ◌≡◌, refl, inl, inr, none, some, [], ◌∷◌, arith, Option-cases,
  length, drop,
}
use site_foundry.Text.{Text, length-drop}

pub index_of_blank-lt : (s : Text) (i : ℕ) → index_of_blank s ≡ some i → i + 2 ≤ length s
unfolding index_of_blank
index_of_blank-lt [] i h = absurd (cc)
index_of_blank-lt (c ∷ []) i h = absurd (ground arith)
index_of_blank-lt (c ∷ d ∷ s) zero h = omega arith
index_of_blank-lt (c ∷ d ∷ s) (suc i) h = ground (arith, index_of_blank-lt (d ∷ s) i)

pub round_shorter :
    (s : Text) (i : ℕ) → index_of_blank s ≡ some i → length (drop (i + 2) s) < length s
round_shorter s i h = omega (arith, index_of_blank-lt s i h, length-drop (i + 2) s)

-- With fuel beyond the length of the buffer, two runs agree.
pub cut_stable : (f g : ℕ) (s : Text) → length s < f → length s < g → cut f s ≡ cut g s
unfolding cut
cut_stable zero g s hf hg = absurd (omega arith)
cut_stable (suc f) zero s hf hg = absurd (omega arith)
cut_stable (suc f) (suc g) s hf hg = elim (Option-cases (index_of_blank s)) [
  | inl none' ↦ rw (cut, none') refl
  | inr (i, h) ↦
      let same =
        cut_stable f g (drop (i + 2) s) (omega (arith, round_shorter s i h))
          (omega (arith, round_shorter s i h)) in
      rw (cut, h, same) refl
]

cut_ends : (f : ℕ) (s : Text) → length s < f → index_of_blank (cut f s).1 ≡ none
unfolding cut
cut_ends zero s h = absurd (omega arith)
cut_ends (suc f) s h = elim (Option-cases (index_of_blank s)) [
  | inl none' ↦ rw (cut, none') none'
  | inr (i, e) ↦ rw (cut, e) (cut_ends f (drop (i + 2) s) (omega (arith, round_shorter s i e)))
]

-- The inner loop ends: with fuel beyond the length of the buffer it stops because no blank line is
-- left in the buffer, and any such fuel gives the same chunks and the same rest.
pub cut_all_lem :
    (fuel : ℕ) (buffer : Text)
    → length buffer < fuel
    → (cut fuel buffer ≡ cut_all buffer) × (index_of_blank (cut fuel buffer).1 ≡ none)
cut_all_lem fuel buffer h =
    (cut_stable fuel (suc (length buffer)) buffer h (omega arith), cut_ends fuel buffer h)
