-- ===== src/EventStream/Pieces.antt =====
-- The chunks of a body that arrives in pieces.
use mathlib.Core.List.{append_assoc, append-nil}
use site_foundry.EventStream.{index_of_blank, cut, cut_all, feed, concat}
use site_foundry.EventStream.Loop.{index_of_blank-lt, round_shorter, cut_stable, cut_all_lem}
use site_foundry.Prelude.{
  ℕ, zero, suc, ◌+◌, ◌≤◌, ◌<◌, ◌≡◌, refl, sym, ap, ◌∙◌, inl, inr, none, some, List, [], ◌∷◌, ◌++◌,
  arith, Option-cases, length, take, drop,
}
use site_foundry.Text.{Text}

index_of_blank-append :
    (s t : Text) (i : ℕ) → index_of_blank s ≡ some i → index_of_blank (s ++ t) ≡ some i
unfolding index_of_blank
index_of_blank-append [] t i h = absurd (cc)
index_of_blank-append (c ∷ []) t i h = absurd (ground arith)
index_of_blank-append (c ∷ d ∷ s) t zero h = ground (arith, index_of_blank-append (d ∷ s) t 0)
index_of_blank-append (c ∷ d ∷ s) t (suc i) h = ground (arith, index_of_blank-append (d ∷ s) t i)

take-append : (n : ℕ) (s t : Text) → n ≤ length s → take n (s ++ t) ≡ take n s
take-append zero s t h = refl
take-append (suc n) [] t h = absurd (omega arith)
take-append (suc n) (c ∷ s) t h = ap (λ l. c ∷ l) (take-append n s t (omega arith))

drop-append : (n : ℕ) (s t : Text) → n ≤ length s → drop n (s ++ t) ≡ drop n s ++ t
drop-append zero s t h = refl
drop-append (suc n) [] t h = absurd (omega arith)
drop-append (suc n) (c ∷ s) t h = drop-append n s t (omega arith)

-- One round of the loop, with enough fuel
pub cut_all_chunk :
    (s : Text) (i : ℕ)
    → index_of_blank s ≡ some i
    → cut_all s ≡ (take i s ∷ (cut_all (drop (i + 2) s)).0, (cut_all (drop (i + 2) s)).1)
unfolding cut
cut_all_chunk s i h =
    let same =
      cut_stable (length s) (suc (length (drop (i + 2) s))) (drop (i + 2) s) (round_shorter s i h)
        (omega arith) in
    rw (cut, h, same) refl

cut_all_whole : (s : Text) → index_of_blank s ≡ none → cut_all s ≡ ([], s)
unfolding cut
cut_all_whole s h = rw (cut, h) refl

-- What two texts give one after the other
abbrev joined : List Text × Text → (Text → List Text × Text) → List Text × Text
joined (chunks, rest) more = (chunks ++ (more rest).0, (more rest).1)

cut-append :
    (f : ℕ) (s t : Text)
    → length s < f
    → cut_all (s ++ t) ≡ joined (cut_all s) (λ r. cut_all (r ++ t))
cut-append zero s t h = absurd (omega arith)
cut-append (suc f) s t h = elim (Option-cases (index_of_blank s)) [
  | inl whole ↦ rw (cut_all_whole s whole) refl
  | inr (i, e) ↦
      let within = index_of_blank-lt s i e in
      cut_all_chunk (s ++ t) i (index_of_blank-append s t i e)
      ∙ rw
          (
            take-append i s t (omega arith),
            drop-append (i + 2) s t within,
            cut-append f (drop (i + 2) s) t (omega (arith, round_shorter s i e)),
            cut_all_chunk s i e,
          )
          refl
]

-- Cutting piece by piece gives the same chunks and the same rest as cutting the whole body.
pub feed_lem :
    (buffer : Text) (pieces : List Text)
    → index_of_blank buffer ≡ none
    → feed buffer pieces ≡ cut_all (buffer ++ concat pieces)
unfolding feed concat
feed_lem buffer [] h = sym (ap cut_all (append-nil buffer) ∙ cut_all_whole buffer h)
feed_lem buffer (piece ∷ pieces) h =
    let s = buffer ++ piece in
    let (stable, ended) = cut_all_lem (suc (length s)) s (omega arith) in
    sym (
      ap cut_all (sym (append_assoc buffer piece (concat pieces)))
      ∙ cut-append (suc (length s)) s (concat pieces) (omega arith)
      ∙ rw (sym (feed_lem (cut_all s).1 pieces ended)) refl)
