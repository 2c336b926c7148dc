-- ===== src/EventStream/Events.antt =====
-- Events as the API writes them and the dashboard reads them.
use mathlib.Core.List.{append_assoc, append-nil}
use site_foundry.EventStream.{
  lf, index_of_blank, cut, cut_all, split_lines, concat, data_of, yielded, api_stream, write_event,
}
use site_foundry.EventStream.Pieces.{cut_all_chunk, feed_lem}
use site_foundry.Prelude.{
  suc, ◌+◌, ◌≡◌, refl, sym, ap, ◌∙◌, inl, inr, Bool, true, false, none, some, List, [], ◌∷◌, ◌++◌,
  map, arith, ◌==◌, Bool-cases, length, take, drop, any, All,
}
use site_foundry.Text.{Text, txt, is_empty, starts_with}

abbrev pub has_lf : Text → Bool
has_lf s = any (λ c. c == lf) s

-- The text of a JSON value as `JSON.stringify` writes it: it is not empty and has no line end.
pub record IsLine (s : Text) : Type 0 where
  pub given : is_empty s ≡ false
  pub one_line : has_lf s ≡ false

any-append : (s t : Text) → has_lf s ≡ false → has_lf t ≡ false → has_lf (s ++ t) ≡ false
any-append [] t h k = k
any-append (c ∷ s) t h k = ground (arith, any-append s t)

index_of_blank_line :
    (s t : Text) → has_lf s ≡ false → index_of_blank (s ++ lf ∷ lf ∷ t) ≡ some (length s)
unfolding index_of_blank
index_of_blank_line [] t h = refl
index_of_blank_line (c ∷ []) t h = ground arith
index_of_blank_line (c ∷ d ∷ s) t h = ground (arith, index_of_blank_line (d ∷ s) t)

take_line : (s t : Text) → take (length s) (s ++ t) ≡ s
take_line [] t = refl
take_line (c ∷ s) t = ap (λ l. c ∷ l) (take_line s t)

drop_line : (s t : Text) → drop (length s + 2) (s ++ lf ∷ lf ∷ t) ≡ t
drop_line [] t = refl
drop_line (c ∷ s) t =
    let e : length (c ∷ s) + 2 ≡ suc (length s + 2) = omega arith in rw e (drop_line s t)

split_lines_line : (s : Text) → has_lf s ≡ false → split_lines s ≡ (s, [])
unfolding split_lines
split_lines_line [] h = refl
split_lines_line (c ∷ s) h = elim (Bool-cases (c == lf)) [
  | inl end' ↦ absurd (ground arith)
  | inr more ↦ rw (more, split_lines_line s (ground arith)) refl
]

prefix_one_line : has_lf (txt "data: ") ≡ false
unfolding txt
prefix_one_line = refl

starts_data : (s : Text) → starts_with (txt "data: " ++ s) (txt "data: ") ≡ true
unfolding txt starts_with
starts_data s = refl

drop_data : (s : Text) → drop 6 (txt "data: " ++ s) ≡ s
unfolding txt
drop_data s = refl

data_of-line : (s : Text) → IsLine s → data_of (txt "data: " ++ s) ≡ s
unfolding data_of concat
data_of-line s h =
    rw
      (
        split_lines_line (txt "data: " ++ s)
            (any-append (txt "data: ") s prefix_one_line h.one_line),
        starts_data s,
        drop_data s,
      )
      (append-nil s)

cut_event :
    (s t : Text)
    → IsLine s
    → cut_all (write_event s ++ t) ≡ ((txt "data: " ++ s) ∷ (cut_all t).0, (cut_all t).1)
unfolding write_event
cut_event s t h =
    let head = txt "data: " ++ s in
    let same : (txt "data: " ++ (s ++ lf ∷ lf ∷ [])) ++ t ≡ head ++ lf ∷ lf ∷ t =
      ap (λ l. l ++ t) (sym (append_assoc (txt "data: ") s (lf ∷ lf ∷ [])))
      ∙ append_assoc head (lf ∷ lf ∷ []) t in
    ap cut_all same
    ∙ cut_all_chunk (head ++ lf ∷ lf ∷ t) (length head)
        (index_of_blank_line head t (any-append (txt "data: ") s prefix_one_line h.one_line))
    ∙ rw (take_line head (lf ∷ lf ∷ t), drop_line head t) refl

yielded_event :
    (s : Text) (chunks : List Text)
    → IsLine s
    → yielded ((txt "data: " ++ s) ∷ chunks) ≡ s ∷ yielded chunks
unfolding yielded
yielded_event s chunks h = rw (data_of-line s h, h.given) refl

empty_buffer : index_of_blank [] ≡ none
unfolding index_of_blank
empty_buffer = refl

no_events : yielded (cut_all []).0 ≡ []
unfolding yielded cut index_of_blank
no_events = refl

yielded-events :
    (events : List Text)
    → All IsLine events
    → yielded (cut_all (concat (map write_event events))).0 ≡ events
unfolding concat
yielded-events [] h = no_events
yielded-events (s ∷ events) (h, hs) = rw (cut_event s (concat (map write_event events)) h) (
    yielded_event s (cut_all (concat (map write_event events))).0 h
    ∙ ap (λ l. s ∷ l) (yielded-events events hs))

-- However the network splits the body into pieces, `apiStream` yields the events that the server
-- wrote, in their order.
pub api_stream-write_event :
    (events pieces : List Text)
    → All IsLine events
    → concat pieces ≡ concat (map write_event events)
    → api_stream pieces ≡ events
unfolding api_stream
api_stream-write_event events pieces h same =
    ap (λ r. yielded r.0) (feed_lem [] pieces empty_buffer ∙ ap cut_all same)
    ∙ yielded-events events h
