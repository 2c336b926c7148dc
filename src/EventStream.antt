-- ===== src/EventStream.antt =====
-- The reading of server-sent events, `apiStream` of apps/dashboard/src/lib/api.ts, and the writing of
-- one by the API (`res.write` of servers.controller.ts and install.controller.ts). The decoded
-- pieces of the body are the input, and what is yielded is the text that `JSON.parse` is given.
mod Loop
mod Pieces
mod Events
mod Tests
use site_foundry.Prelude.{
  ℕ, zero, suc, ◌+◌, Bool, false, ◌&&◌, not, Option, none, some, List, [], ◌∷◌, ◌++◌, map, ◌==◌,
  if◌then◌else◌, length, take, drop, keep,
}
use site_foundry.Text.{Text, txt, is_empty, starts_with}

-- The line end
abbrev pub lf : ℕ
lf = 10

abbrev pub starts_blank : ℕ → Text → Bool
starts_blank c [] = false
starts_blank c (d ∷ s) = c == lf && d == lf

abbrev shifted : Option ℕ → Option ℕ
shifted none = none
shifted (some i) = some (suc i)

-- `buffer.indexOf('\n\n')`, `none` for -1
unfoldable pub index_of_blank : Text → Option ℕ
index_of_blank [] = none
index_of_blank (c ∷ s) =
    let later = index_of_blank s in if starts_blank c s then some 0 else shifted later

-- The inner `while` loop, with fuel: the chunks that are cut off, and the buffer that is left.
unfoldable pub cut : ℕ → Text → List Text × Text
unfolding index_of_blank
cut zero buffer = ([], buffer)
cut (suc fuel) buffer = elim (index_of_blank buffer) [
  | none ↦ ([], buffer)
  | some i ↦ let (chunks, rest) = cut fuel (drop (i + 2) buffer) in (take i buffer ∷ chunks, rest)
]

-- The loop with enough fuel: each round shortens the buffer.
abbrev pub cut_all : Text → List Text × Text
cut_all buffer = cut (suc (length buffer)) buffer

-- The outer loop, over the pieces
unfoldable pub feed : Text → List Text → List Text × Text
unfolding cut
feed buffer [] = ([], buffer)
feed buffer (piece ∷ pieces) =
    let (chunks, rest) = cut_all (buffer ++ piece) in
    let (later, left) = feed rest pieces in (chunks ++ later, left)

-- `chunk.split('\n')`: the first line and the others
unfoldable pub split_lines : Text → Text × List Text
split_lines [] = ([], [])
split_lines (c ∷ s) =
    let (first, rest) = split_lines s in if c == lf then ([], first ∷ rest) else (c ∷ first, rest)

abbrev pub lines : Text → List Text
lines s = let (first, rest) = split_lines s in first ∷ rest

pub concat : List Text → Text
concat [] = []
concat (s ∷ ss) = s ++ concat ss

-- The data of a chunk: what follows `data: ` on its lines
unfoldable pub data_of : Text → Text
unfolding split_lines concat
data_of chunk = concat (map (drop 6) (keep (λ l. starts_with l (txt "data: ")) (lines chunk)))

-- `if (data) yield …`
unfoldable pub yielded : List Text → List Text
unfolding data_of
yielded chunks = keep (λ s. not (is_empty s)) (map data_of chunks)

-- The events that `apiStream` yields for the pieces of a body
unfoldable pub api_stream : List Text → List Text
unfolding feed yielded
api_stream pieces = yielded (feed [] pieces).0

-- `data: ${…}\n\n`, as the server writes an event
unfoldable pub write_event : Text → Text
write_event json = txt "data: " ++ (json ++ lf ∷ lf ∷ [])
