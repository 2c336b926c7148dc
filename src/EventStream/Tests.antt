-- ===== src/EventStream/Tests.antt =====
-- A body of two events in three pieces, and the theorems at that input.
use site_foundry.EventStream.{
  index_of_blank, cut, cut_all, feed, concat, yielded, api_stream, write_event,
}
use site_foundry.EventStream.Loop.{cut_all_lem}
use site_foundry.EventStream.Events.{IsLine, api_stream-write_event}
use site_foundry.Prelude.{◌<◌, ◌≡◌, refl, none, List, [], ◌∷◌, map, arith, length, All}
use site_foundry.Text.{Text, txt, starts_with}

abbrev events : List Text
events = txt "{\"a\":1}" ∷ txt "2" ∷ []

abbrev pieces : List Text
pieces = txt "data: {\"a\"" ∷ txt ":1}\n" ∷ txt "\ndata: 2\n\n" ∷ []

api_stream_test : api_stream pieces ≡ events
unfolding api_stream feed cut yielded txt starts_with
api_stream_test = refl

events_test : All IsLine events
unfolding txt
events_test =
    (record { given = refl; one_line = refl }, (record { given = refl; one_line = refl }, tt))

pieces_test : concat pieces ≡ concat (map write_event events)
unfolding write_event concat txt
pieces_test = refl

api_stream-write_event_example : api_stream pieces ≡ events
api_stream-write_event_example = api_stream-write_event events pieces events_test pieces_test

short_enough : length (txt "data: 2\n\nda") < 40
unfolding txt
short_enough = omega arith

cut_all_lem_example :
    (cut 40 (txt "data: 2\n\nda") ≡ cut_all (txt "data: 2\n\nda"))
    × (index_of_blank (cut 40 (txt "data: 2\n\nda")).1 ≡ none)
cut_all_lem_example = cut_all_lem 40 (txt "data: 2\n\nda") short_enough
