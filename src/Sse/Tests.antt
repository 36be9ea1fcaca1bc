-- ===== src/Sse/Tests.antt =====
-- Small bodies, and the theorems at them.
use slick_net.Prelude.{◌≡◌, refl, false, List, [], ◌∷◌, ◌++◌, map, arith, Bytes, codes}
use slick_net.Sse.{
  initial, feed, skip_split_lf, feed_loop, feed_rest, find_line_end, consume_line_content,
  content_turn, match_field, end_line, skip_lf,
}
use slick_net.Sse.Machine.Equivalence.{feed-append}
use slick_net.Sse.Machine.Stream.{crlf, render, joined, AreEvents, feed-render}
use slick_net.Sse.Machine.Lines.{normalize, events_of}
use slick_net.Sse.Machine.Reference.{feed-events_of}
use slick_net.Sse.Machine.Bounds.{IsIndexed, feed-IsIndexed}

abbrev two_lines : List (List Bytes)
two_lines = (codes "a" ∷ codes "b:" ∷ []) ∷ (codes "c" ∷ []) ∷ []

-- A CR that ends a piece.
abbrev cut : Bytes
cut = codes "data: x" ++ b'\r' ∷ []

-- Its LF, and a blank line.
abbrev remains : Bytes
remains = b'\n' ∷ b'\r' ∷ b'\n' ∷ []

test_feed : (feed initial (cut ++ remains)).1 ≡ codes "x" ∷ []
unfolding skip_split_lf feed_loop feed_rest find_line_end consume_line_content content_turn
    match_field end_line skip_lf feed
test_feed = refl

two_lines-AreEvents : AreEvents two_lines
two_lines-AreEvents =
    (((refl, tt), ((refl, (refl, tt)), tt)), (λ e. cc), (((refl, tt), tt), (λ e. cc), tt))

feed-render_example : (feed initial (render crlf two_lines)).1 ≡ map (joined []) two_lines
feed-render_example = feed-render crlf two_lines two_lines-AreEvents

feed-append_example : feed initial (cut ++ remains) ≡ (
  (feed (feed initial cut).0 remains).0,
  (feed initial cut).1 ++ (feed (feed initial cut).0 remains).1,
)
feed-append_example = feed-append cut remains initial

feed-IsIndexed_example : IsIndexed (feed initial cut).0
feed-IsIndexed_example = feed-IsIndexed initial cut (ground arith)

-- A comment, a line without a space, mixed line endings, and an event that is not ended.
abbrev mixed : Bytes
mixed =
    codes ":hi"
    ++ (b'\r' ∷ codes "data:a"
        ++ (b'\r' ∷ b'\n' ∷ codes "data: b" ++ (b'\n' ∷ b'\r' ∷ codes "data: c" ++ b'\n' ∷ [])))

feed-events_of_example : (feed initial mixed).1 ≡ events_of [] [] (normalize false mixed)
feed-events_of_example = feed-events_of mixed

test_mixed : events_of [] [] (normalize false mixed) ≡ (b'a' ∷ b'\n' ∷ b'b' ∷ []) ∷ []
test_mixed = refl
