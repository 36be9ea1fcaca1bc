-- ===== src/Sse/Machine/Bounds.antt =====
-- The index matched_ stays inside data_field.
use slick_net.Prelude.{ℕ, ◌<◌, ◌≡◌, refl, true, false, [], ◌∷◌, arith, Bytes, length}
use slick_net.Sse.{
  Parser, LineState, field, value_start, value, ignored, data_field, content_turn,
  consume_line_content, end_line, feed,
}
use slick_net.Sse.Machine.{step, run}
use slick_net.Sse.Machine.Equivalence.{feed-run}

-- The parser reads data_field[matched_] only while it matches a line against the field.
abbrev pub IsIndexed : Parser → Type 0
IsIndexed p = p.state ≡ field → p.matched < length data_field

content_turn-IsIndexed :
    (s : LineState) (p : Parser) (c : ℕ)
    → p.state ≡ s
    → IsIndexed p
    → IsIndexed (content_turn s p c [] (λ q. q))
unfolding content_turn
content_turn-IsIndexed field p c e h = ground (arith, h e)
content_turn-IsIndexed value_start p c e h = ground arith
content_turn-IsIndexed value p c e h = ground arith
content_turn-IsIndexed ignored p c e h = ground arith

end_line-IsIndexed : (p : Parser) → IsIndexed (end_line p).0
unfolding end_line
end_line-IsIndexed p = ground arith

step-IsIndexed : (p : Parser) (c : ℕ) → IsIndexed p → IsIndexed (step p c).0
unfolding step consume_line_content
step-IsIndexed p c h = ground (
  arith,
  content_turn-IsIndexed p.state p c refl h,
  content_turn-IsIndexed p.state (record p { after_cr = false }) c refl h,
  end_line-IsIndexed p,
  end_line-IsIndexed (record p { after_cr = true }),
)

run-IsIndexed : (bs : Bytes) (p : Parser) → IsIndexed p → IsIndexed (run p bs).0
unfolding run
run-IsIndexed [] p h = h
run-IsIndexed (c ∷ cs) p h = run-IsIndexed cs (step p c).0 (step-IsIndexed p c h)

-- Whatever the bytes and however they are cut, `feed` keeps the index into data_field in range.
pub feed-IsIndexed : (p : Parser) (piece : Bytes) → IsIndexed p → IsIndexed (feed p piece).0
feed-IsIndexed p piece h = rw (feed-run piece p) (run-IsIndexed piece p h)
