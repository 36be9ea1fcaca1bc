-- ===== src/Sse.antt =====
-- include/slick/net/detail/sse_parser.hpp: the incremental text/event-stream parser.
-- `feed` returns the events that the piece completes, in the order of the calls of on_event.
pub mod Machine
mod Tests
use slick_net.Prelude.{
  ℕ, zero, suc, ◌+◌, Bool, true, false, not, ◌&&◌, ◌||◌, List, [], ◌∷◌, ◌++◌, Option, none, some,
  Bytes, codes, ◌==◌, if◌then◌else◌, length, get_elem?,
}

pub data LineState : Type 0 where
  field value_start value ignored : LineState

-- `event_data` is data_, the data of the event being received.
pub record Parser : Type 0 where
  pub event_data : Bytes
  pub state : LineState
  pub matched : ℕ
  pub after_cr : Bool

abbrev pub initial : Parser
initial = record { event_data = []; state = field; matched = 0; after_cr = false }

pub reset : Parser → Parser
reset p = record p { event_data = []; state = field; matched = 0; after_cr = false }

abbrev pub data_field : Bytes
data_field = codes "data:"

abbrev pub is_empty : Bytes → Bool
is_empty [] = true
is_empty (c ∷ cs) = false

abbrev pub is_field : LineState → Bool
is_field field = true
is_field _ = false

abbrev pub is_eol : ℕ → Bool
is_eol c = c == b'\n' || c == b'\r'

-- The bytes before the line ending, and those from it on.
pub find_line_end : Bytes → Bytes × Bytes
find_line_end [] = ([], [])
find_line_end (c ∷ cs) =
    let (line, rest) = find_line_end cs in if is_eol c then ([], c ∷ cs) else (c ∷ line, rest)

-- `*p == data_field[matched_]`; past the end of data_field there is no byte to match.
abbrev pub matches : Option ℕ → ℕ → Bool
matches none c = false
matches (some d) c = c == d

-- `case line_state::field` once the byte has matched.
pub match_field : Parser → Parser
match_field p =
    if p.matched + 1 == length data_field
    then record p {
      matched = p.matched + 1;
      event_data = if is_empty p.event_data then p.event_data else p.event_data ++ b'\n' ∷ [];
      state = value_start;
    }
    else record p { matched = p.matched + 1 }

-- One turn of the loop of consume_line_content at the byte `c`, with `cs` behind it; `loop` is the
-- loop over `cs`. In value_start a byte other than a space stays, and the next turn appends it.
pub content_turn : LineState → Parser → ℕ → Bytes → (Parser → Parser) → Parser
unfolding match_field
content_turn field p c cs loop =
    if matches (get_elem? data_field p.matched) c
    then loop (match_field p)
    else record p { state = ignored }
content_turn value_start p c cs loop =
    if c == b' '
    then loop (record p { state = value })
    else record p { state = value; event_data = p.event_data ++ c ∷ cs }
content_turn value p c cs loop = record p { event_data = p.event_data ++ c ∷ cs }
content_turn ignored p c cs loop = p

pub consume_line_content : Bytes → Parser → Parser
unfolding content_turn
consume_line_content [] p = p
consume_line_content (c ∷ cs) p = content_turn p.state p c cs (consume_line_content cs)

-- A blank line dispatches the event, if it has data.
pub end_line : Parser → Parser × List Bytes
end_line p =
    if is_field p.state && p.matched == 0 && not (is_empty p.event_data)
    then (record p { state = field; matched = 0; event_data = [] }, p.event_data ∷ [])
    else (record p { state = field; matched = 0 }, [])

-- After a CR: an LF that follows it in the piece is skipped; at the end of the piece, after_cr_ is set.
pub skip_lf : ℕ → Parser → Bytes → Parser × Bytes
skip_lf eol p [] = if eol == b'\r' then (record p { after_cr = true }, []) else (p, [])
skip_lf eol p (c ∷ cs) = if eol == b'\r' && c == b'\n' then (p, cs) else (p, c ∷ cs)

-- The rest of a turn of the loop: the line ending, then the next turn.
feed_rest : Bytes → Parser → (Parser → Bytes → Parser × List Bytes) → Parser × List Bytes
unfolding end_line skip_lf
feed_rest [] p loop = (p, [])
feed_rest (eol ∷ rest) p loop =
    let (q, next) = skip_lf eol p rest in
    let (r, event) = end_line q in let (s, events) = loop r next in (s, event ++ events)

-- The loop of feed; each turn takes a byte at least, so the length of the piece is fuel enough.
feed_loop : ℕ → Parser → Bytes → Parser × List Bytes
unfolding find_line_end consume_line_content feed_rest
feed_loop zero p bs = (p, [])
feed_loop (suc fuel) p [] = (p, [])
feed_loop (suc fuel) p (b ∷ bs) =
    let (line, rest) = find_line_end (b ∷ bs) in
    feed_rest rest (consume_line_content line p) (feed_loop fuel)

-- An LF that opens this piece completes the CRLF whose CR ended the last one.
skip_split_lf : Parser → Bytes → Parser × Bytes
skip_split_lf p [] = (p, [])
skip_split_lf p (c ∷ cs) =
    if p.after_cr
    then (record p { after_cr = false }, if c == b'\n' then cs else c ∷ cs)
    else (p, c ∷ cs)

unfoldable pub feed : Parser → Bytes → Parser × List Bytes
unfolding skip_split_lf feed_loop
feed p piece = let (q, bs) = skip_split_lf p piece in feed_loop (length bs) q bs
