-- ===== src/Sse/Machine/Lines.antt =====
-- What the lines of an event stream mean, and that the parser takes each of them so.
use slick_net.Prelude.{
  ℕ, ◌≡◌, refl, Bool, true, false, ◌&&◌, List, [], ◌∷◌, ◌++◌, append-nil, Option, none, some, Bytes,
  codes, ◌==◌, if◌then◌else◌, Bool-cases, inl, inr,
}
use slick_net.Sse.{
  Parser, field, value_start, data_field, is_empty, match_field, content_turn, consume_line_content,
  end_line,
}
use slick_net.Sse.Machine.Stream.{join}

-- The body with each CR, and each CR with the LF behind it, as an LF; the flag tells that a CR is just before.
abbrev pub normalize : Bool → Bytes → Bytes
normalize b [] = []
normalize b (c ∷ cs) =
    let later = normalize true cs in
    let rest = normalize false cs in
    if c == b'\r' then b'\n' ∷ later else if b && c == b'\n' then rest else c ∷ rest

-- What is behind a prefix of a line.
abbrev pub behind : Bytes → Bytes → Option Bytes
behind [] line = some line
behind (d ∷ prefix) [] = none
behind (d ∷ prefix) (c ∷ line) = let rest = behind prefix line in if c == d then rest else none

-- A value without the space that may open it.
abbrev pub unspaced : Bytes → Bytes
unspaced [] = []
unspaced (c ∷ cs) = if c == b' ' then cs else c ∷ cs

abbrev pub with_value : Bytes → Option Bytes → Bytes
with_value d none = d
with_value d (some v) = join d (unspaced v)

-- The data of the event behind a whole line, and the events: a blank line ends an event that has data, a line of
-- data adds its value, and any other line says nothing.
abbrev pub take_line : Bytes → Bytes → Bytes × List Bytes
take_line [] [] = ([], [])
take_line (c ∷ d) [] = ([], (c ∷ d) ∷ [])
take_line d (c ∷ line) = (with_value d (behind data_field (c ∷ line)), [])

-- The events of a normalized body, with `line` of its current line and the data `d` so far.
abbrev pub events_of : Bytes → Bytes → Bytes → List Bytes
events_of d line [] = []
events_of d line (c ∷ cs) =
    let (next, event) = take_line d line in
    let ended = events_of next [] cs in
    let longer = events_of d (line ++ c ∷ []) cs in if c == b'\n' then event ++ ended else longer

-- The parser at the start of a line, with `d` received.
abbrev pub at_start : Bytes → Parser
at_start d = record { event_data = d; state = field; matched = 0; after_cr = false }

abbrev in_field : ℕ → Bytes → Parser
in_field k d = record { event_data = d; state = field; matched = k; after_cr = false }

value-ended :
    (d cs : Bytes)
    → end_line (
        consume_line_content cs
          (record { event_data = d; state = value_start; matched = 5; after_cr = false }))
      ≡ (at_start (d ++ unspaced cs), [])
unfolding end_line consume_line_content content_turn
value-ended d [] = rw append-nil refl
value-ended d (c ∷ []) = elim (Bool-cases (c == b' ')) [
  | inl e ↦ rw (e, append-nil) refl
  | inr e ↦ rw e refl
]
value-ended d (c ∷ x ∷ cs) = elim (Bool-cases (c == b' ')) [ inl e ↦ rw e refl | inr e ↦ rw e refl ]

-- A line from the byte on that is compared with data_field at k.
field_4 :
    (d cs : Bytes)
    → end_line (consume_line_content cs (in_field 4 d))
      ≡ (at_start (with_value d (behind (codes ":") cs)), [])
unfolding end_line consume_line_content content_turn match_field
field_4 d [] = refl
field_4 d (c ∷ cs) = elim (Bool-cases (c == b':')) [
  | inl e ↦ rw e (value-ended (if is_empty d then d else d ++ b'\n' ∷ []) cs)
  | inr e ↦ rw e refl
]

field_3 :
    (d cs : Bytes)
    → end_line (consume_line_content cs (in_field 3 d))
      ≡ (at_start (with_value d (behind (codes "a:") cs)), [])
unfolding end_line consume_line_content content_turn match_field
field_3 d [] = refl
field_3 d (c ∷ cs) = elim (Bool-cases (c == b'a')) [
  | inl e ↦ rw e (field_4 d cs)
  | inr e ↦ rw e refl
]

field_2 :
    (d cs : Bytes)
    → end_line (consume_line_content cs (in_field 2 d))
      ≡ (at_start (with_value d (behind (codes "ta:") cs)), [])
unfolding end_line consume_line_content content_turn match_field
field_2 d [] = refl
field_2 d (c ∷ cs) = elim (Bool-cases (c == b't')) [
  | inl e ↦ rw e (field_3 d cs)
  | inr e ↦ rw e refl
]

field_1 :
    (d cs : Bytes)
    → end_line (consume_line_content cs (in_field 1 d))
      ≡ (at_start (with_value d (behind (codes "ata:") cs)), [])
unfolding end_line consume_line_content content_turn match_field
field_1 d [] = refl
field_1 d (c ∷ cs) = elim (Bool-cases (c == b'a')) [
  | inl e ↦ rw e (field_2 d cs)
  | inr e ↦ rw e refl
]

-- A whole line.
pub line-taken :
    (d line : Bytes)
    → end_line (consume_line_content line (at_start d))
      ≡ (at_start (take_line d line).0, (take_line d line).1)
unfolding end_line consume_line_content content_turn match_field
line-taken [] [] = refl
line-taken (x ∷ d) [] = refl
line-taken [] (c ∷ cs) = elim (Bool-cases (c == b'd')) [
  | inl e ↦ rw e (field_1 [] cs)
  | inr e ↦ rw e refl
]
line-taken (x ∷ d) (c ∷ cs) = elim (Bool-cases (c == b'd')) [
  | inl e ↦ rw e (field_1 (x ∷ d) cs)
  | inr e ↦ rw e refl
]
