-- ===== src/Sse/Machine/Stream.antt =====
-- What the parser reads out of a well-formed event stream, and the bound on its index into data_field.
use slick_net.Prelude.{
  ℕ, ◌≡◌, ◌≢◌, refl, sym, ap, ◌∙◌, true, false, List, [], ◌∷◌, ◌++◌, map, arith, Bytes, codes, ◌==◌,
  if◌then◌else◌,
}
use slick_net.Sse.{
  Parser, field, value_start, value, initial, is_eol, is_empty, consume_line_content, end_line,
  find_line_end, feed,
}
use slick_net.Sse.Machine.{run, run-line, find_line_end-cons, content-value, run-after_cr, run-nil}
use slick_net.Sse.Machine.Equivalence.{feed-run, after, at_cr, run-lf, run-cr}

-- The line endings of the format.
pub data LineEnd : Type 0 where
  lf cr crlf : LineEnd

abbrev pub ending : LineEnd → Bytes
ending lf = b'\n' ∷ []
ending cr = b'\r' ∷ []
ending crlf = b'\r' ∷ b'\n' ∷ []

-- A line of data, which holds no line ending.
abbrev pub IsLine : Bytes → Type 0
IsLine [] = Unit {0}
IsLine (c ∷ cs) = (is_eol c ≡ false) × IsLine cs

-- The data of an event after one more line: the earlier data, if there is any, an LF, and the line.
abbrev pub join : Bytes → Bytes → Bytes
join d v = (if is_empty d then d else d ++ b'\n' ∷ []) ++ v

abbrev pub joined : Bytes → List Bytes → Bytes
joined d [] = d
joined d (v ∷ vs) = joined (join d v) vs

abbrev pub data_lines : LineEnd → List Bytes → Bytes → Bytes
data_lines e [] rest = rest
data_lines e (v ∷ vs) rest = codes "data: " ++ (v ++ (ending e ++ data_lines e vs rest))

-- The body that sends the events, each as its lines and a blank line.
abbrev pub render : LineEnd → List (List Bytes) → Bytes
render e [] = []
render e (vs ∷ events) = data_lines e vs (ending e ++ render e events)

abbrev pub AreLines : List Bytes → Type 0
AreLines [] = Unit {0}
AreLines (v ∷ vs) = IsLine v × AreLines vs

-- Lines hold no line ending, and each event has data.
abbrev pub AreEvents : List (List Bytes) → Type 0
AreEvents [] = Unit {0}
AreEvents (vs ∷ events) = AreLines vs × (joined [] vs ≢ []) × AreEvents events

-- The parser at the start of a line, with `d` received.
abbrev at_start : Bytes → Parser
at_start d = record { event_data = d; state = field; matched = 0; after_cr = false }

events : Parser → Bytes → List Bytes
events p bs = (run p bs).1

-- A CR must not be followed by an LF that ends another line.
abbrev NotLf : Bytes → Type 0
NotLf [] = Unit {0}
NotLf (c ∷ cs) = (c == b'\n') ≡ false

abbrev Follows : LineEnd → Bytes → Type 0
Follows cr rest = NotLf rest
Follows _ rest = Unit {0}

events-at_cr :
    (p : Parser) (rest : Bytes)
    → p.after_cr ≡ false
    → NotLf rest
    → events (at_cr p) rest ≡ events p rest
unfolding events
events-at_cr p [] h n =
    ap (λ (r : Parser × List Bytes). r.1) (run-nil (at_cr p))
    ∙ sym (ap (λ (r : Parser × List Bytes). r.1) (run-nil p))
events-at_cr p (c ∷ cs) h n =
    rw n at (ap (λ (r : Parser × List Bytes). r.1) (run-after_cr p c cs h))

end_line-keeps : (p : Parser) → (end_line p).0.after_cr ≡ p.after_cr
unfolding end_line
end_line-keeps p = ground arith

events-ending :
    (e : LineEnd) (p : Parser) (rest : Bytes)
    → p.after_cr ≡ false
    → Follows e rest
    → events p (ending e ++ rest) ≡ (end_line p).1 ++ events (end_line p).0 rest
unfolding events
events-ending lf p rest h f =
    ap (λ (r : Parser × List Bytes). r.1) (run-lf b'\n' rest p refl refl h)
events-ending cr p rest h f =
    ap (λ (r : Parser × List Bytes). r.1) (run-cr b'\r' rest p refl h)
    ∙ ap (◌++◌ (end_line p).1) (events-at_cr (end_line p).0 rest (end_line-keeps p ∙ h) f)
events-ending crlf p rest h f =
    ap (λ (r : Parser × List Bytes). r.1)
      (run-cr b'\r' (b'\n' ∷ rest) p refl h
        ∙ ap (after (end_line p).1) (run-after_cr (end_line p).0 b'\n' rest (end_line-keeps p ∙ h)))

find_line_end-line :
    (v rest : Bytes) (c : ℕ) (cs : Bytes)
    → IsLine v
    → rest ≡ c ∷ cs
    → is_eol c ≡ true
    → find_line_end (v ++ rest) ≡ (v, rest)
find_line_end-line [] rest c cs l r e = rw r (unfold find_line_end in rw e)
find_line_end-line (x ∷ v) rest c cs l r e =
    find_line_end-cons x (v ++ rest) l.0 ∙ rw (find_line_end-line v rest c cs l.1 r e)

ending-eol :
    (e : LineEnd) (rest : Bytes)
    → (c : ℕ) × (cs : Bytes) × (ending e ++ rest ≡ c ∷ cs) × (is_eol c ≡ true)
ending-eol lf rest = (b'\n', rest, refl, refl)
ending-eol cr rest = (b'\r', rest, refl, refl)
ending-eol crlf rest = (b'\r', b'\n' ∷ rest, refl, refl)

events-through :
    (line rest : Bytes) (p : Parser)
    → IsLine line
    → p.after_cr ≡ false
    → ((c : ℕ) × (cs : Bytes) × (rest ≡ c ∷ cs) × (is_eol c ≡ true))
    → events p (line ++ rest) ≡ events (consume_line_content line p) rest
unfolding events
events-through line rest p l h (c, cs, b, k) =
    rw (find_line_end-line line rest c cs l b k) at
      (ap (λ (r : Parser × List Bytes). r.1) (run-line (line ++ rest) p h))

content-data :
    (d v : Bytes)
    → consume_line_content (codes "data: " ++ v) (at_start d)
      ≡ record { event_data = join d v; state = value; matched = 5; after_cr = false }
unfolding consume_line_content
content-data d v = content-value v (record {
  event_data = if is_empty d then d else d ++ b'\n' ∷ [];
  state = value_start;
  matched = 5;
  after_cr = false;
})

events-line :
    (d v : Bytes) (e : LineEnd) (rest : Bytes)
    → IsLine v
    → Follows e rest
    → events (at_start d) (codes "data: " ++ (v ++ (ending e ++ rest)))
      ≡ events (at_start (join d v)) rest
events-line d v e rest l f =
    events-through (codes "data: " ++ v) (ending e ++ rest) (at_start d) (l' v l) refl
      (ending-eol e rest)
    ∙ ap (λ (p : Parser). events p (ending e ++ rest)) (content-data d v)
    ∙ events-ending e
        (record { event_data = join d v; state = value; matched = 5; after_cr = false }) rest refl f
    ∙ unfold end_line in refl
  where
    l' : (w : Bytes) → IsLine w → IsLine (codes "data: " ++ w)
    l' w k = (refl, (refl, (refl, (refl, (refl, (refl, k))))))

Follows-lines :
    (e : LineEnd) (vs : List Bytes) (rest : Bytes)
    → Follows e rest
    → Follows e (data_lines e vs rest)
Follows-lines e [] rest f = f
Follows-lines lf (v ∷ vs) rest f = tt
Follows-lines cr (v ∷ vs) rest f = refl
Follows-lines crlf (v ∷ vs) rest f = tt

events-data_lines :
    (vs : List Bytes) (d : Bytes) (e : LineEnd) (rest : Bytes)
    → AreLines vs
    → Follows e rest
    → events (at_start d) (data_lines e vs rest) ≡ events (at_start (joined d vs)) rest
events-data_lines [] d e rest l f = refl
events-data_lines (v ∷ vs) d e rest l f =
    events-line d v e (data_lines e vs rest) l.0 (Follows-lines e vs rest f)
    ∙ events-data_lines vs (join d v) e rest l.1 f

Follows-ending : (e : LineEnd) (rest : Bytes) → Follows e (ending e ++ rest)
Follows-ending lf rest = tt
Follows-ending cr rest = refl
Follows-ending crlf rest = tt

Follows-render : (e : LineEnd) (sent : List (List Bytes)) → Follows e (render e sent)
Follows-render lf sent = tt
Follows-render cr [] = tt
Follows-render cr (vs ∷ sent) = Follows-lines cr vs (ending cr ++ render cr sent) refl
Follows-render crlf sent = tt

blank_line : (d : Bytes) → d ≢ [] → end_line (at_start d) ≡ (at_start [], d ∷ [])
unfolding end_line
blank_line [] n = absurd (n refl)
blank_line (c ∷ d) n = refl

events-render :
    (e : LineEnd) (sent : List (List Bytes))
    → AreEvents sent
    → events (at_start []) (render e sent) ≡ map (joined []) sent
events-render e [] h = unfold events run in refl
events-render e (vs ∷ sent) h =
    events-data_lines vs [] e (ending e ++ render e sent) h.0 (Follows-ending e (render e sent))
    ∙ events-ending e (at_start (joined [] vs)) (render e sent) refl (Follows-render e sent)
    ∙ rw (blank_line (joined [] vs) h.1) (ap (◌∷◌ (joined [] vs)) (events-render e sent h.2))

-- A body that sends events as their data lines, each ended the same way by LF, CR or CRLF, and a
-- blank line gives exactly those events, when no line holds a line ending and no event is empty.
pub feed-render :
    (e : LineEnd) (sent : List (List Bytes))
    → AreEvents sent
    → (feed initial (render e sent)).1 ≡ map (joined []) sent
feed-render e sent h =
    ap (λ (r : Parser × List Bytes). r.1) (feed-run (render e sent) initial)
    ∙ unfold events in events-render e sent h
