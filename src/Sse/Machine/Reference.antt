-- ===== src/Sse/Machine/Reference.antt =====
-- What the parser makes of any body: the lines of the body, and what each of them means.
use slick_net.Prelude.{
  ℕ, ◌≡◌, refl, sym, ap, ◌∙◌, true, false, List, [], ◌∷◌, ◌++◌, arith, Bytes, ◌==◌, Bool-cases, inl,
  inr,
}
use slick_net.Sse.{Parser, initial, consume_line_content, feed}
use slick_net.Sse.Machine.{
  run, content-cons, run-nil, run-cons_content, run-not_lf, content-after_cr,
}
use slick_net.Sse.Machine.Equivalence.{feed-run, at_cr, run-lf, run-cr}
use slick_net.Sse.Machine.Lines.{normalize, take_line, events_of, at_start, line-taken}

-- A line and one byte more.
content-snoc :
    (line : Bytes) (c : ℕ) (p : Parser)
    → consume_line_content (c ∷ []) (consume_line_content line p)
      ≡ consume_line_content (line ++ c ∷ []) p
content-snoc [] c p = unfold consume_line_content in refl
content-snoc (x ∷ line) c p =
    ap (consume_line_content (c ∷ [])) (content-cons x line p)
    ∙ content-snoc line c (consume_line_content (x ∷ []) p)
    ∙ sym (content-cons x (line ++ c ∷ []) p)

-- The parser behind a part of a line.
abbrev within : Bytes → Bytes → Parser
within d line = consume_line_content line (at_start d)

events : Parser → Bytes → List Bytes
events p bs = (run p bs).1

-- What is to be shown of a body, within a line, and at its start behind a CR.
Reads : Bytes → Type 0
Reads bs = (d line : Bytes) → events (within d line) bs ≡ events_of d line (normalize false bs)

ReadsCr : Bytes → Type 0
ReadsCr bs = (d : Bytes) → events (at_cr (at_start d)) bs ≡ events_of d [] (normalize true bs)

within-after_cr : (d line : Bytes) → (within d line).after_cr ≡ false
within-after_cr d line = content-after_cr line (at_start d)

Reads-cr : (c : ℕ) (cs : Bytes) → (c == b'\r') ≡ true → ReadsCr cs → Reads (c ∷ cs)
unfolding Reads ReadsCr events
Reads-cr c cs e ih d line =
    ap (λ (r : Parser × List Bytes). r.1) (run-cr c cs (within d line) e (within-after_cr d line))
    ∙ rw (line-taken d line, e) (ap (◌++◌ (take_line d line).1) (ih (take_line d line).0))

Reads-lf :
    (c : ℕ) (cs : Bytes) → (c == b'\r') ≡ false → (c == b'\n') ≡ true → Reads cs → Reads (c ∷ cs)
unfolding Reads events consume_line_content
Reads-lf c cs n e ih d line =
    ap (λ (r : Parser × List Bytes). r.1)
      (run-lf c cs (within d line) (ground (arith, e)) n (within-after_cr d line))
    ∙ rw (line-taken d line, n, e) (ap (◌++◌ (take_line d line).1) (ih (take_line d line).0 []))

Reads-content :
    (c : ℕ) (cs : Bytes) → (c == b'\r') ≡ false → (c == b'\n') ≡ false → Reads cs → Reads (c ∷ cs)
unfolding Reads events
Reads-content c cs n e ih d line =
    ap (λ (r : Parser × List Bytes). r.1)
      (run-cons_content c cs (within d line) (within-after_cr d line) (ground (arith, n, e)))
    ∙ ap (λ (q : Parser). (run q cs).1) (content-snoc line c (at_start d))
    ∙ rw (n, e) (ih d (line ++ c ∷ []))

Reads-cons : (c : ℕ) (cs : Bytes) → Reads cs → ReadsCr cs → Reads (c ∷ cs)
Reads-cons c cs ih ih' = elim (Bool-cases (c == b'\r')) [
  | inl e ↦ Reads-cr c cs e ih'
  | inr n ↦ elim (Bool-cases (c == b'\n')) [
    | inl e ↦ Reads-lf c cs n e ih
    | inr e ↦ Reads-content c cs n e ih
  ]
]

normalize-not_lf :
    (c : ℕ) (cs : Bytes) → (c == b'\n') ≡ false → normalize true (c ∷ cs) ≡ normalize false (c ∷ cs)
normalize-not_lf c cs e = rw e refl

normalize-lf :
    (c : ℕ) (cs : Bytes) → (c == b'\n') ≡ true → normalize true (c ∷ cs) ≡ normalize false cs
normalize-lf c cs e = let n : (c == b'\r') ≡ false = ground (arith, e) in rw (n, e) refl

ReadsCr-cons : (c : ℕ) (cs : Bytes) → Reads cs → ReadsCr cs → ReadsCr (c ∷ cs)
unfolding Reads ReadsCr events consume_line_content
ReadsCr-cons c cs ih ih' d = elim (Bool-cases (c == b'\n')) [
  | inl e ↦
      ap (λ (r : Parser × List Bytes). r.1) (rw e at (run-not_lf (at_cr (at_start d)) c cs refl))
      ∙ ih d []
      ∙ ap (events_of d []) (sym (normalize-lf c cs e))
  | inr e ↦
      ap (λ (r : Parser × List Bytes). r.1) (rw e at (run-not_lf (at_cr (at_start d)) c cs refl))
      ∙ Reads-cons c cs ih ih' d []
      ∙ ap (events_of d []) (sym (normalize-not_lf c cs e))
]

Reads-all : (bs : Bytes) → Reads bs × ReadsCr bs
unfolding Reads ReadsCr events
Reads-all [] = (
  λ d line. ap (λ (r : Parser × List Bytes). r.1) (run-nil (within d line)),
  λ d. ap (λ (r : Parser × List Bytes). r.1) (run-nil (at_cr (at_start d))),
)
Reads-all (c ∷ cs) = let (a, b) = Reads-all cs in (Reads-cons c cs a b, ReadsCr-cons c cs a b)

-- Whatever a body is, the parser gives the events of its lines: the line endings LF, CR and CRLF may be mixed, lines
-- of other fields and comments say nothing, and an event that the body does not end is not given.
pub feed-events_of : (body : Bytes) → (feed initial body).1 ≡ events_of [] [] (normalize false body)
unfolding Reads events run consume_line_content
feed-events_of body =
    ap (λ (r : Parser × List Bytes). r.1) (feed-run body initial) ∙ (Reads-all body).0 [] []
