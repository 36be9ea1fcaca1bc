-- ===== src/Sse/Machine.antt =====
-- A reference for the parser that takes one byte at a time and keeps nothing else in mind.
pub mod Equivalence
pub mod Stream
pub mod Bounds
pub mod Lines
pub mod Reference
use slick_net.Prelude.{
  ℕ, zero, suc, ◌+◌, ◌≤◌, ◌<◌, ◌≡◌, refl, sym, ap, ◌∙◌, inl, inr, Bool, true, false, not, ◌&&◌,
  ◌||◌, List, [], ◌∷◌, ◌++◌, append-nil, append_assoc, Option, none, some, arith, Bytes, ◌==◌,
  if◌then◌else◌, Bool-cases, length, get_elem?,
}
use slick_net.Sse.{
  Parser, LineState, field, value_start, value, ignored, matches, data_field, is_eol, is_empty,
  is_field, match_field, content_turn, consume_line_content, end_line, find_line_end, skip_lf,
  feed_rest, feed_loop, feed,
}

-- One byte of a line.
abbrev consume : ℕ → Parser → Parser
consume c = consume_line_content (c ∷ [])

-- A byte that no CR in front of it explains away.
plain_step : Parser → ℕ → Parser × List Bytes
unfolding end_line
plain_step p c =
    if c == b'\n'
    then end_line p
    else if c == b'\r'
    then end_line (record p { after_cr = true })
    else (consume c p, [])

pub step : Parser → ℕ → Parser × List Bytes
unfolding plain_step
step p c =
    if p.after_cr
    then if c == b'\n'
      then (record p { after_cr = false }, [])
      else plain_step (record p { after_cr = false }) c
    else plain_step p c

-- The events of each byte, in order.
pub run : Parser → Bytes → Parser × List Bytes
run p [] = (p, [])
run p (c ∷ cs) = let (q, event) = step p c in let (r, events) = run q cs in (r, event ++ events)

run-nil : (p : Parser) → run p [] ≡ (p, [])
unfolding run
run-nil p = refl

-- Inside a value, and in a line that is ignored, the loop ends at its first turn.
content-value :
    (cs : Bytes) (p : Parser)
    → consume_line_content cs (record p { state = value })
      ≡ record p { state = value; event_data = p.event_data ++ cs }
unfolding consume_line_content
content-value [] p = rw append-nil
content-value (c ∷ cs) p = refl

content-ignored :
    (cs : Bytes) (p : Parser)
    → consume_line_content cs (record p { state = ignored }) ≡ record p { state = ignored }
unfolding consume_line_content
content-ignored [] p = refl
content-ignored (c ∷ cs) p = refl

content_turn-cons :
    (s : LineState) (p : Parser) (c : ℕ) (cs : Bytes)
    → p.state ≡ s
    → content_turn s p c cs (consume_line_content cs)
      ≡ consume_line_content cs (content_turn s p c [] (λ q. q))
unfolding content_turn
content_turn-cons field p c cs e = ground (arith, content-ignored cs p)
content_turn-cons value_start p c cs e = ground (
  arith,
  content-value cs (record p { event_data = p.event_data ++ c ∷ [] }),
  append_assoc p.event_data (c ∷ []) cs,
)
content_turn-cons value p c cs e = ground (
  arith,
  content-value cs (record p { event_data = p.event_data ++ c ∷ [] }),
  append_assoc p.event_data (c ∷ []) cs,
)
content_turn-cons ignored p c cs e = ground (arith, content-ignored cs p)

-- Content is taken byte by byte.
content-cons :
    (c : ℕ) (cs : Bytes) (p : Parser)
    → consume_line_content (c ∷ cs) p ≡ consume_line_content cs (consume c p)
content-cons c cs p = unfold consume_line_content in content_turn-cons p.state p c cs refl

content_turn-after_cr :
    (s : LineState) (p : Parser) (c : ℕ) → (content_turn s p c [] (λ q. q)).after_cr ≡ p.after_cr
unfolding content_turn
content_turn-after_cr field p c = ground arith
content_turn-after_cr value_start p c = ground arith
content_turn-after_cr value p c = refl
content_turn-after_cr ignored p c = refl

content-after_cr : (cs : Bytes) (p : Parser) → (consume_line_content cs p).after_cr ≡ p.after_cr
content-after_cr [] p = unfold consume_line_content in refl
content-after_cr (c ∷ cs) p = rw (content-cons c cs p) (
    content-after_cr cs (consume c p)
    ∙ unfold consume_line_content in content_turn-after_cr p.state p c)

step-content :
    (p : Parser) (c : ℕ) → p.after_cr ≡ false → is_eol c ≡ false → step p c ≡ (consume c p, [])
unfolding step
step-content p c h e = ground arith

find_line_end-cons :
    (c : ℕ) (cs : Bytes)
    → is_eol c ≡ false
    → find_line_end (c ∷ cs) ≡ (c ∷ (find_line_end cs).0, (find_line_end cs).1)
unfolding find_line_end
find_line_end-cons c cs e = rw e

run-cons_content :
    (c : ℕ) (cs : Bytes) (p : Parser)
    → p.after_cr ≡ false
    → is_eol c ≡ false
    → run p (c ∷ cs) ≡ run (consume c p) cs
unfolding run
run-cons_content c cs p h e = rw (step-content p c h e)

-- A line, without its ending, completes no event.
run-line :
    (bs : Bytes) (p : Parser)
    → p.after_cr ≡ false
    → run p bs ≡ run (consume_line_content (find_line_end bs).0 p) (find_line_end bs).1
run-line [] p h = unfold run find_line_end consume_line_content in refl
run-line (c ∷ cs) p h = elim (Bool-cases (is_eol c)) [
  | inl e ↦ unfold find_line_end in rw e (unfold consume_line_content in refl)
  | inr e ↦
      rw (find_line_end-cons c cs e, content-cons c (find_line_end cs).0 p)
        (run-cons_content c cs p h e ∙ run-line cs (consume c p) (content-after_cr (c ∷ []) p ∙ h))
]

-- What follows a line is empty or starts with its ending.
find_line_end-rest :
    (bs : Bytes) (c : ℕ) (cs : Bytes) → (find_line_end bs).1 ≡ c ∷ cs → is_eol c ≡ true
unfolding find_line_end
find_line_end-rest [] c cs e = cc
find_line_end-rest (b ∷ bs) c cs e = ground (arith, find_line_end-rest bs c cs)

length-find_line_end : (bs : Bytes) → length (find_line_end bs).1 ≤ length bs
unfolding find_line_end
length-find_line_end [] = omega arith
length-find_line_end (b ∷ bs) = ground (arith, length-find_line_end bs)

-- A CR leaves the parser as an LF does, but for an LF that may follow.
run-after_cr :
    (p : Parser) (c : ℕ) (cs : Bytes)
    → p.after_cr ≡ false
    → run (record p { after_cr = true }) (c ∷ cs)
      ≡ (if c == b'\n' then run p cs else run p (c ∷ cs))
unfolding run step
run-after_cr p c cs h = ground arith

feed_loop-nil : (fuel : ℕ) (p : Parser) → feed_loop fuel p [] ≡ (p, [])
unfolding feed_loop
feed_loop-nil zero p = refl
feed_loop-nil (suc fuel) p = refl

end_line-after_cr :
    (p : Parser)
    → end_line (record p { after_cr = true })
      ≡ (record (end_line p).0 { after_cr = true }, (end_line p).1)
unfolding end_line
end_line-after_cr p = ground arith

end_line-keeps : (p : Parser) → (end_line p).0.after_cr ≡ p.after_cr
unfolding end_line
end_line-keeps p = ground arith

feed_loop-suc :
    (fuel b : ℕ) (bs : Bytes) (p : Parser)
    → feed_loop (suc fuel) p (b ∷ bs)
      ≡ feed_rest
          (find_line_end (b ∷ bs)).1
          (consume_line_content (find_line_end (b ∷ bs)).0 p)
          (feed_loop fuel)
unfolding feed_loop
feed_loop-suc fuel b bs p = refl

run-not_lf :
    (p : Parser) (c : ℕ) (cs : Bytes)
    → p.after_cr ≡ true
    → run p (c ∷ cs) ≡ (
        if c == b'\n'
        then run (record p { after_cr = false }) cs
        else run (record p { after_cr = false }) (c ∷ cs))
unfolding run step
run-not_lf p c cs h = ground arith

feed-at_cr :
    (p : Parser) (c : ℕ) (cs : Bytes)
    → p.after_cr ≡ true
    → feed p (c ∷ cs) ≡ (
        let bs = if c == b'\n' then cs else c ∷ cs in
        feed_loop (length bs) (record p { after_cr = false }) bs)
unfolding feed
feed-at_cr p c cs h = rw h

feed-plain :
    (p : Parser) (c : ℕ) (cs : Bytes)
    → p.after_cr ≡ false
    → feed p (c ∷ cs) ≡ feed_loop (suc (length cs)) p (c ∷ cs)
unfolding feed
feed-plain p c cs h = rw h
