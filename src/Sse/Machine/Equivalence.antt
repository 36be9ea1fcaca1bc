-- ===== src/Sse/Machine/Equivalence.antt =====
-- The loop of `feed`, which takes a line a turn, runs the byte-at-a-time machine.
use slick_net.Prelude.{
  ℕ, zero, suc, ◌≤◌, ◌≡◌, refl, sym, ap, ◌∙◌, inl, inr, true, false, List, [], ◌∷◌, ◌++◌,
  append_assoc, arith, Bytes, ◌==◌, if◌then◌else◌, Bool-cases, length,
}
use slick_net.Sse.{
  Parser, is_eol, consume_line_content, end_line, find_line_end, skip_lf, feed_rest, feed_loop,
  feed,
}
use slick_net.Sse.Machine.{
  step, run, run-line, run-nil, find_line_end-rest, length-find_line_end, run-after_cr, run-not_lf,
  feed_loop-nil, feed_loop-suc, feed-at_cr, feed-plain, end_line-after_cr, end_line-keeps,
  content-after_cr,
}

abbrev pub after : List Bytes → Parser × List Bytes → Parser × List Bytes
after event r = (r.0, event ++ r.1)

-- The parser once a CR has ended its line.
abbrev pub at_cr : Parser → Parser
at_cr p = record p { after_cr = true }

pub run-lf :
    (c : ℕ) (cs : Bytes) (p : Parser)
    → is_eol c ≡ true
    → (c == b'\r') ≡ false
    → p.after_cr ≡ false
    → run p (c ∷ cs) ≡ after (end_line p).1 (run (end_line p).0 cs)
unfolding run step
run-lf c cs p e n h = ground arith

pub run-cr :
    (c : ℕ) (cs : Bytes) (p : Parser)
    → (c == b'\r') ≡ true
    → p.after_cr ≡ false
    → run p (c ∷ cs) ≡ after (end_line p).1 (run (at_cr (end_line p).0) cs)
unfolding run step
run-cr c cs p r h = ground (arith, end_line-after_cr p)

feed_rest-lf :
    (c : ℕ) (cs : Bytes) (p : Parser) (loop : Parser → Bytes → Parser × List Bytes)
    → (c == b'\r') ≡ false
    → feed_rest (c ∷ cs) p loop ≡ after (end_line p).1 (loop (end_line p).0 cs)
unfolding feed_rest skip_lf
feed_rest-lf c [] p loop n = rw n
feed_rest-lf c (d ∷ ds) p loop n = rw n

feed_rest-cr :
    (c d : ℕ) (ds : Bytes) (p : Parser) (loop : Parser → Bytes → Parser × List Bytes)
    → (c == b'\r') ≡ true
    → feed_rest (c ∷ d ∷ ds) p loop
      ≡ after (end_line p).1 (loop (end_line p).0 (if d == b'\n' then ds else d ∷ ds))
unfolding feed_rest skip_lf
feed_rest-cr c d ds p loop r = elim (Bool-cases (d == b'\n')) [
  | inl e ↦ rw (r, e)
  | inr e ↦ rw (r, e)
]

feed_rest-cr_end :
    (c : ℕ) (p : Parser) (loop : Parser → Bytes → Parser × List Bytes)
    → (c == b'\r') ≡ true
    → feed_rest (c ∷ []) p loop ≡ after (end_line p).1 (loop (at_cr (end_line p).0) [])
unfolding feed_rest skip_lf
feed_rest-cr_end c p loop r = rw (r, end_line-after_cr p)

module _ (loop : Parser → Bytes → Parser × List Bytes)
    (nil : (q : Parser) → loop q [] ≡ (q, [])) where
  -- What follows a CR inside the piece.
  next :
      (d : ℕ) (ds : Bytes) (q : Parser)
      → q.after_cr ≡ false
      → ((bs : Bytes) (r : Parser)
          → length bs ≤ suc (length ds)
          → r.after_cr ≡ false
          → loop r bs ≡ run r bs)
      → loop q (if d == b'\n' then ds else d ∷ ds) ≡ run (at_cr q) (d ∷ ds)
  next d ds q k ih = elim (Bool-cases (d == b'\n')) [
    | inl e ↦ rw (run-after_cr q d ds k, e) (ih ds q (omega arith) k)
    | inr e ↦ rw (run-after_cr q d ds k, e) (ih (d ∷ ds) q (omega arith) k)
  ]

  feed_rest-run :
      (c : ℕ) (cs : Bytes) (p : Parser)
      → is_eol c ≡ true
      → p.after_cr ≡ false
      → ((bs : Bytes) (q : Parser)
          → length bs ≤ length cs
          → q.after_cr ≡ false
          → loop q bs ≡ run q bs)
      → feed_rest (c ∷ cs) p loop ≡ run p (c ∷ cs)
  feed_rest-run c cs p e h ih = elim (Bool-cases (c == b'\r')) [
    | inl r ↦ go cs ih r
    | inr n ↦
        feed_rest-lf c cs p loop n
        ∙ ap (after (end_line p).1) (ih cs (end_line p).0 (omega arith) (end_line-keeps p ∙ h))
        ∙ sym (run-lf c cs p e n h)
  ]
    where
      go :
          (bs : Bytes)
          → ((ds : Bytes) (q : Parser)
              → length ds ≤ length bs
              → q.after_cr ≡ false
              → loop q ds ≡ run q ds)
          → (c == b'\r') ≡ true
          → feed_rest (c ∷ bs) p loop ≡ run p (c ∷ bs)
      go [] ih' r =
          feed_rest-cr_end c p loop r
          ∙ ap (after (end_line p).1)
              (nil (at_cr (end_line p).0) ∙ sym (run-nil (at_cr (end_line p).0)))
          ∙ sym (run-cr c [] p r h)
      go (d ∷ ds) ih' r =
          feed_rest-cr c d ds p loop r
          ∙ ap (after (end_line p).1) (next d ds (end_line p).0 (end_line-keeps p ∙ h) ih')
          ∙ sym (run-cr c (d ∷ ds) p r h)

feed_loop-rest :
    (fuel : ℕ) (rest : Bytes) (q : Parser)
    → ((bs : Bytes) (r : Parser)
        → length bs ≤ fuel
        → r.after_cr ≡ false
        → feed_loop fuel r bs ≡ run r bs)
    → ((c : ℕ) (cs : Bytes) → rest ≡ c ∷ cs → is_eol c ≡ true)
    → length rest ≤ suc fuel
    → q.after_cr ≡ false
    → feed_rest rest q (feed_loop fuel) ≡ run q rest
feed_loop-rest fuel [] q ih eol l h = unfold feed_rest run in refl
feed_loop-rest fuel (c ∷ cs) q ih eol l h =
    feed_rest-run (feed_loop fuel) (feed_loop-nil fuel) c cs q (eol c cs refl) h
      (λ bs r k h'. ih bs r (omega arith) h')

feed_loop-run :
    (fuel : ℕ) (bs : Bytes) (p : Parser)
    → length bs ≤ fuel
    → p.after_cr ≡ false
    → feed_loop fuel p bs ≡ run p bs
feed_loop-run zero [] p l h = unfold feed_loop run in refl
feed_loop-run zero (b ∷ bs) p l h = absurd (omega arith)
feed_loop-run (suc fuel) [] p l h = unfold feed_loop run in refl
feed_loop-run (suc fuel) (b ∷ bs) p l h =
    feed_loop-suc fuel b bs p
    ∙ feed_loop-rest fuel (find_line_end (b ∷ bs)).1
        (consume_line_content (find_line_end (b ∷ bs)).0 p) (feed_loop-run fuel)
        (find_line_end-rest (b ∷ bs)) (omega (arith, length-find_line_end (b ∷ bs)))
        (content-after_cr (find_line_end (b ∷ bs)).0 p ∙ h)
    ∙ sym (run-line (b ∷ bs) p h)

resume :
    (c : ℕ) (cs : Bytes) (q : Parser)
    → q.after_cr ≡ false
    → (let bs = if c == b'\n' then cs else c ∷ cs in feed_loop (length bs) q bs)
      ≡ (if c == b'\n' then run q cs else run q (c ∷ cs))
resume c cs q h = elim (Bool-cases (c == b'\n')) [
  | inl e ↦ rw e (feed_loop-run (length cs) cs q (omega arith) h)
  | inr e ↦ rw e (feed_loop-run (suc (length cs)) (c ∷ cs) q (omega arith) h)
]

-- `feed` on one piece does what the machine does byte by byte, wherever in a body the piece starts.
pub feed-run : (piece : Bytes) (p : Parser) → feed p piece ≡ run p piece
feed-run [] p = unfold feed run in feed_loop-nil 0 p
feed-run (c ∷ cs) p = elim (Bool-cases p.after_cr) [
  | inl e ↦
      feed-at_cr p c cs e
      ∙ resume c cs (record p { after_cr = false }) refl
      ∙ sym (run-not_lf p c cs e)
  | inr e ↦ feed-plain p c cs e ∙ feed_loop-run (suc (length cs)) (c ∷ cs) p (omega arith) e
]

run-append :
    (xs bs : Bytes) (p : Parser) → run p (xs ++ bs) ≡ after (run p xs).1 (run (run p xs).0 bs)
unfolding run
run-append [] bs p = refl
run-append (x ∷ xs) bs p = rw (run-append xs bs (step p x).0, append_assoc)

-- The body may be cut anywhere, even inside a CRLF.
pub feed-append :
    (xs bs : Bytes) (p : Parser)
    → feed p (xs ++ bs) ≡ ((feed (feed p xs).0 bs).0, (feed p xs).1 ++ (feed (feed p xs).0 bs).1)
feed-append xs bs p = simp feed-run (run-append xs bs p)
