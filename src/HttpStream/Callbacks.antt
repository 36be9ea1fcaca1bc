-- ===== src/HttpStream/Callbacks.antt =====
-- Which callbacks a step may make.
use slick_net.Prelude.{
  ℕ, ◌+◌, ◌/◌, ◌^◌, ◌<◌, ◌≡◌, refl, Bool, true, false, List, [], ◌∷◌, ◌++◌, some, arith, ◌==◌,
  Bool-cases, Option-cases, inl, inr, Bytes, ◌⊎◌,
}
use slick_net.HttpStream.Word.{open_attempt, end_attempt, connect_attempt, is_current}
use slick_net.HttpStream.{
  Stream, awaiting, Event, on_connected, on_data, on_error, on_disconnected, opened_by,
  connected_by, receive, open_stream, close, serve, next_session, skip_one, session_throws,
  session_rejected, session_connects, session_reads, deliver_event, turn_ends, Verdict, more, done,
  broken, end_session, part, post_serve, report_error, Step, opens, closes, serves, loops, skips,
  throws, rejects, connects, reads, delivers, throws_delivering, turns, ends, parts, enqueues,
  rethrows, crashes, Reach,
}
use slick_net.HttpStream.Invariant.{Inv, Reach-Inv}

-- The generation of every callback but onDisconnected is open when it is made.
abbrev pub IsCurrent : Stream → Event → Type 0
IsCurrent s (on_connected g) = is_current g s.word ≡ true
IsCurrent s (on_data g d) = is_current g s.word ≡ true
IsCurrent s (on_error g threw) = is_current g s.word ≡ true
IsCurrent s (on_disconnected g) = Unit {0}

-- A step makes no callback, or one that may be made.
abbrev pub Reports : Stream → Stream → Type 0
Reports s t = (t.log ≡ s.log) ⊎ ((e : Event) × (t.log ≡ s.log ++ e ∷ []) × IsCurrent s e)

opens-Reports : (s : Stream) → Reports s (open_stream s)
unfolding open_stream opened_by
opens-Reports s = elim (Option-cases (open_attempt s.word)) [
  | inl e ↦ rw e (inl refl)
  | inr (a, e) ↦ rw e (inl refl)
]

stored-Reports : (s : Stream) (g : ℕ) → (end_session g s).log ≡ s.log
unfolding end_session
stored-Reports s g = elim (Option-cases (end_attempt g s.word)) [ inl e ↦ rw e | inr (a, e) ↦ rw e ]

close-log : (s : Stream) → (close s).log ≡ s.log
unfolding close
close-log s = elim (Option-cases (end_attempt 0 s.word)) [ inl e ↦ rw e | inr (a, e) ↦ rw e ]

session_throws-Reports : (g : ℕ) (s : Stream) → Reports s (session_throws g s)
unfolding session_throws
session_throws-Reports g s = elim (Bool-cases (is_current g s.word)) [
  | inl e ↦ rw e (inr (on_error g false, refl, e))
  | inr e ↦ rw e (inl refl)
]

report_error-Reports :
    (g : ℕ) (threw : Bool) (s : Stream)
    → is_current g s.word ≡ true
    → Reports s (report_error g threw s)
report_error-Reports g threw s e = inr (on_error g threw, refl, e)

session_rejected-Reports :
    (g : ℕ) (threw : Bool) (s : Stream) → Reports s (session_rejected g threw s)
unfolding session_rejected
session_rejected-Reports g threw s = elim (Bool-cases (is_current g s.word)) [
  | inl e ↦ rw e (report_error-Reports g threw s e)
  | inr e ↦ rw e (inl refl)
]

-- The exchange succeeds only while the generation is open.
connect_attempt-current :
    (g w a : ℕ) → w / 4 < 2 ^ 62 → g < 2 ^ 62 → connect_attempt g w ≡ some a → is_current g w ≡ true
unfolding connect_attempt is_current
connect_attempt-current g w a h k e = ground arith

session_connects-Reports :
    (g : ℕ) (h : Bool) (s : Stream)
    → s.phase ≡ awaiting g
    → Inv s
    → Reports s (session_connects g h s)
unfolding session_connects connected_by
session_connects-Reports g h s p v = elim (Option-cases (connect_attempt g s.word)) [
  | inl e ↦ rw e (inl refl)
  | inr (a, e) ↦
      let named : s.served ≡ g = rw p at v.named in
      rw e (
        inr (
          on_connected g,
          refl,
          connect_attempt-current g s.word a (omega (arith, v.counted, v.bounded))
              (omega (arith, v.behind, v.bounded)) e,
        ))
]

session_reads-Reports : (g : ℕ) (bytes : Bytes) (s : Stream) → Reports s (session_reads g bytes s)
unfolding session_reads receive
session_reads-Reports g [] s = inl (ground arith)
session_reads-Reports g (b ∷ bs) s = elim (Bool-cases (is_current g s.word)) [
  | inl e ↦ rw e (elim (Bool-cases s.is_sse) [
    | inl x ↦ rw x (inl refl)
    | inr n ↦ rw n (inr (on_data g (b ∷ bs), refl, e))
  ])
  | inr e ↦ rw e (inl refl)
]

deliver_event-Reports :
    (g : ℕ) (d : Bytes) (ds : List Bytes) (s : Stream) → Reports s (deliver_event g d ds s)
unfolding deliver_event
deliver_event-Reports g d ds s = elim (Bool-cases (is_current g s.word)) [
  | inl e ↦ rw e (inr (on_data g d, refl, e))
  | inr e ↦ rw e (inl refl)
]

turn_ends-Reports : (g : ℕ) (r : Verdict) (s : Stream) → Reports s (turn_ends g r s)
unfolding turn_ends
turn_ends-Reports g more s = inl (ground arith)
turn_ends-Reports g done s = inl refl
turn_ends-Reports g (broken threw) s = elim (Bool-cases (is_current g s.word)) [
  | inl e ↦ rw e (report_error-Reports g threw s e)
  | inr e ↦ rw e (inl refl)
]

skip_one-Reports : (g : ℕ) (s : Stream) → Reports s (skip_one g s)
unfolding skip_one
skip_one-Reports g s = elim (Bool-cases (s.served + 1 == g)) [
  | inl e ↦ rw e (inl refl)
  | inr e ↦ rw e (inr (on_disconnected (s.served + 1), refl, tt))
]

-- After close(), a session makes no callback but onDisconnected, and neither does the session of an
-- earlier generation after a new open(), while no callback throws what is no std::exception: every step from a state that can be reached makes no callback,
-- or an onDisconnected, or a callback of the generation that is open at that step.
pub callbacks_current : {s t : Stream} → Reach false s → Step false s t → Reports s t
callbacks_current {s} r (opens h) = opens-Reports s
callbacks_current {s} r (enqueues h) = inl (unfold post_serve in refl)
callbacks_current {s} r (crashes f c) = absurd (ground (arith, f))
callbacks_current {s} r closes = inl (close-log s)
callbacks_current {s} r (serves h) = inl (unfold serve in ground arith)
callbacks_current {s} r (loops e) = inl (unfold next_session in ground arith)
callbacks_current {s} r (skips {g} e) = skip_one-Reports g s
callbacks_current {s} r (throws {g} e) = session_throws-Reports g s
callbacks_current {s} r (rejects {g} x e) = session_rejected-Reports g x s
callbacks_current {s} r (rethrows {g} e) = session_throws-Reports g s
callbacks_current {s} r (connects {g} h e) = session_connects-Reports g h s e (Reach-Inv r)
callbacks_current {s} r (reads {g} bytes e) = session_reads-Reports g bytes s
callbacks_current {s} r (delivers {g} {d} {ds} e) = deliver_event-Reports g d ds s
callbacks_current {s} r (throws_delivering {g} e) = session_throws-Reports g s
callbacks_current {s} r (turns {g} v e) = turn_ends-Reports g v s
callbacks_current {s} r (ends {g} e) = inl (stored-Reports s g)
callbacks_current {s} r (parts {g} e) = inr (on_disconnected g, unfold part in refl, tt)
