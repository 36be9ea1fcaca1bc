-- ===== src/Connection/Upgraded.antt =====
-- Before a session is CONNECTED, nothing is written.
use slick_net.Prelude.{
  ◌≡◌, refl, sym, ap, ◌∙◌, Bool, true, false, ◌&&◌, not, ◌||◌, [], Bool-cases, inl, inr, arith,
}
use slick_net.WriteChain.{Frame, is_connected, Admission, not_connected, too_long, admitted, admit}
use slick_net.WriteChain.Own.{IsUnwritten, is_own-IsUnwritten, publish-IsUnwritten}
use slick_net.Session.{Session, calls, on_error, start_reading}
use slick_net.Session.Kept.{close-phase}
use slick_net.Session.Ordered.{is_before}
use slick_net.Session.Moved.{may_park, Moved, Step-Moved}
use slick_net.Connection.{
  Connection, with_session, send_from, send_frame, publish_frame, close_if, write_breaks,
  write_throws, resume_in, begin_reading, Step, sends, queues, writes, breaks, breaks_off, moves,
  begins_reading, Reach, direct, pending, next,
}
use slick_net.Connection.Parts.{Joined, Reach-Joined}

-- A session before the exchange for CONNECTED is not CONNECTED, and its chain has written nothing.
record Waiting (c : Connection) : Type 0 where
  off : is_connected c.session.status ≡ false
  unwritten : IsUnwritten c.chain

abbrev IsQuiet : Connection → Type 0
IsQuiet c = is_before c.session.phase ≡ true → Waiting c

before-may_park : (s : Session) → is_before s.phase ≡ true → may_park s.phase ≡ false
before-may_park s b = ground (arith, b)

moved-off :
    (s t : Session)
    → Moved s t
    → is_before t.phase ≡ true
    → is_connected s.status ≡ false
    → is_connected t.status ≡ false
moved-off s t m b n = elim (Bool-cases (is_connected t.status)) [
  | inl u ↦ absurd (let k = m.up u (before-may_park t b) in ground (arith, k, n))
  | inr e ↦ e
]

moved-IsQuiet :
    (t : Session) (c : Connection) → Moved c.session t → IsQuiet c → IsQuiet (with_session t c)
moved-IsQuiet t c m v = λ b.
    let w = v (m.earlier b) in
    record {
      off = moved-off c.session t m b w.off;
      unwritten = record {
        none_written = w.unwritten.none_written;
        none_writing = w.unwritten.none_writing;
        at_rest = w.unwritten.at_rest;
      };
    }

send_from-IsQuiet :
    (a : Admission) (r : Frame) (c : Connection) → IsQuiet c → IsQuiet (send_from a r c)
unfolding send_from
send_from-IsQuiet not_connected r c v = v
send_from-IsQuiet too_long r c v =
    λ b. let w = v b in record { off = w.off; unwritten = w.unwritten }
send_from-IsQuiet (admitted n) r c v =
    λ b. let w = v b in record { off = w.off; unwritten = w.unwritten }

close_if-phase : (b : Bool) (s : Session) → (close_if b s).phase ≡ s.phase
unfolding close_if
close_if-phase b s = elim (Bool-cases (b && is_connected s.status)) [
  | inl e ↦ rw e (close-phase (calls on_error s))
  | inr e ↦ rw e refl
]

begin_reading-IsQuiet : (c : Connection) → IsQuiet (begin_reading c)
unfolding begin_reading resume_in start_reading
begin_reading-IsQuiet c =
    elim (Bool-cases (not (is_connected c.session.status) || c.session.detached)) [
      | inl e ↦ rw e (λ b. absurd (ground (arith, b)))
      | inr e ↦ rw e (λ b. absurd (ground (arith, b)))
    ]

Step-IsQuiet : {c d : Connection} → Step c d → Joined c → IsQuiet c → IsQuiet d
unfolding send_frame publish_frame write_breaks write_throws
Step-IsQuiet {c} (sends r) j v = send_from-IsQuiet (admit c.session.status _) r c v
Step-IsQuiet {c} (queues r before after e) j v = λ b.
    let w = v b in record { off = w.off; unwritten = publish-IsUnwritten r c.chain w.unwritten }
Step-IsQuiet {c} (writes x o) j v = λ b.
    let w = v b in
    record {
      off = w.off;
      unwritten = is_own-IsUnwritten x o (ap is_connected j.one_status ∙ w.off) w.unwritten;
    }
Step-IsQuiet {c} (breaks running fatal h e) j v = λ b.
    let w = v (ap is_before (sym (close_if-phase (running && fatal) c.session)) ∙ b) in
    absurd (omega (arith, h, w.unwritten.none_writing))
Step-IsQuiet {c} (breaks_off h e k) j v =
    λ b. absurd (omega (arith, h, (v b).unwritten.none_writing))
Step-IsQuiet {c} (moves {t} e n) j v = moved-IsQuiet t c (Step-Moved e n) v
Step-IsQuiet {c} (begins_reading p i) j v = begin_reading-IsQuiet c

Reach-IsQuiet : {c : Connection} → Reach c → IsQuiet c
Reach-IsQuiet direct = λ b. record {
  off = refl;
  unwritten = record { none_written = refl; none_writing = refl; at_rest = refl };
}
Reach-IsQuiet pending = λ b. record {
  off = refl;
  unwritten = record { none_written = refl; none_writing = refl; at_rest = refl };
}
Reach-IsQuiet (next r s) = Step-IsQuiet s (Reach-Joined r) (Reach-IsQuiet r)

-- Whatever was sent, nothing is handed to the socket before the session is CONNECTED: while it is not opened, or
-- in its handshakes, or before the exchange behind them.
pub unwritten_before :
    {c : Connection} → Reach c → is_before c.session.phase ≡ true → c.chain.written ≡ []
unwritten_before r b = (Reach-IsQuiet r b).unwritten.none_written
