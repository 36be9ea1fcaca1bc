-- ===== src/Connection/Forward.antt =====
-- The status of a connection moves forward only.
use slick_net.Prelude.{◌≤◌, ◌≡◌, sym, subst, Bool, false, ◌&&◌, Bool-cases, inl, inr, arith}
use slick_net.WriteChain.{Frame, is_connected, Admission, not_connected, too_long, admitted, admit}
use slick_net.Session.{Session, on_error, calls, start_reading, reads}
use slick_net.Session.Opened.{is_unopened}
use slick_net.Session.Forward.{rank, Step-forward, close-forward}
use slick_net.Connection.{
  Connection, with_session, send_from, send_frame, publish_frame, close_if, write_breaks,
  write_throws, begin_reading, Step, sends, queues, writes, breaks, breaks_off, moves,
  begins_reading,
}
use slick_net.Connection.Reported.{resume_in-session}

close_if-forward : (b : Bool) (s : Session) → rank s.status ≤ rank (close_if b s).status
unfolding close_if
close_if-forward b s = elim (Bool-cases (b && is_connected s.status)) [
  | inl e ↦ rw e (close-forward (calls on_error s))
  | inr e ↦ rw e (omega arith)
]

send_from-forward :
    (a : Admission) (r : Frame) (c : Connection)
    → rank c.session.status ≤ rank (send_from a r c).session.status
unfolding send_from
send_from-forward not_connected r c = omega arith
send_from-forward too_long r c = omega arith
send_from-forward (admitted n) r c = omega arith

-- Whatever happens to a session that is opened, its status stays or moves on, from CONNECTING to CONNECTED, to
-- DISCONNECTING and to DISCONNECTED, or past some of them: it never comes back to one that it has left.
pub status_forward :
    {c d : Connection}
    → Step c d
    → is_unopened c.session.phase ≡ false
    → rank c.session.status ≤ rank d.session.status
unfolding send_frame publish_frame write_breaks write_throws begin_reading
status_forward {c} (sends r) u = send_from-forward (admit c.session.status _) r c
status_forward (queues r before after e) u = omega arith
status_forward (writes w o) u = omega arith
status_forward {c} (breaks running fatal h e) u = close_if-forward _ c.session
status_forward (breaks_off h e k) u = omega arith
status_forward (moves e n) u = Step-forward e u
status_forward {c} (begins_reading p i) u =
    let s = start_reading c.session in
    subst (λ (t : Session). rank c.session.status ≤ rank t.status)
      (sym (resume_in-session s.phase (with_session s c))) (Step-forward (reads p) u)
