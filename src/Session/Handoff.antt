-- ===== src/Session/Handoff.antt =====
-- The release of the read buffer.
use slick_net.Prelude.{
  ◌≡◌, Bool, true, false, not, ◌&&◌, ◌||◌, refl, sym, ap, Bytes, Bool-cases, ◌∙◌, inl, inr, arith,
}
use slick_net.WriteChain.{Status, connecting, connected, disconnecting, disconnected, is_connected}
use slick_net.Session.{
  close_throws, stop_at, close_errors, stops_at, Session, on_connected, on_error, on_disconnected,
  on_data, Release, active, callback_set, released, announced, dropping, finished, completing,
  release_buffer, listen_from, set_on_buffer_released, open_from, open_session, begin_session,
  handshake_fails, handshake_done, upgrade, start_reading, completed, complete, close, read_failed,
  drop_connection, read_done, close_done, detach, cancel_open, is_connecting, given_up, calls,
  is_disconnecting, Step, Reach, direct, pending, next, opens, begins, fails, upgrades_to, upgrades,
  throws, reads, completes, read_fails, drops, read_dones, closes, close_dones, detaches, cancels,
  listens,
}
use slick_net.Session.Kept.{Stops-phase}
use slick_net.Session.Held.{
  is_released, is_over, count, Inv, Held, release_buffer-Inv, Inv-Held, Keeps-Inv, Keeps-Held,
  close-Keeps, completed-Keeps,
}

open_from-Inv : (st : Status) (s : Session) → Inv s → is_over s.phase ≡ false → Inv (open_from st s)
unfolding open_from
open_from-Inv disconnected s v o = ground arith
open_from-Inv connecting s v o = ground arith
open_from-Inv connected s v o = v
open_from-Inv disconnecting s v o = v

-- The phase moves on, and with it nothing of the hand-off.
moved-Inv :
    (s t : Session)
    → Inv s
    → is_over s.phase ≡ false
    → is_over t.phase ≡ false
    → t.release ≡ s.release
    → t.listening ≡ s.listening
    → t.handoffs ≡ s.handoffs
    → Inv t
moved-Inv s t v o n a b c =
    Keeps-Inv s t
      (record { release_same = a; listening_same = b; handoffs_same = c; phase_same = n ∙ sym o }) v

ends-Held :
    (s t : Session)
    → Inv s
    → is_over s.phase ≡ false
    → is_over t.phase ≡ true
    → t.release ≡ s.release
    → t.listening ≡ s.listening
    → t.handoffs ≡ s.handoffs
    → Held t
ends-Held s t v o n a b c =
    Keeps-Held (record s { phase = finished }) t
      (record { release_same = a; listening_same = b; handoffs_same = c; phase_same = n })
      (Inv-Held s v o)

-- The last step of a session, with its status and its log as they may be.
ends-Inv :
    (s t : Session)
    → Inv s
    → is_over s.phase ≡ false
    → is_over t.phase ≡ true
    → t.release ≡ s.release
    → t.listening ≡ s.listening
    → t.handoffs ≡ s.handoffs
    → Inv (release_buffer t)
ends-Inv s t v o n a b c = release_buffer-Inv t (ends-Held s t v o n a b c)

open_session-Inv : (s : Session) → Inv s → is_over s.phase ≡ false → Inv (open_session s)
unfolding open_session
open_session-Inv s v o = elim (Bool-cases (s.open_cancelled || s.detached)) [
  | inl e ↦ rw e (
      ends-Inv s (record s { status = given_up s.status; phase = finished }) v o refl refl refl
        refl)
  | inr e ↦ rw e (open_from-Inv s.status s v o)
]

complete-Inv : (f r : Bool) (s : Session) → Inv s → is_over s.phase ≡ false → Inv (complete f r s)
unfolding complete
complete-Inv f r s v o =
    let d = is_disconnecting s.status in
    let t = record s { status = disconnected; phase = finished } in
    release_buffer-Inv (completed r d f t) (
      Keeps-Held t (completed r d f t) (completed-Keeps r d f t)
        (ends-Held s t v o refl refl refl refl))

begin_session-Inv : (s : Session) → Inv s → is_over s.phase ≡ false → Inv (begin_session s)
unfolding begin_session
begin_session-Inv s v o = ground arith

handshake_done-Inv :
    (r : Bool) (s : Session) → Inv s → is_over s.phase ≡ false → Inv (handshake_done r s)
unfolding handshake_done
handshake_done-Inv r s v o = ground arith

upgrade-Inv : (s : Session) → Inv s → is_over s.phase ≡ false → Inv (upgrade s)
unfolding upgrade
upgrade-Inv s v o = elim (Bool-cases (is_connecting s.status)) [
  | inl e ↦ rw e (
      moved-Inv s (calls on_connected (record s { status = connected; phase = announced })) v o refl
        refl refl refl)
  | inr e ↦ rw e (moved-Inv s (record s { phase = completing false }) v o refl refl refl refl)
]

start_reading-Inv : (s : Session) → Inv s → is_over s.phase ≡ false → Inv (start_reading s)
unfolding start_reading
start_reading-Inv s v o = ground arith

closed-Inv :
    (s t : Session)
    → Inv s
    → is_over s.phase ≡ false
    → is_over t.phase ≡ true
    → t.release ≡ s.release
    → t.listening ≡ s.listening
    → t.handoffs ≡ s.handoffs
    → Inv (release_buffer (close t))
closed-Inv s t v o n a b c =
    release_buffer-Inv (close t)
      (Keeps-Held t (close t) (close-Keeps t) (ends-Held s t v o n a b c))

read_failed-Inv :
    (r f : Bool) (s : Session) → Inv s → is_over s.phase ≡ false → Inv (read_failed r f s)
unfolding read_failed
read_failed-Inv r f s v o = elim (Bool-cases (is_connected s.status)) [
  | inl e ↦ rw e (elim (Bool-cases (r && f)) [
    | inl y ↦
        rw y (closed-Inv s (calls on_error (record s { phase = finished })) v o refl refl refl refl)
    | inr n ↦ rw n (moved-Inv s (record s { phase = dropping }) v o refl refl refl refl)
  ])
  | inr e ↦ rw e (ends-Inv s (record s { phase = finished }) v o refl refl refl refl)
]

drop_connection-Inv : (s : Session) → Inv s → is_over s.phase ≡ false → Inv (drop_connection s)
unfolding drop_connection
drop_connection-Inv s v o =
    ends-Inv s (calls on_disconnected (record s { status = disconnected; phase = finished })) v o
      refl refl refl refl

read_done-Inv :
    (r : Bool) (d : Bytes) (s : Session) → Inv s → is_over s.phase ≡ false → Inv (read_done r d s)
unfolding read_done
read_done-Inv r d s v o = elim (Bool-cases (r && (is_connected s.status && not s.detached))) [
  | inl e ↦ rw e (moved-Inv s (calls (on_data d) s) v o o refl refl refl)
  | inr e ↦ rw e (ends-Inv s (record s { phase = finished }) v o refl refl refl refl)
]

close_done-Inv : (r : Bool) (s : Session) → Inv s → Inv (close_done r s)
unfolding close_done
close_done-Inv true s v = ground arith
close_done-Inv false s v = ground arith

listen_from-Inv :
    (r : Release) (s : Session)
    → s.release ≡ r
    → s.listening ≡ false
    → Inv s
    → Inv (listen_from r s)
unfolding listen_from
listen_from-Inv active s e l v = ground arith
listen_from-Inv callback_set s e l v = ground arith
listen_from-Inv released s e l v = ground arith

pub Step-Inv : {s t : Session} → Inv s → Step s t → Inv t
unfolding handshake_fails detach cancel_open set_on_buffer_released close_throws stop_at
Step-Inv {s} v (opens e) = open_session-Inv s v (ap is_over e)
Step-Inv {s} v (begins e) = begin_session-Inv s v (ap is_over e)
Step-Inv {s} v (fails c e) = moved-Inv s (handshake_fails c s) v (ap is_over e) refl refl refl refl
Step-Inv {s} v (upgrades_to r e) = handshake_done-Inv r s v (ap is_over e)
Step-Inv {s} v (upgrades e) = upgrade-Inv s v (ap is_over e)
Step-Inv {s} v (throws e) =
    moved-Inv s (handshake_fails false s) v (ap is_over e) refl refl refl refl
Step-Inv {s} v (reads e) = start_reading-Inv s v (ap is_over e)
Step-Inv {s} v (completes {failed} r e) = complete-Inv failed r s v (ap is_over e)
Step-Inv {s} v (read_fails r f e) = read_failed-Inv r f s v (ap is_over e)
Step-Inv {s} v (drops e) = drop_connection-Inv s v (ap is_over e)
Step-Inv {s} v (read_dones r d e) = read_done-Inv r d s v (ap is_over e)
Step-Inv {s} v (closes e) = Keeps-Inv s (close s) (close-Keeps s) v
Step-Inv {s} v (close_dones r h) = close_done-Inv r s v
Step-Inv {s} v (close_errors h) = ground arith
Step-Inv {s} v (stops_at {errs} {e} {st} k) =
    moved-Inv s (stop_at errs e st s) v (Stops-phase is_over false refl refl (λ f. refl) k) refl
      refl refl refl
Step-Inv {s} v detaches = ground arith
Step-Inv {s} v cancels = ground arith
Step-Inv {s} v (listens l) = listen_from-Inv s.release s refl l v

pub Reach-Inv : {s : Session} → Reach s → Inv s
Reach-Inv direct = ground arith
Reach-Inv pending = ground arith
Reach-Inv (next r e) = Step-Inv (Reach-Inv r) e

-- The read buffer is handed to the next session exactly once, as soon as that session waits for it and this one
-- has released it, and never before; and a session has released the buffer exactly when it is done, which a session
-- never is that a callback has ended by an exception out of the completion handler or out of on_read.
pub handed_over_once :
    {s : Session}
    → Reach s
    → (s.handoffs ≡ count (s.listening && is_released s.release))
      × (is_released s.release ≡ is_over s.phase)
handed_over_once r = let v = Reach-Inv r in (v.once, v.quiet)
