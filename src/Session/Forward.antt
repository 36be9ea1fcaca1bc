-- ===== src/Session/Forward.antt =====
-- The status of a session that is opened moves forward only.
use slick_net.Prelude.{
  ℕ, ◌≤◌, ◌≡◌, refl, ap, Bool, true, false, not, ◌&&◌, ◌||◌, Bytes, Bool-cases, inl, inr, arith,
}
use slick_net.WriteChain.{Status, connecting, connected, disconnecting, disconnected, is_connected}
use slick_net.Session.{
  close_throws, stop_at, Stops, completion_error, completion_end, completion_closed, read_error,
  drop_end, data_in, close_errors, stops_at, Event, Status, Session, on_error, on_disconnected,
  finished, release_buffer, set_on_buffer_released, begin_session, handshake_fails, handshake_done,
  upgrade, start_reading, completed, complete, close_from, close, read_failed, drop_connection,
  read_done, close_done, detach, cancel_open, given_up, calls, is_connecting, is_disconnecting,
  Step, opens, begins, fails, upgrades_to, upgrades, throws, reads, completes, read_fails, drops,
  read_dones, closes, close_dones, detaches, cancels, listens,
}
use slick_net.Session.Opened.{is_unopened}
use slick_net.Session.Moved.{release_buffer-status, completed-status, listen_from-status}

-- The statuses in the order that an opened session goes through them.
abbrev pub rank : Status → ℕ
rank connecting = 0
rank connected = 1
rank disconnecting = 2
rank disconnected = 3

rank-top : (st : Status) → rank st ≤ 3
rank-top connecting = omega arith
rank-top connected = omega arith
rank-top disconnecting = omega arith
rank-top disconnected = omega arith

rank-given_up : (st : Status) → rank st ≤ rank (given_up st)
rank-given_up connecting = omega arith
rank-given_up connected = omega arith
rank-given_up disconnecting = omega arith
rank-given_up disconnected = omega arith

rank-close_from :
    (st : Status) (s : Session) → s.status ≡ st → rank st ≤ rank (close_from st s).status
unfolding close_from
rank-close_from connecting s e = omega arith
rank-close_from connected s e = omega arith
rank-close_from disconnecting s e = omega (arith, ap rank e)
rank-close_from disconnected s e = omega (arith, ap rank e)

pub close-forward : (s : Session) → rank s.status ≤ rank (close s).status
unfolding close
close-forward s = rank-close_from s.status s refl

-- A step behind which the status is the same as in t.
same_as :
    (s t u : Session)
    → u.status ≡ t.status
    → rank s.status ≤ rank t.status
    → rank s.status ≤ rank u.status
same_as s t u e h = omega (arith, ap rank e, h)

released_forward :
    (s t : Session) → rank s.status ≤ rank t.status → rank s.status ≤ rank (release_buffer t).status
released_forward s t h = same_as s t (release_buffer t) (release_buffer-status t) h

begin_session-forward : (s : Session) → rank s.status ≤ rank (begin_session s).status
unfolding begin_session
begin_session-forward s =
    elim (Bool-cases (not (is_connecting s.status) || (s.open_cancelled || s.detached))) [
      | inl e ↦ rw e (rank-given_up s.status)
      | inr e ↦ rw e (omega arith)
    ]

handshake_done-forward : (r : Bool) (s : Session) → rank s.status ≤ rank (handshake_done r s).status
unfolding handshake_done
handshake_done-forward r s = elim (Bool-cases (not r || (s.open_cancelled || s.detached))) [
  | inl e ↦ rw e (rank-given_up s.status)
  | inr e ↦ rw e (omega arith)
]

is_connecting-rank : (st : Status) → is_connecting st ≡ true → rank st ≡ 0
is_connecting-rank connecting e = refl
is_connecting-rank connected e = absurd (ground (arith, e))
is_connecting-rank disconnecting e = absurd (ground (arith, e))
is_connecting-rank disconnected e = absurd (ground (arith, e))

upgrade-forward : (s : Session) → rank s.status ≤ rank (upgrade s).status
unfolding upgrade
upgrade-forward s = elim (Bool-cases (is_connecting s.status)) [
  | inl e ↦ rw e (omega (arith, is_connecting-rank s.status e))
  | inr e ↦ rw e (omega arith)
]

start_reading-forward : (s : Session) → rank s.status ≤ rank (start_reading s).status
unfolding start_reading
start_reading-forward s = elim (Bool-cases (not (is_connected s.status) || s.detached)) [
  | inl e ↦ rw e (omega arith)
  | inr e ↦ rw e (omega arith)
]

complete-forward : (f r : Bool) (s : Session) → rank s.status ≤ rank (complete f r s).status
unfolding complete
complete-forward f r s =
    let t = record s { status = disconnected; phase = finished } in
    let u = completed r (is_disconnecting s.status) f t in
    released_forward s u (same_as s t u (completed-status r _ f t) (rank-top s.status))

read_failed-forward : (r f : Bool) (s : Session) → rank s.status ≤ rank (read_failed r f s).status
unfolding read_failed
read_failed-forward r f s = elim (Bool-cases (is_connected s.status)) [
  | inl e ↦ rw e (elim (Bool-cases (r && f)) [
    | inl y ↦ rw y (
        let t = calls on_error (record s { phase = finished }) in
        released_forward s (close t) (close-forward t))
    | inr n ↦ rw n (omega arith)
  ])
  | inr e ↦ rw e (released_forward s (record s { phase = finished }) (omega arith))
]

read_done-forward :
    (r : Bool) (d : Bytes) (s : Session) → rank s.status ≤ rank (read_done r d s).status
unfolding read_done
read_done-forward r d s = elim (Bool-cases (r && (is_connected s.status && not s.detached))) [
  | inl e ↦ rw e (omega arith)
  | inr e ↦ rw e (released_forward s (record s { phase = finished }) (omega arith))
]

close_done-forward : (r : Bool) (s : Session) → rank s.status ≤ rank (close_done r s).status
unfolding close_done
close_done-forward true s = rank-top s.status
close_done-forward false s = rank-top s.status

Stops-forward :
    {s : Session} {errs : Bool} {e : Event} {st : Status}
    → Stops s errs e st
    → rank s.status ≤ rank st
Stops-forward {s} (completion_error p n) = rank-top s.status
Stops-forward {s} (completion_end p n) = rank-top s.status
Stops-forward {s} (completion_closed p n) = rank-top s.status
Stops-forward {s} (drop_end p) = rank-top s.status
Stops-forward {s} (read_error p n) = omega arith
Stops-forward {s} (data_in d p n) = omega arith

pub Step-forward :
    {s t : Session} (e : Step s t) → is_unopened s.phase ≡ false → rank s.status ≤ rank t.status
unfolding handshake_fails drop_connection detach cancel_open set_on_buffer_released close_throws
    stop_at
Step-forward {s} (opens e) u = absurd (ground (arith, e, u))
Step-forward {s} (begins e) u = begin_session-forward s
Step-forward {s} (fails c e) u = omega arith
Step-forward {s} (upgrades_to r e) u = handshake_done-forward r s
Step-forward {s} (upgrades e) u = upgrade-forward s
Step-forward {s} (throws e) u = omega arith
Step-forward {s} (reads e) u = start_reading-forward s
Step-forward {s} (completes {failed} r e) u = complete-forward failed r s
Step-forward {s} (read_fails r f e) u = read_failed-forward r f s
Step-forward {s} (drops e) u =
    released_forward s
      (calls on_disconnected (record s { status = disconnected; phase = finished }))
      (rank-top s.status)
Step-forward {s} (read_dones r d e) u = read_done-forward r d s
Step-forward {s} (closes e) u = close-forward s
Step-forward {s} (close_dones r h) u = close_done-forward r s
Step-forward {s} (close_errors h) u = omega arith
Step-forward {s} (stops_at k) u = Stops-forward k
Step-forward {s} detaches u = omega arith
Step-forward {s} cancels u = omega arith
Step-forward {s} (listens l) u =
    same_as s s (set_on_buffer_released s) (listen_from-status s.release s) (omega arith)
