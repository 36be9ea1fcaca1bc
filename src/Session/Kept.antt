-- ===== src/Session/Kept.antt =====
-- What the steps of a session keep, for those that wait for its buffer.
use slick_net.Prelude.{
  ap, ◌∙◌, ◌≤◌, ◌≡◌, inl, inr, Bool, true, false, not, ◌&&◌, ◌||◌, refl, Bytes, Bool-cases, arith,
}
use slick_net.WriteChain.{Status, connecting, connected, disconnecting, disconnected, is_connected}
use slick_net.Session.{
  close_throws, stop_at, Stops, completion_error, completion_end, completion_closed, read_error,
  drop_end, data_in, close_errors, stops_at, Phase, completing, reading, dropping, Event, Status,
  Session, on_error, on_disconnected, on_data, Release, active, callback_set, released, finished,
  checking, dropping, release_from, release_buffer, set_on_buffer_released, listen_from, open_from,
  open_session, begin_session, handshake_fails, handshake_done, upgrade, start_reading, completed,
  complete, close_from, close, read_failed, drop_connection, read_done, close_done, given_up, calls,
  is_disconnecting, Step, opens, begins, fails, upgrades_to, upgrades, throws, reads, completes,
  read_fails, drops, read_dones, closes, close_dones, detaches, cancels, listens,
}

-- The steps of a session that the threads of the service take: those of its coroutine and of its handlers.
abbrev pub is_work : {s t : Session} → Step s t → Bool
is_work (opens e) = false
is_work (closes e) = false
is_work detaches = false
is_work cancels = false
is_work (listens e) = false
is_work _ = true

-- What a step keeps of a session: whether another waits for its buffer, whether it is detached, and that it has
-- handed the buffer over.
pub record Kept (s t : Session) : Type 0 where
  pub waited_for : t.listening ≡ s.listening
  pub silent : t.detached ≡ s.detached
  pub handed : s.handoffs ≤ t.handoffs

release_from-Kept : (r : Release) (s t : Session) → Kept s t → Kept s (release_from r t)
unfolding release_from
release_from-Kept active s t k = ground (arith, k.waited_for, k.silent, k.handed)
release_from-Kept callback_set s t k = ground (arith, k.waited_for, k.silent, k.handed)
release_from-Kept released s t k = ground (arith, k.waited_for, k.silent, k.handed)

release_buffer-Kept : (s t : Session) → Kept s t → Kept s (release_buffer t)
unfolding release_buffer
release_buffer-Kept s t k = release_from-Kept t.release s t k

same :
    (s t : Session)
    → t.listening ≡ s.listening
    → t.detached ≡ s.detached
    → t.handoffs ≡ s.handoffs
    → Kept s t
same s t a b c = record { waited_for = a; silent = b; handed = omega (arith, c) }

pub Kept-refl : (s : Session) → Kept s s
Kept-refl s = same s s refl refl refl

open_from-Kept : (st : Status) (s : Session) → Kept s (open_from st s)
unfolding open_from
open_from-Kept connecting s = ground arith
open_from-Kept connected s = same s s refl refl refl
open_from-Kept disconnecting s = same s s refl refl refl
open_from-Kept disconnected s =
    same s (record s { status = connecting; session_started = true; phase = checking }) refl refl
      refl

pub open_session-Kept : (s : Session) → Kept s (open_session s)
unfolding open_session
open_session-Kept s = elim (Bool-cases (s.open_cancelled || s.detached)) [
  | inl e ↦ rw e (
      release_buffer-Kept s (record s { status = given_up s.status; phase = finished })
        (same s (record s { status = given_up s.status; phase = finished }) refl refl refl))
  | inr e ↦ rw e (open_from-Kept s.status s)
]

close_from-Kept : (st : Status) (s t : Session) → Kept s t → Kept s (close_from st t)
unfolding close_from
close_from-Kept connecting s t k = ground (arith, k.waited_for, k.silent, k.handed)
close_from-Kept connected s t k = ground (arith, k.waited_for, k.silent, k.handed)
close_from-Kept disconnecting s t k = k
close_from-Kept disconnected s t k = k

completed-Kept : (r d f : Bool) (s : Session) → Kept s (completed r d f s)
unfolding completed
completed-Kept true false true s = same s (calls on_disconnected (calls on_error s)) refl refl refl
completed-Kept true true true s = same s (calls on_disconnected s) refl refl refl
completed-Kept true true false s = same s (calls on_disconnected s) refl refl refl
completed-Kept true false false s = same s s refl refl refl
completed-Kept false true true s = same s s refl refl refl
completed-Kept false true false s = same s s refl refl refl
completed-Kept false false true s = same s s refl refl refl
completed-Kept false false false s = same s s refl refl refl

read_failed-Kept : (r f : Bool) (s : Session) → Kept s (read_failed r f s)
unfolding read_failed close
read_failed-Kept r f s = elim (Bool-cases (is_connected s.status)) [
  | inl e ↦ rw e (elim (Bool-cases (r && f)) [
    | inl y ↦ rw y (
        let t = calls on_error (record s { phase = finished }) in
        release_buffer-Kept s (close_from s.status t)
          (close_from-Kept s.status s t (same s t refl refl refl)))
    | inr n ↦ rw n (same s (record s { phase = dropping }) refl refl refl)
  ])
  | inr e ↦ rw e (
      release_buffer-Kept s (record s { phase = finished })
        (same s (record s { phase = finished }) refl refl refl))
]

read_done-Kept : (r : Bool) (d : Bytes) (s : Session) → Kept s (read_done r d s)
unfolding read_done
read_done-Kept r d s = elim (Bool-cases (r && (is_connected s.status && not s.detached))) [
  | inl e ↦ rw e (same s (calls (on_data d) s) refl refl refl)
  | inr e ↦ rw e (
      release_buffer-Kept s (record s { phase = finished })
        (same s (record s { phase = finished }) refl refl refl))
]

begin_session-Kept : (s : Session) → Kept s (begin_session s)
unfolding begin_session
begin_session-Kept s = ground arith

handshake_done-Kept : (r : Bool) (s : Session) → Kept s (handshake_done r s)
unfolding handshake_done
handshake_done-Kept r s = ground arith

upgrade-Kept : (s : Session) → Kept s (upgrade s)
unfolding upgrade
upgrade-Kept s = ground arith

start_reading-Kept : (s : Session) → Kept s (start_reading s)
unfolding start_reading
start_reading-Kept s = ground arith

complete-Kept : (f r : Bool) (s : Session) → Kept s (complete f r s)
unfolding complete
complete-Kept f r s =
    let t = record s { status = disconnected; phase = finished } in
    let d = is_disconnecting s.status in
    let k = completed-Kept r d f t in
    release_buffer-Kept s (completed r d f t)
      (record { waited_for = k.waited_for; silent = k.silent; handed = k.handed })

close_done-Kept : (r : Bool) (s : Session) → Kept s (close_done r s)
unfolding close_done
close_done-Kept true s = ground arith
close_done-Kept false s = ground arith

pub is_work-Kept : {s t : Session} (e : Step s t) → is_work e ≡ true → Kept s t
unfolding handshake_fails drop_connection close_throws stop_at
is_work-Kept {s} (begins e) w = begin_session-Kept s
is_work-Kept {s} (fails c e) w = same s (handshake_fails c s) refl refl refl
is_work-Kept {s} (upgrades_to r e) w = handshake_done-Kept r s
is_work-Kept {s} (upgrades e) w = upgrade-Kept s
is_work-Kept {s} (throws e) w = same s (handshake_fails false s) refl refl refl
is_work-Kept {s} (reads e) w = start_reading-Kept s
is_work-Kept {s} (completes {failed} r e) w = complete-Kept failed r s
is_work-Kept {s} (read_fails r f e) w = read_failed-Kept r f s
is_work-Kept {s} (drops e) w =
    let t = calls on_disconnected (record s { status = disconnected; phase = finished }) in
    release_buffer-Kept s t (same s t refl refl refl)
is_work-Kept {s} (read_dones r d e) w = read_done-Kept r d s
is_work-Kept {s} (close_dones r h) w = close_done-Kept r s
is_work-Kept {s} (close_errors h) w = same s _ refl refl refl
is_work-Kept {s} (stops_at {errs} {e} {st} k) w = same s (stop_at errs e st s) refl refl refl
is_work-Kept (opens e) w = absurd (ground (arith, w))
is_work-Kept (closes e) w = absurd (ground (arith, w))
is_work-Kept detaches w = absurd (ground (arith, w))
is_work-Kept cancels w = absurd (ground (arith, w))
is_work-Kept (listens l) w = absurd (ground (arith, w))

pub close-Kept : (s : Session) → Kept s (close s)
unfolding close
close-Kept s = close_from-Kept s.status s s (same s s refl refl refl)

close_from-phase : (st : Status) (s : Session) → (close_from st s).phase ≡ s.phase
unfolding close_from
close_from-phase connecting s = refl
close_from-phase connected s = refl
close_from-phase disconnecting s = refl
close_from-phase disconnected s = refl

pub close-phase : (s : Session) → (close s).phase ≡ s.phase
unfolding close
close-phase s = close_from-phase s.status s

-- A session that another begins to wait for.
pub record Listened (s t : Session) : Type 0 where
  pub waited_for : t.listening ≡ true
  pub silent : t.detached ≡ s.detached
  pub same_phase : t.phase ≡ s.phase
  pub handed : s.handoffs ≤ t.handoffs

listen_from-Listened : (r : Release) (s : Session) → Listened s (listen_from r s)
unfolding listen_from
listen_from-Listened active s = ground arith
listen_from-Listened callback_set s = ground arith
listen_from-Listened released s = ground arith

pub set_on_buffer_released-Listened : (s : Session) → Listened s (set_on_buffer_released s)
unfolding set_on_buffer_released
set_on_buffer_released-Listened s = listen_from-Listened s.release s

-- What holds of each phase in which a callback may throw.
pub Stops-phase :
    (p : Phase → Bool) (b : Bool) {s : Session} {errs : Bool} {e : Event} {st : Status}
    → p reading ≡ b
    → p dropping ≡ b
    → ((f : Bool) → p (completing f) ≡ b)
    → Stops s errs e st
    → p s.phase ≡ b
Stops-phase p b r d c (completion_error e n) = ap p e ∙ c true
Stops-phase p b r d c (completion_end e n) = ap p e ∙ c true
Stops-phase p b r d c (completion_closed {failed} e n) = ap p e ∙ c failed
Stops-phase p b r d c (read_error e n) = ap p e ∙ r
Stops-phase p b r d c (drop_end e) = ap p e ∙ d
Stops-phase p b r d c (data_in x e n) = ap p e ∙ r
