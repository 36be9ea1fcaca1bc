-- ===== src/Session/Moved.antt =====
-- How the steps of a session move its status and its phase: what the chain of its writes relies on.
use slick_net.Prelude.{
  ◌≡◌, ◌∙◌, refl, sym, ap, Bool, true, false, not, ◌&&◌, ◌||◌, Bytes, Bool-cases, inl, inr, arith,
}
use slick_net.WriteChain.{Status, connecting, connected, disconnecting, disconnected, is_connected}
use slick_net.Session.{
  close_throws, stop_at, Stops, completion_error, completion_end, completion_closed, read_error,
  drop_end, data_in, close_errors, stops_at, Event, Status, Session, on_error, on_disconnected,
  Release, active, callback_set, released, Phase, announced, completing, unopened, checking,
  handshaking, reading, finished, release_from, release_buffer, listen_from, set_on_buffer_released,
  open_from, open_session, begin_session, handshake_fails, handshake_done, upgrade, start_reading,
  completed, complete, close_from, close, read_failed, drop_connection, read_done, close_done,
  detach, cancel_open, given_up, calls, is_connecting, is_disconnecting, Step, opens, begins, fails,
  upgrades_to, upgrades, throws, reads, completes, read_fails, drops, read_dones, closes,
  close_dones, detaches, cancels, listens,
}
use slick_net.Session.Kept.{close-phase, set_on_buffer_released-Listened}
use slick_net.Session.Opened.{release_from-phase, completed-phase}
use slick_net.Session.Ordered.{is_before}

abbrev pub is_reads : {s t : Session} → Step s t → Bool
is_reads (reads e) = true
is_reads _ = false

-- Where a session may be CONNECTED with a chain that is still parked.
abbrev pub may_park : Phase → Bool
may_park announced = true
may_park (completing failed) = true
may_park _ = false

pub record Moved (s t : Session) : Type 0 where
  -- A session that is CONNECTED and past the start of its reads was so before.
  pub past : is_connected t.status ≡ true → may_park t.phase ≡ false → may_park s.phase ≡ false
  pub up : is_connected t.status ≡ true → may_park t.phase ≡ false → is_connected s.status ≡ true
  -- One that waits for the exchange for CONNECTED waited before.
  pub earlier : is_before t.phase ≡ true → is_before s.phase ≡ true

-- The session is not CONNECTED.
off :
    (s t : Session)
    → is_connected t.status ≡ false
    → (is_before t.phase ≡ true → is_before s.phase ≡ true)
    → Moved s t
off s t n b = record {
  past = λ u. absurd (ground (arith, u, n));
  up = λ u. absurd (ground (arith, u, n));
  earlier = b;
}

-- It stays where it is.
still :
    (s t : Session)
    → (is_connected t.status ≡ true → is_connected s.status ≡ true)
    → t.phase ≡ s.phase
    → Moved s t
still s t c p = record {
  past = λ u m. ap may_park (sym p) ∙ m;
  up = λ u m. c u;
  earlier = λ b. ap is_before (sym p) ∙ b;
}

-- It is behind the exchange, or ends.
parks : (s t : Session) → may_park t.phase ≡ true → is_before t.phase ≡ false → Moved s t
parks s t m b = record {
  past = λ u n. absurd (ground (arith, m, n));
  up = λ u n. absurd (ground (arith, m, n));
  earlier = λ e. absurd (ground (arith, e, b));
}

release_from-status : (r : Release) (s : Session) → (release_from r s).status ≡ s.status
unfolding release_from
release_from-status active s = refl
release_from-status callback_set s = refl
release_from-status released s = refl

pub release_buffer-status : (s : Session) → (release_buffer s).status ≡ s.status
unfolding release_buffer
release_buffer-status s = release_from-status s.release s

pub listen_from-status : (r : Release) (s : Session) → (listen_from r s).status ≡ s.status
unfolding listen_from
listen_from-status active s = refl
listen_from-status callback_set s = refl
listen_from-status released s = refl

pub completed-status : (r d f : Bool) (s : Session) → (completed r d f s).status ≡ s.status
unfolding completed
completed-status true false true s = refl
completed-status true true true s = refl
completed-status true true false s = refl
completed-status true false false s = refl
completed-status false true true s = refl
completed-status false true false s = refl
completed-status false false true s = refl
completed-status false false false s = refl

close_from-off :
    (st : Status) (s : Session) → s.status ≡ st → is_connected (close_from st s).status ≡ false
unfolding close_from
close_from-off connecting s e = refl
close_from-off connected s e = refl
close_from-off disconnecting s e = ap is_connected e
close_from-off disconnected s e = ap is_connected e

pub close-off : (s : Session) → is_connected (close s).status ≡ false
unfolding close
close-off s = close_from-off s.status s refl

-- The session releases its buffer when it is done.
released_at :
    (s t : Session)
    → t.phase ≡ finished
    → (is_connected t.status ≡ true → is_connected s.status ≡ true)
    → may_park s.phase ≡ false
    → Moved s (release_buffer t)
unfolding release_buffer
released_at s t p c m =
    let q = release_from-phase t.release t ∙ p in
    record {
      past = λ u n. m;
      up = λ u n. c (ap is_connected (sym (release_from-status t.release t)) ∙ u);
      earlier = λ b. absurd (ground (arith, b, q));
    }

-- The same, of a session that is not CONNECTED.
released_off :
    (s t : Session)
    → t.phase ≡ finished
    → is_connected t.status ≡ false
    → Moved s (release_buffer t)
unfolding release_buffer
released_off s t p n =
    let q = release_from-phase t.release t ∙ p in
    off s (release_buffer t) (ap is_connected (release_from-status t.release t) ∙ n)
      (λ b. absurd (ground (arith, b, q)))

given_up-connected : (st : Status) → is_connected (given_up st) ≡ true → is_connected st ≡ true
given_up-connected connecting e = absurd (ground (arith, e))
given_up-connected connected e = refl
given_up-connected disconnecting e = e
given_up-connected disconnected e = e

open_from-Moved :
    (st : Status) (s : Session) → s.phase ≡ unopened → s.status ≡ st → Moved s (open_from st s)
unfolding open_from
open_from-Moved connecting s p e = off s _ (ground (arith, e)) (λ b. ap is_before p)
open_from-Moved disconnected s p e = off s _ refl (λ b. ap is_before p)
open_from-Moved connected s p e = still s s (λ u. u) refl
open_from-Moved disconnecting s p e = still s s (λ u. u) refl

open_session-Moved : (s : Session) → s.phase ≡ unopened → Moved s (open_session s)
unfolding open_session
open_session-Moved s p = elim (Bool-cases (s.open_cancelled || s.detached)) [
  | inl e ↦ rw e (
      released_at s (record s { status = given_up s.status; phase = finished }) refl
        (given_up-connected s.status) (ap may_park p))
  | inr e ↦ rw e (open_from-Moved s.status s p refl)
]

begin_session-Moved : (s : Session) → s.phase ≡ checking → Moved s (begin_session s)
unfolding begin_session
begin_session-Moved s p =
    elim (Bool-cases (not (is_connecting s.status) || (s.open_cancelled || s.detached))) [
      | inl e ↦ rw e (parks s _ refl refl)
      | inr e ↦
          rw e
            (record { past = λ u m. ap may_park p; up = λ u m. u; earlier = λ b. ap is_before p })
    ]

handshake_done-Moved :
    (r : Bool) (s : Session) → s.phase ≡ handshaking → Moved s (handshake_done r s)
unfolding handshake_done
handshake_done-Moved r s p = elim (Bool-cases (not r || (s.open_cancelled || s.detached))) [
  | inl e ↦ rw e (parks s _ refl refl)
  | inr e ↦
      rw e (record { past = λ u m. ap may_park p; up = λ u m. u; earlier = λ b. ap is_before p })
]

upgrade-Moved : (s : Session) → Moved s (upgrade s)
unfolding upgrade
upgrade-Moved s = elim (Bool-cases (is_connecting s.status)) [
  | inl e ↦ rw e (parks s _ refl refl)
  | inr e ↦ rw e (parks s _ refl refl)
]

complete-Moved : (f r : Bool) (s : Session) → Moved s (complete f r s)
unfolding complete
complete-Moved f r s =
    let t = record s { status = disconnected; phase = finished } in
    let d = is_disconnecting s.status in
    released_off s (completed r d f t) (completed-phase r d f t)
      (ap is_connected (completed-status r d f t))

read_failed-Moved : (r f : Bool) (s : Session) → s.phase ≡ reading → Moved s (read_failed r f s)
unfolding read_failed
read_failed-Moved r f s p = elim (Bool-cases (is_connected s.status)) [
  | inl e ↦ rw e (elim (Bool-cases (r && f)) [
    | inl y ↦ rw y (
        let t = calls on_error (record s { phase = finished }) in
        released_off s (close t) (close-phase t) (close-off t))
    | inr n ↦ rw n (record {
      past = λ u m. ap may_park p;
      up = λ u m. e;
      earlier = λ b. absurd (ground (arith, b));
    })
  ])
  | inr e ↦ rw e (released_off s (record s { phase = finished }) refl e)
]

read_done-Moved :
    (r : Bool) (d : Bytes) (s : Session) → s.phase ≡ reading → Moved s (read_done r d s)
unfolding read_done
read_done-Moved r d s p = elim (Bool-cases (r && (is_connected s.status && not s.detached))) [
  | inl e ↦ rw e (still s _ (λ u. u) refl)
  | inr e ↦ rw e (released_at s (record s { phase = finished }) refl (λ u. u) (ap may_park p))
]

close_done-Moved : (r : Bool) (s : Session) → Moved s (close_done r s)
unfolding close_done
close_done-Moved true s = off s (close_done true s) refl (λ b. b)
close_done-Moved false s = off s (close_done false s) refl (λ b. b)

pub start_reading-after : (s : Session) → is_before (start_reading s).phase ≡ false
unfolding start_reading
start_reading-after s = ground arith

Stops-Moved :
    {s : Session} {errs : Bool} {e : Event} {st : Status}
    → Stops s errs e st
    → Moved s (stop_at errs e st s)
unfolding stop_at
Stops-Moved {s} (completion_error p n) = off s _ refl (λ b. absurd (ground (arith, b)))
Stops-Moved {s} (completion_end p n) = off s _ refl (λ b. absurd (ground (arith, b)))
Stops-Moved {s} (completion_closed p n) = off s _ refl (λ b. absurd (ground (arith, b)))
Stops-Moved {s} (drop_end p) = off s _ refl (λ b. absurd (ground (arith, b)))
Stops-Moved {s} (read_error p n) = record {
  past = λ u m. ap may_park p;
  up = λ u m. u;
  earlier = λ b. absurd (ground (arith, b));
}
Stops-Moved {s} (data_in d p n) = record {
  past = λ u m. ap may_park p;
  up = λ u m. u;
  earlier = λ b. absurd (ground (arith, b));
}

-- Every step but the start of the reads.
pub Step-Moved : {s t : Session} (e : Step s t) → is_reads e ≡ false → Moved s t
unfolding handshake_fails drop_connection detach cancel_open set_on_buffer_released close_throws
Step-Moved {s} (opens e) n = open_session-Moved s e
Step-Moved {s} (begins e) n = begin_session-Moved s e
Step-Moved {s} (fails c e) n = parks s (handshake_fails c s) refl refl
Step-Moved {s} (upgrades_to r e) n = handshake_done-Moved r s e
Step-Moved {s} (upgrades e) n = upgrade-Moved s
Step-Moved {s} (throws e) n = parks s (handshake_fails false s) refl refl
Step-Moved {s} (reads e) n = absurd (ground (arith, n))
Step-Moved {s} (completes {failed} r e) n = complete-Moved failed r s
Step-Moved {s} (read_fails r f e) n = read_failed-Moved r f s e
Step-Moved {s} (drops e) n =
    released_off s (calls on_disconnected (record s { status = disconnected; phase = finished }))
      refl refl
Step-Moved {s} (read_dones r d e) n = read_done-Moved r d s e
Step-Moved {s} (closes e) n =
    off s (close s) (close-off s) (λ b. ap is_before (sym (close-phase s)) ∙ b)
Step-Moved {s} (close_dones r h) n = close_done-Moved r s
Step-Moved {s} (close_errors h) n = still s (close_throws s) (λ u. u) refl
Step-Moved {s} (stops_at k) n = Stops-Moved k
Step-Moved {s} detaches n = still s (detach s) (λ u. u) refl
Step-Moved {s} cancels n = still s (cancel_open s) (λ u. u) refl
Step-Moved {s} (listens l) n =
    still s (set_on_buffer_released s)
      (λ u. ap is_connected (sym (listen_from-status s.release s)) ∙ u)
      (set_on_buffer_released-Listened s).same_phase
