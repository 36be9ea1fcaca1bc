-- ===== src/Session/Opened.antt =====
-- Who opens a session: its caller, never the service.
use slick_net.Prelude.{
  ◌≡◌, inl, inr, Bool, true, false, not, ◌&&◌, refl, sym, ap, ◌∙◌, Bytes, Bool-cases, arith,
}
use slick_net.WriteChain.{disconnected, is_connected}
use slick_net.Session.{
  stop_at, close_throws, close_errors, stops_at, Session, on_error, on_disconnected, Release,
  active, callback_set, released, Phase, unopened, finished, reading, release_from, release_buffer,
  open_from, open_session, begin_session, handshake_fails, handshake_done, upgrade, start_reading,
  completed, complete, close, read_failed, drop_connection, read_done, close_done, calls,
  is_disconnecting, Step, opens, begins, fails, upgrades_to, upgrades, throws, reads, completes,
  read_fails, drops, read_dones, closes, close_dones, detaches, cancels, listens, fresh,
}
use slick_net.Session.Kept.{is_work, close-phase, Stops-phase}

abbrev pub is_unopened : Phase → Bool
is_unopened unopened = true
is_unopened _ = false

pub release_from-phase : (r : Release) (s : Session) → (release_from r s).phase ≡ s.phase
unfolding release_from
release_from-phase active s = refl
release_from-phase callback_set s = refl
release_from-phase released s = refl

-- A session whose last step leaves it in another phase is opened.
release_opened :
    (s : Session) → is_unopened s.phase ≡ false → is_unopened (release_buffer s).phase ≡ false
unfolding release_buffer
release_opened s e = ap is_unopened (release_from-phase s.release s) ∙ e

pub completed-phase : (r d f : Bool) (s : Session) → (completed r d f s).phase ≡ s.phase
unfolding completed
completed-phase true false true s = refl
completed-phase true true true s = refl
completed-phase true true false s = refl
completed-phase true false false s = refl
completed-phase false true true s = refl
completed-phase false true false s = refl
completed-phase false false true s = refl
completed-phase false false false s = refl

read_failed-opened : (r f : Bool) (s : Session) → is_unopened (read_failed r f s).phase ≡ false
unfolding read_failed
read_failed-opened r f s = elim (Bool-cases (is_connected s.status)) [
  | inl e ↦ rw e (elim (Bool-cases (r && f)) [
    | inl y ↦ rw y (
        let t = calls on_error (record s { phase = finished }) in
        release_opened (close t) (ap is_unopened (close-phase t)))
    | inr n ↦ rw n refl
  ])
  | inr e ↦ rw e (release_opened (record s { phase = finished }) refl)
]

read_done-opened :
    (r : Bool) (d : Bytes) (s : Session)
    → s.phase ≡ reading
    → is_unopened (read_done r d s).phase ≡ false
unfolding read_done
read_done-opened r d s p = elim (Bool-cases (r && (is_connected s.status && not s.detached))) [
  | inl e ↦ rw e (ap is_unopened p)
  | inr e ↦ rw e (release_opened (record s { phase = finished }) refl)
]

work_opened :
    {s t : Session} (e : Step s t)
    → is_work e ≡ true
    → is_unopened s.phase ≡ false
    → is_unopened t.phase ≡ false
unfolding close_done begin_session handshake_fails handshake_done upgrade start_reading complete
    drop_connection close_throws stop_at
work_opened {s} (close_dones true h) w u = u
work_opened {s} (close_dones false h) w u = u
work_opened {s} (begins e) w u = ground arith
work_opened {s} (fails c e) w u = refl
work_opened {s} (upgrades_to r e) w u = ground arith
work_opened {s} (upgrades e) w u = ground arith
work_opened {s} (throws e) w u = refl
work_opened {s} (reads e) w u = ground arith
work_opened {s} (completes {failed} r e) w u =
    let t = record s { status = disconnected; phase = finished } in
    let d = is_disconnecting s.status in
    release_opened (completed r d failed t) (ap is_unopened (completed-phase r d failed t))
work_opened {s} (read_fails r f e) w u = read_failed-opened r f s
work_opened {s} (drops e) w u =
    release_opened (calls on_disconnected (record s { status = disconnected; phase = finished }))
      refl
work_opened {s} (read_dones r d e) w u = read_done-opened r d s e
work_opened {s} (close_errors h) w u = u
work_opened {s} (stops_at k) w u = refl
work_opened (opens e) w u = absurd (ground (arith, w))
work_opened (closes e) w u = absurd (ground (arith, w))
work_opened detaches w u = absurd (ground (arith, w))
work_opened cancels w u = absurd (ground (arith, w))
work_opened (listens l) w u = absurd (ground (arith, w))

-- A session that is not opened yet waits, whatever the service does.
work_unopened :
    {s t : Session} (e : Step s t)
    → is_work e ≡ true
    → is_unopened s.phase ≡ true
    → is_unopened t.phase ≡ true
unfolding close_done close_throws
work_unopened {s} (close_dones true h) w u = u
work_unopened {s} (close_dones false h) w u = u
work_unopened {s} (begins e) w u = absurd (ground (arith, e, u))
work_unopened {s} (fails c e) w u = absurd (ground (arith, e, u))
work_unopened {s} (upgrades_to r e) w u = absurd (ground (arith, e, u))
work_unopened {s} (upgrades e) w u = absurd (ground (arith, e, u))
work_unopened {s} (throws e) w u = absurd (ground (arith, e, u))
work_unopened {s} (reads e) w u = absurd (ground (arith, e, u))
work_unopened {s} (completes {failed} r e) w u = absurd (ground (arith, e, u))
work_unopened {s} (read_fails r f e) w u = absurd (ground (arith, e, u))
work_unopened {s} (drops e) w u = absurd (ground (arith, e, u))
work_unopened {s} (read_dones r d e) w u = absurd (ground (arith, e, u))
work_unopened {s} (close_errors h) w u = u
work_unopened {s} (stops_at k) w u =
    absurd (ground (arith, Stops-phase is_unopened false refl refl (λ f. refl) k, u))
work_unopened (opens e) w u = absurd (ground (arith, w))
work_unopened (closes e) w u = absurd (ground (arith, w))
work_unopened detaches w u = absurd (ground (arith, w))
work_unopened cancels w u = absurd (ground (arith, w))
work_unopened (listens l) w u = absurd (ground (arith, w))

-- A session is opened by its caller, never by the service.
pub is_work-unopened :
    {s t : Session} (e : Step s t) → is_work e ≡ true → is_unopened t.phase ≡ is_unopened s.phase
is_work-unopened {s} e w = elim (Bool-cases (is_unopened s.phase)) [
  | inl y ↦ work_unopened e w y ∙ sym y
  | inr n ↦ work_opened e w n ∙ sym n
]

pub open_fresh-opened : is_unopened (open_session fresh).phase ≡ false
unfolding open_session open_from
open_fresh-opened = refl
