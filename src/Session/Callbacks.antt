-- ===== src/Session/Callbacks.antt =====
-- The callbacks of a session.
use slick_net.Prelude.{◌≡◌, ◌||◌, refl, Bool-cases, inl, inr, arith}
use slick_net.WriteChain.{Status, connecting, connected, disconnecting, disconnected}
use slick_net.Session.{
  Status, Session, Release, active, callback_set, released, finished, release_from, release_buffer,
  listen_from, open_from, open_session, close_from, given_up,
}

release_from-log : (r : Release) (s : Session) → (release_from r s).log ≡ s.log
unfolding release_from
release_from-log active s = refl
release_from-log callback_set s = refl
release_from-log released s = refl

pub release_buffer-log : (s : Session) → (release_buffer s).log ≡ s.log
unfolding release_buffer
release_buffer-log s = release_from-log s.release s

pub listen-log : (r : Release) (s : Session) → (listen_from r s).log ≡ s.log
unfolding listen_from
listen-log active s = refl
listen-log callback_set s = refl
listen-log released s = refl

open_from-log : (st : Status) (s : Session) → (open_from st s).log ≡ s.log
unfolding open_from
open_from-log disconnected s = refl
open_from-log connecting s = ground arith
open_from-log connected s = refl
open_from-log disconnecting s = refl

pub close_from-log : (st : Status) (s : Session) → (close_from st s).log ≡ s.log
unfolding close_from
close_from-log disconnected s = refl
close_from-log connecting s = refl
close_from-log connected s = refl
close_from-log disconnecting s = refl

pub open_session-log : (s : Session) → (open_session s).log ≡ s.log
unfolding open_session
open_session-log s = elim (Bool-cases (s.open_cancelled || s.detached)) [
  | inl e ↦ rw e (release_buffer-log (record s { status = given_up s.status; phase = finished }))
  | inr e ↦ rw e (open_from-log s.status s)
]
