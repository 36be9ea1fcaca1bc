-- ===== src/Websocket/Sessions.antt =====
-- The steps of the service on the sessions of a Websocket.
use slick_net.Prelude.{◌≤◌, ◌≡◌, Bool, true, List, ◌∷◌}
use slick_net.Session.{Session, Step, unopened, open_session}
use slick_net.Session.Kept.{is_work}
use slick_net.Websocket.{
  Websocket, idle, testing, detaching_old, closing_old, replacing, cancelling, cancelling_last,
  closing_last, constructed, begin_open, test_connecting, detach_old, close_old, replace,
  begin_close, cancel_impl, detach_impl, begin_destroy, cancel_last, close_last,
}

pub data Works : List Session → List Session → Type 0 where
  here :
      {s t : Session} {l : List Session} (e : Step s t) → is_work e ≡ true → Works (s ∷ l) (t ∷ l)
  there : {s : Session} {l m : List Session} → Works l m → Works (s ∷ l) (s ∷ m)

-- on_buffer_released_ of a session, which calls open() of the one that waits for it.
pub data HandsOver : List Session → List Session → Type 0 where
  here :
      {s t : Session} {l : List Session}
      → 1 ≤ s.handoffs
      → t.phase ≡ unopened
      → HandsOver (t ∷ s ∷ l) (open_session t ∷ s ∷ l)
  there : {s : Session} {l m : List Session} → HandsOver l m → HandsOver (s ∷ l) (s ∷ m)

pub data Runs (shared : Bool) (w : Websocket) : Websocket → Type 0 where
  session_works : {m : List Session} → Works w.impls m → Runs shared w (record w { impls = m })
  buffer_released :
      {m : List Session}
      → shared ≡ true
      → HandsOver w.impls m
      → Runs shared w (record w { impls = m })
  open_begins : w.doing ≡ idle → Runs shared w (begin_open w)
  open_tests : w.doing ≡ testing → Runs shared w (test_connecting w)
  open_detaches : w.doing ≡ detaching_old → Runs shared w (detach_old w)
  open_closes : w.doing ≡ closing_old → Runs shared w (close_old w)
  open_replaces : w.doing ≡ replacing → Runs shared w (replace shared w)
  close_begins : w.doing ≡ idle → Runs shared w (begin_close w)
  close_cancels : w.doing ≡ cancelling → Runs shared w (cancel_impl w)
  detach_called : w.doing ≡ idle → Runs shared w (detach_impl w)
  destroy_begins : w.doing ≡ idle → Runs shared w (begin_destroy w)
  destroy_cancels : w.doing ≡ cancelling_last → Runs shared w (cancel_last w)
  destroy_closes : w.doing ≡ closing_last → Runs shared w (close_last w)

pub data Reached (shared : Bool) : Websocket → Type 0 where
  start : Reached shared constructed
  next : {w x : Websocket} → Reached shared w → Runs shared w x → Reached shared x
