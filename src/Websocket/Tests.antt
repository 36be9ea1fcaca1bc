-- ===== src/Websocket/Tests.antt =====
-- A Websocket whose first session is closed and replaced while it connects, so that the second waits for its buffer.
use slick_net.Prelude.{◌≡◌, ◌≤◌, refl, true, false, [], ◌∷◌}
use slick_net.Session.{
  Session, fresh, mark_pending_open, open_session, open_from, close, close_from, detach,
  set_on_buffer_released, begin_session, complete, begins, handshake_done, upgrade, upgrades_to,
  upgrades,
}
use slick_net.WriteChain.{connected}
use slick_net.Websocket.{
  Websocket, constructed, begin_open_from, begin_open, begin_close_from, begin_close, status_of,
  status, test_connecting, detach_old, close_old, replaced, replace, detaching_old,
}
use slick_net.Websocket.Sessions.{
  here, Reached, start, next, open_begins, open_tests, open_detaches, open_closes, open_replaces,
  close_begins, session_works,
}
use slick_net.Websocket.Sharing.{under_way, one_session_reads}

abbrev opening : Websocket
opening = begin_open constructed

abbrev reopening : Websocket
reopening = begin_open (begin_close opening)

abbrev reopened : Websocket
reopened = replace true (close_old (detach_old (test_connecting reopening)))

abbrev old : Session
old = set_on_buffer_released (close (detach (close (open_session fresh))))

-- The coroutine of the old session finds it closed.
abbrev given_up : Session
given_up = begin_session old

abbrev over : Websocket
over = record reopened { impls = mark_pending_open fresh ∷ complete false true given_up ∷ [] }

reopened-Reached : Reached true reopened
unfolding begin_open begin_open_from begin_close begin_close_from status status_of test_connecting
    detach_old close_old replace replaced open_session open_from close close_from detach
reopened-Reached =
    next
      (next
        (next
          (next (next (next (next start (open_begins refl)) (close_begins refl)) (open_begins refl))
            (open_tests refl))
          (open_detaches refl))
        (open_closes refl))
      (open_replaces refl)

one_session_reads_example : under_way reopened.impls ≤ 1
one_session_reads_example = one_session_reads reopened-Reached

-- open() is called while the session connects; it finds the session not CONNECTED, the session becomes
-- CONNECTED, and then open() finds it not CONNECTING.
abbrev connecting_one : Session
connecting_one = handshake_done true (begin_session (open_session fresh))

abbrev tested_once : Websocket
tested_once = begin_open (record opening { impls = connecting_one ∷ [] })

abbrev live : Websocket
live = test_connecting (record tested_once { impls = upgrade connecting_one ∷ [] })

live-Reached : Reached true live
unfolding begin_open begin_open_from status status_of test_connecting open_session open_from
    begin_session handshake_done upgrade
live-Reached =
    next
      (next
        (next
          (next (next (next start (open_begins refl)) (session_works (here (begins refl) refl)))
            (session_works (here (upgrades_to true refl) refl)))
          (open_begins refl))
        (session_works (here (upgrades refl) refl)))
      (open_tests refl)

test_live_replaced : (status live ≡ connected) × (live.doing ≡ detaching_old)
unfolding begin_open begin_open_from status status_of test_connecting open_session open_from
    begin_session handshake_done upgrade
test_live_replaced = (refl, refl)
