-- ===== src/Session/Tests.antt =====
-- A session that another waits for, and one that is closed in onConnected.
use slick_net.Prelude.{◌≡◌, ◌&&◌, refl, true, false, [], ◌∷◌, codes}
use slick_net.WriteChain.{disconnected}
use slick_net.Session.Held.{count, is_over, is_released}
use slick_net.Session.Handoff.{handed_over_once}
use slick_net.Session.{
  stop_at, stops_at, drop_end, callback_set, Session, on_connected, on_data, on_disconnected, fresh,
  open_session, open_from, begin_session, handshake_done, upgrade, start_reading, read_done,
  read_failed, drop_connection, release_buffer, release_from, set_on_buffer_released, listen_from,
  close, close_from, complete, completed, close_done, Reach, direct, next, opens, begins,
  upgrades_to, upgrades, reads, read_dones, read_fails, drops, listens,
}

abbrev connected_one : Session
connected_one = upgrade (handshake_done true (begin_session (open_session fresh)))

abbrev waited_for : Session
waited_for = set_on_buffer_released (read_done true (codes "hi") (start_reading connected_one))

-- The peer has closed the connection.
abbrev dropped : Session
dropped = drop_connection (read_failed true false waited_for)

connected-reached : Reach connected_one
unfolding open_session open_from begin_session handshake_done
connected-reached =
    next (next (next (next direct (opens refl)) (begins refl)) (upgrades_to true refl))
      (upgrades refl)

waited-reached : Reach waited_for
unfolding open_session open_from begin_session handshake_done upgrade start_reading read_done
waited-reached =
    next (next (next connected-reached (reads refl)) (read_dones true (codes "hi") refl))
      (listens refl)

dropped-reached : Reach dropped
unfolding open_session open_from begin_session handshake_done upgrade start_reading read_done
    set_on_buffer_released listen_from read_failed
dropped-reached = next (next waited-reached (read_fails true false refl)) (drops refl)

test_dropped :
    (dropped.handoffs ≡ 1)
    × (dropped.log ≡ on_connected ∷ on_data (codes "hi") ∷ on_disconnected ∷ [])
unfolding open_session open_from begin_session handshake_done upgrade start_reading read_done
    set_on_buffer_released listen_from read_failed drop_connection release_buffer release_from
test_dropped = (refl, refl)

handed_over_once_example :
    (dropped.handoffs ≡ count (dropped.listening && is_released dropped.release))
    × (is_released dropped.release ≡ is_over dropped.phase)
handed_over_once_example = handed_over_once dropped-reached

-- An onDisconnected that throws out of on_read: the buffer is never handed on.
abbrev thrown : Session
thrown = stop_at false on_disconnected disconnected (read_failed true false waited_for)

test_thrown : Reach thrown × (thrown.handoffs ≡ 0) × (thrown.release ≡ callback_set)
unfolding open_session open_from begin_session handshake_done upgrade start_reading read_done
    set_on_buffer_released listen_from read_failed stop_at
test_thrown =
    (next (next waited-reached (read_fails true false refl)) (stops_at (drop_end refl)), refl, refl)

-- close() in onConnected: the completion handler and on_close call onDisconnected both.
closed_early : Session
unfolding open_session open_from begin_session handshake_done upgrade close close_from start_reading
    complete completed release_buffer release_from close_done
closed_early = close_done false (complete false true (start_reading (close connected_one)))

test_closed_early : closed_early.log ≡ on_connected ∷ on_disconnected ∷ on_disconnected ∷ []
unfolding closed_early open_session open_from begin_session handshake_done upgrade close close_from
    start_reading complete completed release_buffer release_from close_done
test_closed_early = refl
