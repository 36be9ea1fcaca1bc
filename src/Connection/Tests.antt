-- ===== src/Connection/Tests.antt =====
-- A frame that is sent before the handshake, one that is too long for a send, and a write that fails.
use slick_net.Prelude.{Bool, ◌≤◌, ◌≡◌, refl, true, false, [], ◌∷◌, codes, arith, some, none}
use slick_net.WriteChain.{
  Frame, loads, exchanges, posts, wakes, publish, claim_load, claim_exchange, post_wakeup,
  run_wakeup, admit, do_write, maybe_start_queued_write,
}
use slick_net.Session.{
  on_connected, on_error, fresh, open_session, open_from, begin_session, handshake_done, upgrade,
  start_reading, close, close_from, opens, begins, upgrades_to, upgrades, closes,
}
use slick_net.Session.Ordered.{IsOrdered}
use slick_net.Connection.{
  Connection, begun, with_session, send_from, send_frame, publish_frame, close_if, write_breaks,
  resume_in, begin_reading, send, send_binary_data, Reach, direct, next, sends, queues, writes,
  moves, begins_reading,
}
use slick_net.Connection.Upgraded.{unwritten_before}
use slick_net.Session.Forward.{rank}
use slick_net.Connection.Forward.{status_forward}
use slick_net.Connection.Reported.{all_callbacks-IsOrdered}

abbrev hello : Frame
hello = record { is_binary = false; suppress_log = false; payload = codes "hello" }

abbrev opened : Connection
opened = with_session (open_session fresh) (begun fresh)

-- The frame is sent while the session is CONNECTING, and the chain is parked.
abbrev queued : Connection
queued = publish_frame hello [] (send_frame hello opened)

abbrev parked : Connection
parked = record queued {
  chain = run_wakeup (post_wakeup (claim_exchange (claim_load queued.chain)));
}

abbrev connected_one : Connection
connected_one =
    let a = begin_session parked.session in
    let b = handshake_done true a in
    with_session (upgrade b) (with_session b (with_session a parked))

abbrev reads_on : Connection
reads_on = begin_reading connected_one

parked-reached : Reach parked
unfolding open_session open_from send_frame admit send_from publish_frame publish claim_load
    claim_exchange post_wakeup run_wakeup do_write
parked-reached =
    next
      (next
        (next
          (next
            (next (next (next direct (moves (opens refl) refl)) (sends hello))
              (queues hello [] [] refl))
            (writes (loads (omega arith)) refl))
          (writes (exchanges (omega arith)) refl))
        (writes (posts (omega arith)) refl))
      (writes (wakes (omega arith) refl) refl)

reads_on-reached : Reach reads_on
unfolding open_session open_from send_frame admit send_from publish_frame publish claim_load
    claim_exchange post_wakeup run_wakeup do_write begin_session handshake_done upgrade
reads_on-reached =
    next
      (next
        (next (next parked-reached (moves (begins refl) refl)) (moves (upgrades_to true refl) refl))
        (moves (upgrades refl) refl))
      (begins_reading refl refl)

-- The parked chain goes on behind onConnected.
test_resumed :
    (parked.chain.parked ≡ true)
    × (reads_on.chain.parked ≡ false)
    × (reads_on.chain.posted ≡ 1)
    × (reads_on.chain.sent ≡ hello ∷ [])
unfolding open_session open_from send_frame admit send_from publish_frame publish claim_load
    claim_exchange post_wakeup run_wakeup do_write begin_session handshake_done upgrade
    begin_reading start_reading resume_in maybe_start_queued_write
test_resumed = (refl, refl, refl, refl)

unwritten_before_example : parked.chain.written ≡ []
unfolding open_session open_from send_frame admit send_from publish_frame
unwritten_before_example = unwritten_before parked-reached refl

all_callbacks-IsOrdered_example : (b : Bool) × IsOrdered b reads_on.session.log
all_callbacks-IsOrdered_example = all_callbacks-IsOrdered reads_on-reached

status_forward_example :
    rank parked.session.status ≤ rank (with_session (close parked.session) parked).session.status
unfolding open_session open_from send_frame admit send_from publish_frame
status_forward_example = status_forward {c = parked} (moves (closes refl) refl) refl

-- A write that fails is reported and closes the connection, and sends are turned away from then on.
test_broken :
    ((write_breaks true true reads_on).session.log ≡ on_connected ∷ on_error ∷ [])
    × (send true false (codes "late") (some (write_breaks true true reads_on))
        ≡ some (write_breaks true true reads_on))
    × (send_binary_data false (codes "late") none ≡ none)
unfolding open_session open_from send_frame admit send_from publish_frame publish claim_load
    claim_exchange post_wakeup run_wakeup do_write begin_session handshake_done upgrade
    begin_reading start_reading resume_in maybe_start_queued_write write_breaks close_if close
    close_from send send_binary_data
test_broken = (refl, refl, refl)
