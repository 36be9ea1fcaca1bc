-- ===== src/Service/Tests.antt =====
-- A service that a callback stops, and another thread joins.
use slick_net.Prelude.{◌+◌, ◌≤◌, ◌≡◌, refl, true, false, arith}
use slick_net.Service.{
  Service, at_load, is_alive, start_from, start_turn, stop_from, stop_turn, request_service_stop,
  create_thread, publish_running, restart_io, loop_test, owner_requests, Reach, start, next, starts,
  stops, callback_stops, owner, creates, publishes, begins, tests,
}
use slick_net.Service.Owners.{owners, is_absent, is_looping, is_running, is_stopped}
use slick_net.Service.Ownership.{one_owner}
use slick_net.Service.Loop.{turns, join_returns}

abbrev serving : Service
serving = loop_test (restart_io (publish_running (create_thread (start_turn false at_load))))

-- The callback has taken the state, and has not requested the stop when the other thread joins.
abbrev joined : Service
joined = owner_requests (stop_turn false (stop_turn true serving))

serving-reached : Reach serving
unfolding start_turn start_from create_thread publish_running restart_io
serving-reached =
    next
      (next (next (next (next start starts) (creates (omega arith))) (publishes (omega arith)))
        (begins refl))
      (tests refl)

joined-reached : Reach joined
unfolding start_turn start_from create_thread publish_running restart_io loop_test stop_turn
    stop_from
joined-reached =
    next (next (next serving-reached (callback_stops refl refl)) stops) (owner (omega arith))

join_returns_example : is_alive (turns 5 joined).thread ≡ false
unfolding start_turn start_from create_thread publish_running restart_io loop_test stop_turn
    stop_from owner_requests request_service_stop
join_returns_example = join_returns joined-reached (omega arith)

one_owner_example :
    (owners joined ≤ 1)
    × (1 ≤ joined.creating → is_absent joined.thread ≡ true)
    × (1 ≤ joined.restarting + joined.joining → is_absent joined.thread ≡ false)
    × (is_running joined.state ≡ true → (joined.run ≡ true) × (is_looping joined.thread ≡ true))
    × (is_stopped joined.state ≡ true → (is_absent joined.thread ≡ true) × (joined.run ≡ false))
one_owner_example = one_owner joined-reached
