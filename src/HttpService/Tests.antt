-- ===== src/HttpService/Tests.antt =====
-- Two requests, and a shutdown between them.
use slick_net.Prelude.{◌+◌, ◌≤◌, ◌≡◌, refl, false, [], ◌∷◌, arith, codes}
use slick_net.HttpService.{
  Http, ResponseDelivery, stopped, running, at_load, start_from, start_service, create_threads,
  store_running, stop_from, shutdown_turn, bump_epoch, spawn, route, deliver, complete, run_queued,
  Reach, start, next, starts, creates, announces, stops, bumps, spawns, completes, runs_queued,
}
use slick_net.HttpRequest.{Response, threw_unknown, async_response}
use slick_net.HttpService.Ownership.{threads_owned}
use slick_net.HttpService.Delivery.{MayCall, abandoned_dropped}

abbrev first : ResponseDelivery
first = record { request = 0; epoch = 0; has_executor = false }

abbrev failure : Response
failure = record { result_code = 500; reason = codes "Unknown error"; result_text = [] }

abbrev answered : Http
answered =
    complete first [] threw_unknown
      (spawn false (store_running (create_threads (start_service at_load))))

abbrev stopping_one : Http
stopping_one = bump_epoch (shutdown_turn answered)

answered-reached : Reach answered
unfolding start_service start_from create_threads store_running spawn
answered-reached =
    next
      (next (next (next (next start starts) (creates (omega arith))) (announces (omega arith)))
        (spawns false))
      (completes first [] [] threw_unknown refl)

stopping-reached : Reach stopping_one
unfolding start_service start_from create_threads store_running spawn complete async_response
    deliver route shutdown_turn stop_from
stopping-reached = next (next answered-reached stops) (bumps (omega arith))

-- The queued callback runs before a shutdown, and not after it.
test_called :
    (run_queued first failure [] answered).calls
    ≡ record { delivery = first; response = failure; at_epoch = 0 } ∷ []
unfolding start_service start_from create_threads store_running spawn complete async_response
    deliver route run_queued
test_called = refl

test_dropped : (run_queued first failure [] stopping_one).calls ≡ []
unfolding start_service start_from create_threads store_running spawn complete async_response
    deliver route shutdown_turn stop_from bump_epoch run_queued
test_dropped = refl

abandoned_dropped_example : MayCall answered (run_queued first failure [] answered)
unfolding start_service start_from create_threads store_running spawn complete async_response
    deliver route
abandoned_dropped_example =
    abandoned_dropped answered-reached (runs_queued first failure [] [] refl)

threads_owned_example :
    (stopping_one.creating + stopping_one.announcing + stopping_one.bumping + stopping_one.joining
        + stopping_one.leaving
      ≤ 1)
    × (stopping_one.state ≡ stopped → stopping_one.service_threads ≡ 0)
    × (stopping_one.state ≡ running → 1 ≤ stopping_one.service_threads)
threads_owned_example = threads_owned stopping-reached
