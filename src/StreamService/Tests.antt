-- ===== src/StreamService/Tests.antt =====
-- A service that is started with no thread asked for.
use slick_net.Prelude.{◌≡◌, ◌≤◌, ◌+◌, refl, true, false, arith}
use slick_net.StreamService.{
  StreamService, at_load, set_service_threads, start_service, start_from, restart_ioc,
  create_threads, store_running, stopped, is_running, Reach, start, next, sets, starts, restarts,
  creates, announces,
}
use slick_net.StreamService.Ownership.{service_runs}

abbrev started : StreamService
started =
    store_running (create_threads (restart_ioc (start_service (set_service_threads 0 at_load))))

started-reached : Reach started
unfolding set_service_threads start_service start_from restart_ioc create_threads
started-reached =
    next
      (next (next (next (next start (sets 0)) starts) (restarts (omega arith)))
        (creates (omega arith)))
      (announces (omega arith))

test_started : started.threads ≡ 1
unfolding set_service_threads start_service start_from restart_ioc create_threads store_running
test_started = refl

service_runs_example :
    (started.restarting + started.creating + started.announcing + started.halting + started.joining
        + started.leaving
      ≤ 1)
    × (started.state ≡ stopped → started.threads ≡ 0)
    × (is_running started ≡ true → (1 ≤ started.threads) × (started.ioc_stopped ≡ false))
service_runs_example = service_runs started-reached
