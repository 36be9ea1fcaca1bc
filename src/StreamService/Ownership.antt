-- ===== src/StreamService/Ownership.antt =====
-- Who owns the threads of the streams' service, and what runs on them.
use slick_net.Prelude.{ℕ, ◌+◌, ◌≤◌, ◌≡◌, true, false, refl, arith}
use slick_net.StreamService.{
  StreamService, Place, stopped, starting, running, stopping, start_from, start_service,
  restart_ioc, create_threads, store_running, stop_from, shutdown_turn, stop_ioc, join_threads,
  store_stopped, set_service_threads, is_running_at, is_running, Step, starts, restarts, creates,
  announces, stops, halts, joins, leaves, sets, Reach, start, next,
}

-- The calls that own the state in each place.
abbrev starters : Place → ℕ
starters starting = 1
starters _ = 0

abbrev stoppers : Place → ℕ
stoppers stopping = 1
stoppers _ = 0

record Inv (s : StreamService) : Type 0 where
  started : s.restarting + s.creating + s.announcing ≡ starters s.state
  ended : s.halting + s.joining + s.leaving ≡ stoppers s.state
  counted : 1 ≤ s.thread_count
  created : 1 ≤ s.announcing → 1 ≤ s.threads
  cleared : 1 ≤ s.leaving → s.threads ≡ 0
  none_there : s.state ≡ stopped → s.threads ≡ 0
  some_there : s.state ≡ running → 1 ≤ s.threads
  live : 1 ≤ s.creating + s.announcing → s.ioc_stopped ≡ false
  runs : s.state ≡ running → s.ioc_stopped ≡ false

start_from-Inv : (p : Place) (s : StreamService) → s.state ≡ p → Inv s → Inv (start_from p s)
unfolding start_from
start_from-Inv stopped s e v = ground arith
start_from-Inv starting s e v = v
start_from-Inv running s e v = v
start_from-Inv stopping s e v = v

stop_from-Inv : (p : Place) (s : StreamService) → s.state ≡ p → Inv s → Inv (stop_from p s)
unfolding stop_from
stop_from-Inv stopped s e v = v
stop_from-Inv starting s e v = v
stop_from-Inv running s e v = ground arith
stop_from-Inv stopping s e v = v

is-starting : (p : Place) → 1 ≤ starters p → p ≡ starting
is-starting starting h = refl
is-starting stopped h = ground arith
is-starting running h = ground arith
is-starting stopping h = ground arith

is-stopping : (p : Place) → 1 ≤ stoppers p → p ≡ stopping
is-stopping starting h = ground arith
is-stopping stopped h = ground arith
is-stopping running h = ground arith
is-stopping stopping h = refl

restart_ioc-Inv : (s : StreamService) → Inv s → 1 ≤ s.restarting → Inv (restart_ioc s)
unfolding restart_ioc
restart_ioc-Inv s v h = let e = is-starting s.state (omega (arith, h, v.started)) in ground arith

create_threads-Inv : (s : StreamService) → Inv s → 1 ≤ s.creating → Inv (create_threads s)
unfolding create_threads
create_threads-Inv s v h = let e = is-starting s.state (omega (arith, h, v.started)) in ground arith

store_running-Inv : (s : StreamService) → Inv s → 1 ≤ s.announcing → Inv (store_running s)
unfolding store_running
store_running-Inv s v h = let e = is-starting s.state (omega (arith, h, v.started)) in ground arith

stop_ioc-Inv : (s : StreamService) → Inv s → 1 ≤ s.halting → Inv (stop_ioc s)
unfolding stop_ioc
stop_ioc-Inv s v h = let e = is-stopping s.state (omega (arith, h, v.ended)) in ground arith

join_threads-Inv : (s : StreamService) → Inv s → 1 ≤ s.joining → Inv (join_threads s)
unfolding join_threads
join_threads-Inv s v h = let e = is-stopping s.state (omega (arith, h, v.ended)) in ground arith

store_stopped-Inv : (s : StreamService) → Inv s → 1 ≤ s.leaving → Inv (store_stopped s)
unfolding store_stopped
store_stopped-Inv s v h = let e = is-stopping s.state (omega (arith, h, v.ended)) in ground arith

set_service_threads-Inv : (n : ℕ) (s : StreamService) → Inv s → Inv (set_service_threads n s)
unfolding set_service_threads
set_service_threads-Inv n s v = ground arith

Step-Inv : {s t : StreamService} → Inv s → Step s t → Inv t
unfolding start_service shutdown_turn
Step-Inv {s} v starts = start_from-Inv s.state s refl v
Step-Inv {s} v (restarts h) = restart_ioc-Inv s v h
Step-Inv {s} v (creates h) = create_threads-Inv s v h
Step-Inv {s} v (announces h) = store_running-Inv s v h
Step-Inv {s} v stops = stop_from-Inv s.state s refl v
Step-Inv {s} v (halts h) = stop_ioc-Inv s v h
Step-Inv {s} v (joins h) = join_threads-Inv s v h
Step-Inv {s} v (leaves h) = store_stopped-Inv s v h
Step-Inv {s} v (sets n) = set_service_threads-Inv n s v

Reach-Inv : {s : StreamService} → Reach s → Inv s
Reach-Inv start = ground arith
Reach-Inv (next r e) = Step-Inv (Reach-Inv r) e

owners-le : (p : Place) → starters p + stoppers p ≤ 1
owners-le stopped = omega arith
owners-le starting = omega arith
owners-le running = omega arith
owners-le stopping = omega arith

running_of : (p : Place) → is_running_at p ≡ true → p ≡ running
unfolding is_running_at
running_of running e = refl
running_of stopped e = absurd (ground (arith, e))
running_of starting e = absurd (ground (arith, e))
running_of stopping e = absurd (ground (arith, e))

-- However start_service, shutdown and set_service_threads interleave, at most one call owns the threads of the
-- streams' service at a time, no thread is left while the service is stopped, and whenever
-- is_running() is true there is at least one thread and the io_context that it runs is not stopped, whatever
-- thread count was asked for.
pub service_runs :
    {s : StreamService}
    → Reach s
    → (s.restarting + s.creating + s.announcing + s.halting + s.joining + s.leaving ≤ 1)
      × (s.state ≡ stopped → s.threads ≡ 0)
      × (is_running s ≡ true → (1 ≤ s.threads) × (s.ioc_stopped ≡ false))
unfolding is_running
service_runs {s} r =
    let v = Reach-Inv r in
    (
      omega (arith, v.started, v.ended, owners-le s.state),
      v.none_there,
      λ e. (v.some_there (running_of s.state e), v.runs (running_of s.state e)),
    )
