-- ===== src/Service.antt =====
-- src/websocket.cpp: the thread that serves every WebSocket, its start, its stop and its loop.
-- A step is one turn of the loops of start_websocket_service() and stop_websocket_service(), or the work
-- between two accesses of service_state_. A turn whose exchange fails changes nothing, so a turn is taken
-- with the state it loads. What the io_context runs inside run() and poll() is callbacks, which may start
-- and stop the service.
pub mod Owners
pub mod Ownership
pub mod Loop
mod Tests
use slick_net.Prelude.{ℕ, zero, suc, ◌+◌, ◌-◌, ◌≤◌, ◌≡◌, Bool, true, false, if◌then◌else◌}

-- service_state
pub data Place : Type 0 where
  stopped starting running stop_requested stopping : Place

-- service_thread_, and where its function stands: before its restart(), before the test of the loop, in
-- poll(), in run(), behind run() and before the restart() there, behind the loop, and returned.
pub data Thread : Type 0 where
  absent fresh testing polling blocked resting leaving ended : Thread

-- A thread that has not returned yet.
abbrev pub is_alive : Thread → Bool
is_alive absent = false
is_alive ended = false
is_alive _ = true

-- In poll() or run(), where callbacks are called.
abbrev pub is_serving : Thread → Bool
is_serving polling = true
is_serving blocked = true
is_serving _ = false

pub record Service : Type 0 where
  pub state : Place
  pub thread : Thread
  pub run : Bool
  pub io_stopped : Bool  -- ioc_.stopped()
  pub busy_poll : Bool
  pub requesting : Bool  -- a callback is about to call request_service_stop
  pub restarting : ℕ  -- starts that join the thread of an earlier service
  pub creating : ℕ  -- starts that are about to create the thread
  pub publishing : ℕ  -- starts that have created it
  pub claimed : ℕ  -- stops that are about to call request_service_stop
  pub joining : ℕ  -- stops that join the thread

abbrev pub at_load : Service
at_load = record {
  state = stopped;
  thread = absent;
  run = false;
  io_stopped = false;
  busy_poll = false;
  requesting = false;
  restarting = 0;
  creating = 0;
  publishing = 0;
  claimed = 0;
  joining = 0;
}

-- A turn of start_websocket_service(), on the service thread or on another, with the state it loads.
pub start_from : Place → Bool → Service → Service
start_from running on_thread s = s
start_from starting on_thread s = s
start_from stopping on_thread s = s
start_from stopped true s = s
start_from stopped false s = record s { state = starting; creating = s.creating + 1 }
start_from stop_requested true s = s
start_from stop_requested false s = record s { state = stopping; restarting = s.restarting + 1 }

pub start_turn : Bool → Service → Service
unfolding start_from
start_turn on_thread s = start_from s.state on_thread s

-- A turn of stop_websocket_service().
pub stop_from : Place → Bool → Service → Service
stop_from stopped on_thread s = s
stop_from starting on_thread s = s
stop_from running true s = record s { state = stop_requested; requesting = true }
stop_from stop_requested true s = record s { requesting = true }
stop_from stopping true s = record s { requesting = true }
stop_from stopping false s = s
stop_from running false s = record s { state = stopping; claimed = s.claimed + 1 }
stop_from stop_requested false s = record s { state = stopping; claimed = s.claimed + 1 }

pub stop_turn : Bool → Service → Service
unfolding stop_from
stop_turn on_thread s = stop_from s.state on_thread s

pub request_service_stop : Service → Service
request_service_stop s = if s.run then record s { run = false; io_stopped = true } else s

-- request_service_stop in a callback.
pub callback_requests : Service → Service
unfolding request_service_stop
callback_requests s = record (request_service_stop s) { requesting = false }

-- request_service_stop in the stop that owns the state.
pub owner_requests : Service → Service
unfolding request_service_stop
owner_requests s =
    let t = request_service_stop s in record t { claimed = t.claimed - 1; joining = t.joining + 1 }

-- The join of a stop, and the store of stopped.
pub stop_joins : Service → Service
stop_joins s = record s { thread = absent; state = stopped; joining = s.joining - 1 }

-- The join of a start, and the store of starting.
pub start_joins : Service → Service
start_joins s = record s {
  thread = absent;
  state = starting;
  restarting = s.restarting - 1;
  creating = s.creating + 1;
}

-- The store of run_, and the assignment of the new thread.
pub create_thread : Service → Service
create_thread s = record s {
  run = true;
  thread = fresh;
  creating = s.creating - 1;
  publishing = s.publishing + 1;
}

-- The store of running.
pub publish_running : Service → Service
publish_running s = record s { state = running; publishing = s.publishing - 1 }

-- ioc_.restart() as the thread's function begins, and behind run().
pub restart_io : Service → Service
restart_io s = record s { io_stopped = false; thread = testing }

-- The test of the loop, and the choice between poll() and run().
pub loop_test : Service → Service
loop_test s =
    if s.run
    then (if s.busy_poll then record s { thread = polling } else record s { thread = blocked })
    else record s { thread = leaving }

-- poll() returns, and a stopped context is restarted.
pub poll_returns : Service → Service
unfolding restart_io
poll_returns s = if s.io_stopped then restart_io s else record s { thread = testing }

-- run() returns, since the context was stopped.
pub run_returns : Service → Service
run_returns s = record s { thread = resting }

-- A handler throws out of poll() or run().
pub handler_throws : Service → Service
handler_throws s = record s { thread = testing }

pub leave_thread : Service → Service
leave_thread s = record s { io_stopped = true; thread = ended }

pub set_busy_poll : Bool → Service → Service
set_busy_poll false s = record s { busy_poll = false }
set_busy_poll true s = if s.busy_poll then s else record s { busy_poll = true; io_stopped = true }

pub data Step (s : Service) : Service → Type 0 where
  starts : Step s (start_turn false s)
  stops : Step s (stop_turn false s)
  -- A callback runs on the serving thread, and calls nothing else until its request is made.
  callback_starts : is_serving s.thread ≡ true → s.requesting ≡ false → Step s (start_turn true s)
  callback_stops : is_serving s.thread ≡ true → s.requesting ≡ false → Step s (stop_turn true s)
  requests : s.requesting ≡ true → Step s (callback_requests s)
  owner : 1 ≤ s.claimed → Step s (owner_requests s)
  stop_join : 1 ≤ s.joining → is_alive s.thread ≡ false → Step s (stop_joins s)
  start_join : 1 ≤ s.restarting → is_alive s.thread ≡ false → Step s (start_joins s)
  creates : 1 ≤ s.creating → Step s (create_thread s)
  publishes : 1 ≤ s.publishing → Step s (publish_running s)
  begins : s.thread ≡ fresh → Step s (restart_io s)
  tests : s.thread ≡ testing → Step s (loop_test s)
  polls : s.thread ≡ polling → s.requesting ≡ false → Step s (poll_returns s)
  returns : s.thread ≡ blocked → s.requesting ≡ false → s.io_stopped ≡ true → Step s (run_returns s)
  throws : is_serving s.thread ≡ true → s.requesting ≡ false → Step s (handler_throws s)
  restarts : s.thread ≡ resting → Step s (restart_io s)
  leaves : s.thread ≡ leaving → Step s (leave_thread s)
  switches : (enable : Bool) → Step s (set_busy_poll enable s)

pub data Reach : Service → Type 0 where
  start : Reach at_load
  next : {s t : Service} → Reach s → Step s t → Reach t
