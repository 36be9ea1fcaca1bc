-- ===== src/StreamService.antt =====
-- src/http_stream.cpp: the service that runs every stream constructed without an executor, its start and its
-- shutdown. A step is one access of service_state_ with what follows it up to the next, except that the owner
-- of the state restarts or stops the io_context, and fills or joins service_threads_, in steps of their own.
pub mod Ownership
mod Tests
use slick_net.Prelude.{ℕ, ◌+◌, ◌-◌, ◌≤◌, ◌≡◌, Bool, true, false, ◌==◌, if◌then◌else◌}

-- service_state
pub data Place : Type 0 where
  stopped starting running stopping : Place

pub record StreamService : Type 0 where
  pub state : Place
  pub thread_count : ℕ  -- service_thread_count_
  pub threads : ℕ  -- the size of service_threads_
  pub ioc_stopped : Bool  -- ioc_.stopped()
  pub restarting : ℕ  -- start_service calls before ioc_.restart()
  pub creating : ℕ  -- those that create the threads
  pub announcing : ℕ  -- those before the store of running
  pub halting : ℕ  -- shutdowns before ioc_.stop()
  pub joining : ℕ  -- those that join the threads
  pub leaving : ℕ  -- those before the store of stopped

abbrev pub at_load : StreamService
at_load = record {
  state = stopped;
  thread_count = 1;
  threads = 0;
  ioc_stopped = false;
  restarting = 0;
  creating = 0;
  announcing = 0;
  halting = 0;
  joining = 0;
  leaving = 0;
}

-- The exchange of start_service.
start_from : Place → StreamService → StreamService
start_from stopped s = record s { state = starting; restarting = s.restarting + 1 }
start_from _ s = s

pub start_service : StreamService → StreamService
unfolding start_from
start_service s = start_from s.state s

pub restart_ioc : StreamService → StreamService
restart_ioc s = record s {
  ioc_stopped = false;
  restarting = s.restarting - 1;
  creating = s.creating + 1;
}

-- start_service fills service_threads_.
pub create_threads : StreamService → StreamService
create_threads s = record s {
  threads = s.threads + s.thread_count;
  creating = s.creating - 1;
  announcing = s.announcing + 1;
}

-- The store of running, at its end.
pub store_running : StreamService → StreamService
store_running s = record s { state = running; announcing = s.announcing - 1 }

-- A turn of the loop of shutdown. Where another call starts the service it comes again, and
-- where the service is stopped, or is being stopped, it returns.
stop_from : Place → StreamService → StreamService
stop_from running s = record s { state = stopping; halting = s.halting + 1 }
stop_from _ s = s

pub shutdown_turn : StreamService → StreamService
unfolding stop_from
shutdown_turn s = stop_from s.state s

pub stop_ioc : StreamService → StreamService
stop_ioc s = record s { ioc_stopped = true; halting = s.halting - 1; joining = s.joining + 1 }

-- The joins and the clear.
pub join_threads : StreamService → StreamService
join_threads s = record s { threads = 0; joining = s.joining - 1; leaving = s.leaving + 1 }

-- The store of stopped.
pub store_stopped : StreamService → StreamService
store_stopped s = record s { state = stopped; leaving = s.leaving - 1 }

abbrev at_least_one : ℕ → ℕ
at_least_one n = if n == 0 then 1 else n

pub set_service_threads : ℕ → StreamService → StreamService
set_service_threads n s = record s { thread_count = at_least_one n }

is_running_at : Place → Bool
is_running_at running = true
is_running_at _ = false

pub is_running : StreamService → Bool
unfolding is_running_at
is_running s = is_running_at s.state

pub data Step (s : StreamService) : StreamService → Type 0 where
  starts : Step s (start_service s)
  restarts : 1 ≤ s.restarting → Step s (restart_ioc s)
  creates : 1 ≤ s.creating → Step s (create_threads s)
  announces : 1 ≤ s.announcing → Step s (store_running s)
  stops : Step s (shutdown_turn s)
  halts : 1 ≤ s.halting → Step s (stop_ioc s)
  joins : 1 ≤ s.joining → Step s (join_threads s)
  leaves : 1 ≤ s.leaving → Step s (store_stopped s)
  sets : (n : ℕ) → Step s (set_service_threads n s)

pub data Reach : StreamService → Type 0 where
  start : Reach at_load
  next : {s t : StreamService} → Reach s → Step s t → Reach t
