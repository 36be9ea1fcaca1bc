-- ===== src/HttpService.antt =====
-- src/http.cpp: the shared service of callback-based requests, its start and its shutdown, and the delivery of
-- their responses. A step is one access of service_state_ or of service_epoch_, with what follows it, except
-- that the owner of the state fills and joins service_threads_ in steps of their own.
-- What the io_contexts run, and when, is any order of the steps.
pub mod Ownership
pub mod Delivery
pub mod Executor
pub mod Thread
mod Tests
use slick_net.Prelude.{
  ℕ, ◌+◌, ◌-◌, ◌≤◌, ◌≡◌, Bool, true, false, List, [], ◌∷◌, ◌++◌, Bytes, ◌==◌, if◌then◌else◌,
}
use slick_net.HttpRequest.{Response, Outcome, async_response}

-- service_state
pub data Place : Type 0 where
  stopped starting running stopping : Place

-- response_delivery: the request it is for, service_epoch_ when it was made, and whether the caller gave an executor.
pub record ResponseDelivery : Type 0 where
  pub request : ℕ
  pub epoch : ℕ
  pub has_executor : Bool

-- A callback that is called, and service_epoch_ at that time.
pub record Call : Type 0 where
  pub delivery : ResponseDelivery
  pub response : Response
  pub at_epoch : ℕ

pub record Http : Type 0 where
  pub state : Place
  pub service_epoch : ℕ
  pub inline_callbacks : Bool
  pub callback_threads : ℕ  -- callback_thread_count_
  pub service_threads : ℕ  -- the size of service_threads_
  pub creating : ℕ  -- start_service calls that create the threads
  pub announcing : ℕ  -- those that have created them, before the store of running
  pub bumping : ℕ  -- shutdowns that own the state, before the epoch moves on
  pub joining : ℕ  -- shutdowns that join the threads
  pub leaving : ℕ  -- those that have joined them, before the store of stopped
  pub requests : ℕ  -- the requests so far
  pub in_flight : List ResponseDelivery
  pub queued : List (ResponseDelivery × Response)  -- on callback_ioc_
  pub posted : List (ResponseDelivery × Response)  -- on the callers' executors
  pub calls : List Call  -- the callbacks so far

abbrev pub at_load : Http
at_load = record {
  state = stopped;
  service_epoch = 0;
  inline_callbacks = false;
  callback_threads = 1;
  service_threads = 0;
  creating = 0;
  announcing = 0;
  bumping = 0;
  joining = 0;
  leaving = 0;
  requests = 0;
  in_flight = [];
  queued = [];
  posted = [];
  calls = [];
}

-- The exchange of start_service.
start_from : Place → Http → Http
start_from stopped s = record s { state = starting; creating = s.creating + 1 }
start_from _ s = s

pub start_service : Http → Http
unfolding start_from
start_service s = start_from s.state s

-- start_service fills service_threads_.
pub create_threads : Http → Http
create_threads s = record s {
  creating = s.creating - 1;
  announcing = s.announcing + 1;
  inline_callbacks = s.callback_threads == 0;
  service_threads = s.service_threads + s.callback_threads + 1;
}

-- The store of running, at its end.
pub store_running : Http → Http
store_running s = record s { state = running; announcing = s.announcing - 1 }

-- A turn of the loop of shutdown; a turn that waits changes nothing.
stop_from : Place → Http → Http
stop_from running s = record s { state = stopping; bumping = s.bumping + 1 }
stop_from _ s = s

pub shutdown_turn : Http → Http
unfolding stop_from
shutdown_turn s = stop_from s.state s

-- Its fetch_add on the epoch.
pub bump_epoch : Http → Http
bump_epoch s = record s {
  service_epoch = s.service_epoch + 1;
  bumping = s.bumping - 1;
  joining = s.joining + 1;
}

-- The stops, the joins and the clear.
pub join_threads : Http → Http
join_threads s = record s { service_threads = 0; joining = s.joining - 1; leaving = s.leaving + 1 }

-- The store of stopped.
pub store_stopped : Http → Http
store_stopped s = record s { state = stopped; leaving = s.leaving - 1 }

pub set_callback_threads : ℕ → Http → Http
set_callback_threads n s = record s { callback_threads = n }

-- spawn_async_request, behind start_service.
pub spawn : Bool → Http → Http
spawn has_executor s = record s {
  requests = s.requests + 1;
  in_flight =
      record { request = s.requests; epoch = s.service_epoch; has_executor = has_executor }
      ∷ s.in_flight;
}

-- The callback is called.
abbrev pub called : ResponseDelivery → Response → Http → Http
called d r s = record s {
  calls = record { delivery = d; response = r; at_epoch = s.service_epoch } ∷ s.calls;
}

-- What response_delivery::operator() does with a response that it does not drop: with an executor or without
-- one, with inline_callbacks_ or not.
route : Bool → Bool → ResponseDelivery → Response → Http → Http
route true inline d r s = record s { posted = (d, r) ∷ s.posted }
route false true d r s = called d r s
route false false d r s = record s { queued = (d, r) ∷ s.queued }

-- response_delivery::operator().
pub deliver : ResponseDelivery → Response → Http → Http
unfolding route
deliver d r s =
    if d.epoch == s.service_epoch then route d.has_executor s.inline_callbacks d r s else s

-- A request completes: it is no longer in flight, and its response is delivered.
pub complete : ResponseDelivery → List ResponseDelivery → Outcome → Http → Http
unfolding deliver async_response
complete d rest o s = deliver d (async_response o) (record s { in_flight = rest })

-- A handler that deliver posted to callback_ioc_ runs.
pub run_queued : ResponseDelivery → Response → List (ResponseDelivery × Response) → Http → Http
run_queued d r rest s =
    let t = record s { queued = rest } in if d.epoch == t.service_epoch then called d r t else t

-- One that it posted to the caller's executor runs.
pub run_posted : ResponseDelivery → Response → List (ResponseDelivery × Response) → Http → Http
run_posted d r rest s = called d r (record s { posted = rest })

-- Any of the requests in flight, and any of the handlers that are queued, may be the next.
pub data Step (s : Http) : Http → Type 0 where
  starts : Step s (start_service s)
  creates : 1 ≤ s.creating → Step s (create_threads s)
  announces : 1 ≤ s.announcing → Step s (store_running s)
  stops : Step s (shutdown_turn s)
  bumps : 1 ≤ s.bumping → Step s (bump_epoch s)
  joins : 1 ≤ s.joining → Step s (join_threads s)
  leaves : 1 ≤ s.leaving → Step s (store_stopped s)
  sets : (n : ℕ) → Step s (set_callback_threads n s)
  spawns : (has_executor : Bool) → Step s (spawn has_executor s)
  completes :
      (d : ResponseDelivery) (before after : List ResponseDelivery) (o : Outcome)
      → s.in_flight ≡ before ++ d ∷ after
      → Step s (complete d (before ++ after) o s)
  runs_queued :
      (d : ResponseDelivery) (r : Response) (before after : List (ResponseDelivery × Response))
      → s.queued ≡ before ++ (d, r) ∷ after
      → Step s (run_queued d r (before ++ after) s)
  runs_posted :
      (d : ResponseDelivery) (r : Response) (before after : List (ResponseDelivery × Response))
      → s.posted ≡ before ++ (d, r) ∷ after
      → Step s (run_posted d r (before ++ after) s)

pub data Reach : Http → Type 0 where
  start : Reach at_load
  next : {s t : Http} → Reach s → Step s t → Reach t
