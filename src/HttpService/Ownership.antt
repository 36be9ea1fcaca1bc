-- ===== src/HttpService/Ownership.antt =====
-- Who owns the threads of the service.
use slick_net.Prelude.{
  ℕ, ◌+◌, ◌≤◌, ◌≡◌, Bool, true, false, List, ◌++◌, ◌==◌, refl, inl, inr, Bool-cases, arith,
}
use slick_net.HttpService.{
  Http, Place, stopped, starting, running, stopping, ResponseDelivery, start_from, start_service,
  create_threads, store_running, stop_from, shutdown_turn, bump_epoch, join_threads, store_stopped,
  set_callback_threads, spawn, route, deliver, complete, run_queued, run_posted, Step, Reach,
  starts, creates, announces, stops, bumps, joins, leaves, sets, spawns, completes, runs_queued,
  runs_posted, start, next,
}
use slick_net.HttpRequest.{Response, async_response}

abbrev pub is_starting : Place → ℕ
is_starting starting = 1
is_starting _ = 0

abbrev pub is_stopping : Place → ℕ
is_stopping stopping = 1
is_stopping _ = 0

pub record Inv (s : Http) : Type 0 where
  pub starting_one : s.creating + s.announcing ≡ is_starting s.state
  pub stopping_one : s.bumping + s.joining + s.leaving ≡ is_stopping s.state
  pub created : 1 ≤ s.announcing → 1 ≤ s.service_threads
  pub cleared : 1 ≤ s.leaving → s.service_threads ≡ 0
  pub none_left : s.state ≡ stopped → s.service_threads ≡ 0
  pub some_left : s.state ≡ running → 1 ≤ s.service_threads

start_from-Inv : (p : Place) (s : Http) → s.state ≡ p → Inv s → Inv (start_from p s)
unfolding start_from
start_from-Inv stopped s e v = ground arith
start_from-Inv starting s e v = v
start_from-Inv running s e v = v
start_from-Inv stopping s e v = v

stop_from-Inv : (p : Place) (s : Http) → s.state ≡ p → Inv s → Inv (stop_from p s)
unfolding stop_from
stop_from-Inv stopped s e v = v
stop_from-Inv starting s e v = v
stop_from-Inv running s e v = ground arith
stop_from-Inv stopping s e v = v

-- The state that an owner has won.
is-starting : (p : Place) → 1 ≤ is_starting p → p ≡ starting
is-starting starting h = refl
is-starting stopped h = ground arith
is-starting running h = ground arith
is-starting stopping h = ground arith

is-stopping : (p : Place) → 1 ≤ is_stopping p → p ≡ stopping
is-stopping starting h = ground arith
is-stopping stopped h = ground arith
is-stopping running h = ground arith
is-stopping stopping h = refl

create_threads-Inv : (s : Http) → Inv s → 1 ≤ s.creating → Inv (create_threads s)
unfolding create_threads
create_threads-Inv s v h =
    let e = is-starting s.state (omega (arith, h, v.starting_one)) in ground arith

store_running-Inv : (s : Http) → Inv s → 1 ≤ s.announcing → Inv (store_running s)
unfolding store_running
store_running-Inv s v h =
    let e = is-starting s.state (omega (arith, h, v.starting_one)) in ground arith

bump_epoch-Inv : (s : Http) → Inv s → 1 ≤ s.bumping → Inv (bump_epoch s)
unfolding bump_epoch
bump_epoch-Inv s v h =
    let e = is-stopping s.state (omega (arith, h, v.stopping_one)) in ground arith

join_threads-Inv : (s : Http) → Inv s → 1 ≤ s.joining → Inv (join_threads s)
unfolding join_threads
join_threads-Inv s v h =
    let e = is-stopping s.state (omega (arith, h, v.stopping_one)) in ground arith

store_stopped-Inv : (s : Http) → Inv s → 1 ≤ s.leaving → Inv (store_stopped s)
unfolding store_stopped
store_stopped-Inv s v h =
    let e = is-stopping s.state (omega (arith, h, v.stopping_one)) in ground arith

route-Inv :
    (x i : Bool) (d : ResponseDelivery) (r : Response) (s : Http) → Inv s → Inv (route x i d r s)
unfolding route
route-Inv true i d r s v = ground arith
route-Inv false true d r s v = ground arith
route-Inv false false d r s v = ground arith

deliver-Inv : (d : ResponseDelivery) (r : Response) (s : Http) → Inv s → Inv (deliver d r s)
unfolding deliver
deliver-Inv d r s v = elim (Bool-cases (d.epoch == s.service_epoch)) [
  | inl e ↦ rw e (route-Inv d.has_executor s.inline_callbacks d r s v)
  | inr e ↦ rw e v
]

run_queued-Inv :
    (d : ResponseDelivery) (r : Response) (q : List (ResponseDelivery × Response)) (s : Http)
    → Inv s
    → Inv (run_queued d r q s)
unfolding run_queued
run_queued-Inv d r q s v = ground arith

Step-Inv : {s t : Http} → Inv s → Step s t → Inv t
unfolding start_service shutdown_turn set_callback_threads spawn complete run_posted
Step-Inv {s} v starts = start_from-Inv s.state s refl v
Step-Inv {s} v (creates h) = create_threads-Inv s v h
Step-Inv {s} v (announces h) = store_running-Inv s v h
Step-Inv {s} v stops = stop_from-Inv s.state s refl v
Step-Inv {s} v (bumps h) = bump_epoch-Inv s v h
Step-Inv {s} v (joins h) = join_threads-Inv s v h
Step-Inv {s} v (leaves h) = store_stopped-Inv s v h
Step-Inv {s} v (sets n) = ground arith
Step-Inv {s} v (spawns e) = ground arith
Step-Inv {s} v (completes d b a o e) =
    deliver-Inv d (async_response o) (record s { in_flight = b ++ a }) (ground arith)
Step-Inv {s} v (runs_queued d r b a e) = run_queued-Inv d r (b ++ a) s v
Step-Inv {s} v (runs_posted d r b a e) = ground arith

Reach-Inv : {s : Http} → Reach s → Inv s
Reach-Inv start = ground arith
Reach-Inv (next r e) = Step-Inv (Reach-Inv r) e

owned-le : (p : Place) → is_starting p + is_stopping p ≤ 1
owned-le stopped = omega arith
owned-le starting = omega arith
owned-le running = omega arith
owned-le stopping = omega arith

-- In any interleaving, at most one call of start_service or shutdown owns the threads of the service; while the
-- service is stopped none of them is left, and while it is running there is at least one.
pub threads_owned :
    {s : Http}
    → Reach s
    → (s.creating + s.announcing + s.bumping + s.joining + s.leaving ≤ 1)
      × (s.state ≡ stopped → s.service_threads ≡ 0)
      × (s.state ≡ running → 1 ≤ s.service_threads)
threads_owned {s} r =
    let v = Reach-Inv r in
    (omega (arith, v.starting_one, v.stopping_one, owned-le s.state), v.none_left, v.some_left)
