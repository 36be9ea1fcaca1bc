-- ===== src/HttpService/Delivery.antt =====
-- Which callbacks are called.
use slick_net.Prelude.{
  ◌≡◌, Bool, true, false, List, [], ◌∷◌, ◌++◌, ◌==◌, refl, subst, ◌⊎◌, inl, inr, Bool-cases, arith,
  ==_iff,
}
use slick_net.HttpService.{
  Http, Place, stopped, starting, running, stopping, ResponseDelivery, Call, start_from,
  start_service, create_threads, store_running, store_stopped, stop_from, shutdown_turn, bump_epoch,
  join_threads, set_callback_threads, spawn, route, deliver, complete, run_queued, run_posted, Step,
  Reach, starts, creates, announces, stops, bumps, joins, leaves, sets, spawns, completes,
  runs_queued, runs_posted, start, next,
}
use slick_net.HttpRequest.{Response, async_response}

-- The responses that the callers' executors hold are of requests that came with an executor.
HasExecutors : List (ResponseDelivery × Response) → Type 0
HasExecutors [] = Unit {0}
HasExecutors ((d, r) ∷ q) = (d.has_executor ≡ true) × HasExecutors q

split :
    (before after : List (ResponseDelivery × Response)) (d : ResponseDelivery) (r : Response)
    → HasExecutors (before ++ (d, r) ∷ after)
    → (d.has_executor ≡ true) × HasExecutors (before ++ after)
unfolding HasExecutors
split [] after d r h = h
split ((e, t) ∷ before) after d r h = let p = split before after d r h.1 in (p.0, (h.0, p.1))

start_from-posted :
    (p : Place) (s : Http)
    → ((start_from p s).posted ≡ s.posted) × ((start_from p s).calls ≡ s.calls)
unfolding start_from
start_from-posted stopped s = (refl, refl)
start_from-posted starting s = (refl, refl)
start_from-posted running s = (refl, refl)
start_from-posted stopping s = (refl, refl)

stop_from-posted :
    (p : Place) (s : Http) → ((stop_from p s).posted ≡ s.posted) × ((stop_from p s).calls ≡ s.calls)
unfolding stop_from
stop_from-posted stopped s = (refl, refl)
stop_from-posted starting s = (refl, refl)
stop_from-posted running s = (refl, refl)
stop_from-posted stopping s = (refl, refl)

route-HasExecutors :
    (x i : Bool) (d : ResponseDelivery) (r : Response) (s : Http)
    → d.has_executor ≡ x
    → HasExecutors s.posted
    → HasExecutors (route x i d r s).posted
unfolding route HasExecutors
route-HasExecutors true i d r s e h = (e, h)
route-HasExecutors false true d r s e h = h
route-HasExecutors false false d r s e h = h

deliver-HasExecutors :
    (d : ResponseDelivery) (r : Response) (s : Http)
    → HasExecutors s.posted
    → HasExecutors (deliver d r s).posted
unfolding deliver
deliver-HasExecutors d r s h = elim (Bool-cases (d.epoch == s.service_epoch)) [
  | inl e ↦ rw e (route-HasExecutors d.has_executor s.inline_callbacks d r s refl h)
  | inr e ↦ rw e h
]

run_queued-posted :
    (d : ResponseDelivery) (r : Response) (q : List (ResponseDelivery × Response)) (s : Http)
    → (run_queued d r q s).posted ≡ s.posted
unfolding run_queued
run_queued-posted d r q s = ground arith

Step-HasExecutors : {s t : Http} → HasExecutors s.posted → Step s t → HasExecutors t.posted
unfolding start_service create_threads shutdown_turn bump_epoch join_threads set_callback_threads
    spawn complete run_posted store_running store_stopped
Step-HasExecutors {s} h starts = rw (start_from-posted s.state s).0 h
Step-HasExecutors {s} h (creates o) = h
Step-HasExecutors {s} h (announces o) = h
Step-HasExecutors {s} h stops = rw (stop_from-posted s.state s).0 h
Step-HasExecutors {s} h (bumps o) = h
Step-HasExecutors {s} h (joins o) = h
Step-HasExecutors {s} h (leaves o) = h
Step-HasExecutors {s} h (sets n) = h
Step-HasExecutors {s} h (spawns e) = h
Step-HasExecutors {s} h (completes d b a o e) =
    deliver-HasExecutors d (async_response o) (record s { in_flight = b ++ a }) h
Step-HasExecutors {s} h (runs_queued d r b a e) = rw (run_queued-posted d r (b ++ a) s) h
Step-HasExecutors {s} h (runs_posted d r b a e) = (split b a d r (subst HasExecutors e h)).1

Reach-HasExecutors : {s : Http} → Reach s → HasExecutors s.posted
unfolding HasExecutors
Reach-HasExecutors start = tt
Reach-HasExecutors (next r e) = Step-HasExecutors (Reach-HasExecutors r) e

-- A step calls no callback, or the callback of one request, which is of the current epoch or came with an executor.
abbrev pub MayCall : Http → Http → Type 0
MayCall s t =
    (t.calls ≡ s.calls)
    ⊎ ((c : Call) × (t.calls ≡ c ∷ s.calls)
        × ((c.delivery.epoch ≡ s.service_epoch) ⊎ (c.delivery.has_executor ≡ true)))

route-MayCall :
    (x i : Bool) (d : ResponseDelivery) (r : Response) (s : Http)
    → d.epoch ≡ s.service_epoch
    → MayCall s (route x i d r s)
unfolding route
route-MayCall true i d r s e = inl refl
route-MayCall false true d r s e =
    inr (record { delivery = d; response = r; at_epoch = s.service_epoch }, refl, inl e)
route-MayCall false false d r s e = inl refl

deliver-MayCall : (d : ResponseDelivery) (r : Response) (s : Http) → MayCall s (deliver d r s)
unfolding deliver
deliver-MayCall d r s = elim (Bool-cases (d.epoch == s.service_epoch)) [
  | inl e ↦
      rw e (
        route-MayCall d.has_executor s.inline_callbacks d r s
          ((==_iff d.epoch s.service_epoch).0 e))
  | inr e ↦ rw e (inl refl)
]

run_queued-MayCall :
    (d : ResponseDelivery) (r : Response) (q : List (ResponseDelivery × Response)) (s : Http)
    → MayCall s (run_queued d r q s)
unfolding run_queued
run_queued-MayCall d r q s = elim (Bool-cases (d.epoch == s.service_epoch)) [
  | inl e ↦ rw e (
      inr (
        record { delivery = d; response = r; at_epoch = s.service_epoch },
        refl,
        inl ((==_iff d.epoch s.service_epoch).0 e),
      ))
  | inr e ↦ rw e (inl refl)
]

-- A request that shutdown() abandoned drops its callback: a step from any state that can be reached calls no
-- callback, or the callback of one request, and either no shutdown has moved the epoch on since that request was
-- made or the request came with an executor of the caller's.
pub abandoned_dropped : {s t : Http} → Reach s → Step s t → MayCall s t
unfolding start_service create_threads shutdown_turn bump_epoch join_threads set_callback_threads
    spawn complete run_posted store_running store_stopped
abandoned_dropped {s} r starts = inl (start_from-posted s.state s).1
abandoned_dropped {s} r (creates o) = inl refl
abandoned_dropped {s} r (announces o) = inl refl
abandoned_dropped {s} r stops = inl (stop_from-posted s.state s).1
abandoned_dropped {s} r (bumps o) = inl refl
abandoned_dropped {s} r (joins o) = inl refl
abandoned_dropped {s} r (leaves o) = inl refl
abandoned_dropped {s} r (sets n) = inl refl
abandoned_dropped {s} r (spawns e) = inl refl
abandoned_dropped {s} r (completes d b a o e) =
    deliver-MayCall d (async_response o) (record s { in_flight = b ++ a })
abandoned_dropped {s} r (runs_queued d p b a e) = run_queued-MayCall d p (b ++ a) s
abandoned_dropped {s} r (runs_posted d p b a e) = inr (
  record { delivery = d; response = p; at_epoch = s.service_epoch },
  refl,
  inr (split b a d p (subst HasExecutors e (Reach-HasExecutors r))).0,
)
