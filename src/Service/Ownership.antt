-- ===== src/Service/Ownership.antt =====
-- Who owns service_thread_.
use slick_net.Prelude.{◌+◌, ◌≤◌, ◌≡◌, Bool, true, false, refl, ◌⊎◌, inl, inr, Bool-cases, arith}
use slick_net.Service.{
  Service, Place, stopped, starting, running, stop_requested, stopping, Thread, absent, fresh,
  testing, polling, blocked, resting, leaving, ended, is_serving, start_turn, stop_turn,
  create_thread, publish_running, restart_io, loop_test, poll_returns, run_returns, handler_throws,
  leave_thread, set_busy_poll, Step, Reach, start, next, starts, stops, callback_starts,
  callback_stops, requests, owner, stop_join, start_join, creates, publishes, begins, tests, polls,
  returns, throws, restarts, leaves, switches,
}
use slick_net.Service.Owners.{
  is_absent, is_looping, held, is_stopped, is_running, owners, Inv, at_load-Inv, start_from-Inv,
  stop_from-Inv, request-Inv, owner_requests-Inv, stop_joins-Inv, start_joins-Inv, absent_idle,
}

create_thread-Inv : (s : Service) → Inv s → 1 ≤ s.creating → Inv (create_thread s)
unfolding create_thread
create_thread-Inv s v h = let r = absent_idle s.thread (v.creating_absent h) in ground arith

publish_running-Inv : (s : Service) → Inv s → 1 ≤ s.publishing → Inv (publish_running s)
unfolding publish_running
publish_running-Inv s v h = ground arith

loop_test-Inv : (s : Service) → Inv s → s.thread ≡ testing → Inv (loop_test s)
unfolding loop_test
loop_test-Inv s v e = ground arith

start_turn-Inv : (on : Bool) (s : Service) → Inv s → Inv (start_turn on s)
unfolding start_turn
start_turn-Inv on s v = start_from-Inv s.state on s refl v

stop_turn-Inv :
    (on : Bool) (s : Service)
    → (on ≡ true → is_serving s.thread ≡ true)
    → Inv s
    → Inv (stop_turn on s)
unfolding stop_turn
stop_turn-Inv on s t v = stop_from-Inv s.state on s refl t v

pub serving_present : (t : Thread) → is_serving t ≡ true → is_absent t ≡ false
serving_present polling e = refl
serving_present blocked e = refl
serving_present absent e = ground arith
serving_present fresh e = refl
serving_present testing e = refl
serving_present resting e = refl
serving_present leaving e = refl
serving_present ended e = refl

begins-Inv : (s : Service) → Inv s → s.thread ≡ fresh ⊎ s.thread ≡ resting → Inv (restart_io s)
unfolding restart_io
begins-Inv s v (inl e) = ground arith
begins-Inv s v (inr e) = ground arith

poll_returns-Inv :
    (s : Service) → Inv s → s.thread ≡ polling → s.requesting ≡ false → Inv (poll_returns s)
unfolding poll_returns restart_io
poll_returns-Inv s v e r = ground arith

throws-Inv :
    (s : Service)
    → Inv s
    → is_serving s.thread ≡ true
    → s.requesting ≡ false
    → Inv (handler_throws s)
unfolding handler_throws
throws-Inv s v e r = let p = serving_present s.thread e in ground arith

returns-Inv :
    (s : Service) → Inv s → s.thread ≡ blocked → s.requesting ≡ false → Inv (run_returns s)
unfolding run_returns
returns-Inv s v e r = ground arith

leaves-Inv : (s : Service) → Inv s → s.thread ≡ leaving → Inv (leave_thread s)
unfolding leave_thread
leaves-Inv s v e = ground arith

switches-Inv : (b : Bool) (s : Service) → Inv s → Inv (set_busy_poll b s)
unfolding set_busy_poll
switches-Inv true s v = ground arith
switches-Inv false s v = ground arith

pub Step-Inv : {s t : Service} → Inv s → Step s t → Inv t
Step-Inv {s} v starts = start_turn-Inv false s v
Step-Inv {s} v stops = stop_turn-Inv false s (λ e. ground arith) v
Step-Inv {s} v (callback_starts t r) = start_turn-Inv true s v
Step-Inv {s} v (callback_stops t r) = stop_turn-Inv true s (λ _. t) v
Step-Inv {s} v (requests r) = request-Inv s v r
Step-Inv {s} v (owner h) = owner_requests-Inv s v h
Step-Inv {s} v (stop_join h e) = stop_joins-Inv s v h e
Step-Inv {s} v (start_join h e) = start_joins-Inv s v h e
Step-Inv {s} v (creates h) = create_thread-Inv s v h
Step-Inv {s} v (publishes h) = publish_running-Inv s v h
Step-Inv {s} v (begins e) = begins-Inv s v (inl e)
Step-Inv {s} v (tests e) = loop_test-Inv s v e
Step-Inv {s} v (polls e r) = poll_returns-Inv s v e r
Step-Inv {s} v (returns e r i) = returns-Inv s v e r
Step-Inv {s} v (throws e r) = throws-Inv s v e r
Step-Inv {s} v (restarts e) = begins-Inv s v (inr e)
Step-Inv {s} v (leaves e) = leaves-Inv s v e
Step-Inv {s} v (switches b) = switches-Inv b s v

pub Reach-Inv : {s : Service} → Reach s → Inv s
Reach-Inv start = at_load-Inv
Reach-Inv (next r e) = Step-Inv (Reach-Inv r) e

held-owned :
    (p : Place) → 1 ≤ held p → (is_stopped p ≡ false) × (held p ≡ 1) × (is_running p ≡ false)
held-owned stopped h = ground arith
held-owned starting h = ground arith
held-owned running h = ground arith
held-owned stop_requested h = ground arith
held-owned stopping h = ground arith

held-le : (p : Place) → held p ≤ 1
held-le stopped = omega arith
held-le starting = omega arith
held-le running = omega arith
held-le stop_requested = omega arith
held-le stopping = omega arith

absent-rests : (t : Thread) → is_absent t ≡ true → is_looping t ≡ false
absent-rests t e = ground arith

-- A join holds `stopping`.
joining-present : (s : Service) → Inv s → 1 ≤ s.restarting + s.joining → is_absent s.thread ≡ false
joining-present s v h = let p = held-owned s.state (omega (arith, h, v.owned)) in ground arith

-- Nobody joins a thread that was not asked to stop.
pub joining-off :
    (s : Service) → Inv s → 1 ≤ s.restarting + s.joining → s.requesting ≡ false → s.run ≡ false
joining-off s v h e =
    let p = held-owned s.state (omega (arith, h, v.owned)) in
    elim (Bool-cases s.run) [
      | inl on ↦ elim (v.asking on e) [
        | inl r ↦ ground arith
        | inr c ↦ absurd (omega (arith, c, h, v.owned, p.1))
      ]
      | inr off ↦ off
    ]

-- In every state that can be reached, at most one start or stop owns service_thread_. One that is about to create
-- the thread finds the object empty, and one that joins finds a thread in it; in `running` run_ is set and the
-- thread is in its loop; and in `stopped` there is no thread and run_ is clear.
pub one_owner :
    {s : Service}
    → Reach s
    → (owners s ≤ 1)
      × (1 ≤ s.creating → is_absent s.thread ≡ true)
      × (1 ≤ s.restarting + s.joining → is_absent s.thread ≡ false)
      × (is_running s.state ≡ true → (s.run ≡ true) × (is_looping s.thread ≡ true))
      × (is_stopped s.state ≡ true → (is_absent s.thread ≡ true) × (s.run ≡ false))
one_owner {s} r =
    let v = Reach-Inv r in
    (
      omega (arith, v.owned, held-le s.state),
      v.creating_absent,
      joining-present s v,
      (λ e. (ground arith, ground arith)),
      (λ e.
          let a = absent-rests s.thread (v.stopped_absent e) in (v.stopped_absent e, ground arith)),
    )
