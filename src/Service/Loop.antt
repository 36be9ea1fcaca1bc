-- ===== src/Service/Loop.antt =====
-- The loop of the service thread: what its next step is, and that a stop reaches it.
use slick_net.Prelude.{
  ℕ, zero, suc, ◌+◌, ◌-◌, ◌≤◌, ◌≡◌, Bool, true, false, if◌then◌else◌, refl, ap, ◌⊎◌, inl, inr,
  Bool-cases, arith,
}
use slick_net.Service.{
  Service, Place, stopped, starting, running, stop_requested, stopping, Thread, absent, fresh,
  testing, polling, blocked, resting, leaving, ended, is_alive, start_from, start_turn, stop_from,
  stop_turn, request_service_stop, callback_requests, owner_requests, stop_joins, start_joins,
  create_thread, publish_running, restart_io, loop_test, poll_returns, run_returns, handler_throws,
  leave_thread, set_busy_poll, Step, Reach, start, next, starts, stops, callback_starts,
  callback_stops, requests, owner, stop_join, start_join, creates, publishes, begins, tests, polls,
  returns, throws, restarts, leaves, switches,
}
use slick_net.Service.Owners.{Inv}
use slick_net.Service.Ownership.{Reach-Inv, joining-off}

-- A thread in run() whose service is to stop, or is to poll, has its context stopped.
abbrev pub IsWoken : Service → Type 0
IsWoken s = s.thread ≡ blocked → (s.run ≡ false) ⊎ (s.busy_poll ≡ true) → s.io_stopped ≡ true

start_from-IsWoken : (p : Place) (on : Bool) (s : Service) → IsWoken s → IsWoken (start_from p on s)
unfolding start_from
start_from-IsWoken running on s v = v
start_from-IsWoken starting on s v = v
start_from-IsWoken stopping on s v = v
start_from-IsWoken stopped true s v = v
start_from-IsWoken stopped false s v = v
start_from-IsWoken stop_requested true s v = v
start_from-IsWoken stop_requested false s v = v

stop_from-IsWoken : (p : Place) (on : Bool) (s : Service) → IsWoken s → IsWoken (stop_from p on s)
unfolding stop_from
stop_from-IsWoken stopped on s v = v
stop_from-IsWoken starting on s v = v
stop_from-IsWoken running true s v = v
stop_from-IsWoken stop_requested true s v = v
stop_from-IsWoken stopping true s v = v
stop_from-IsWoken stopping false s v = v
stop_from-IsWoken running false s v = v
stop_from-IsWoken stop_requested false s v = v

request-IsWoken : (s : Service) → IsWoken s → IsWoken (request_service_stop s)
unfolding request_service_stop
request-IsWoken s v = λ t c. ground arith

loop_test-IsWoken : (s : Service) → IsWoken (loop_test s)
unfolding loop_test
loop_test-IsWoken s = λ t c. ground arith

switch-IsWoken : (b : Bool) (s : Service) → IsWoken s → IsWoken (set_busy_poll b s)
unfolding set_busy_poll
switch-IsWoken true s v = λ t c. ground arith
switch-IsWoken false s v = λ t c. ground arith

poll_returns-IsWoken : (s : Service) → IsWoken (poll_returns s)
unfolding poll_returns restart_io
poll_returns-IsWoken s = λ t c. ground arith

Step-IsWoken : {s t : Service} → IsWoken s → Step s t → IsWoken t
unfolding callback_requests owner_requests start_turn stop_turn stop_joins start_joins create_thread
    publish_running restart_io run_returns handler_throws leave_thread
Step-IsWoken {s} v starts = start_from-IsWoken s.state false s v
Step-IsWoken {s} v stops = stop_from-IsWoken s.state false s v
Step-IsWoken {s} v (callback_starts t r) = start_from-IsWoken s.state true s v
Step-IsWoken {s} v (callback_stops t r) = stop_from-IsWoken s.state true s v
Step-IsWoken {s} v (requests r) = request-IsWoken s v
Step-IsWoken {s} v (owner h) = request-IsWoken s v
Step-IsWoken {s} v (stop_join h e) = λ t c. ground arith
Step-IsWoken {s} v (start_join h e) = λ t c. ground arith
Step-IsWoken {s} v (creates h) = λ t c. ground arith
Step-IsWoken {s} v (publishes h) = v
Step-IsWoken {s} v (begins e) = λ t c. ground arith
Step-IsWoken {s} v (tests e) = loop_test-IsWoken s
Step-IsWoken {s} v (polls e r) = poll_returns-IsWoken s
Step-IsWoken {s} v (returns e r i) = λ t c. ground arith
Step-IsWoken {s} v (throws e r) = λ t c. ground arith
Step-IsWoken {s} v (restarts e) = λ t c. ground arith
Step-IsWoken {s} v (leaves e) = λ t c. ground arith
Step-IsWoken {s} v (switches b) = switch-IsWoken b s v

Reach-IsWoken : {s : Service} → Reach s → IsWoken s
Reach-IsWoken start = λ t c. ground arith
Reach-IsWoken (next r e) = Step-IsWoken (Reach-IsWoken r) e

-- The next step of the thread's own function, in which run() returns only once the context is stopped.
advance : Thread → Service → Service
unfolding restart_io loop_test poll_returns run_returns leave_thread
advance absent s = s
advance fresh s = restart_io s
advance testing s = loop_test s
advance polling s = poll_returns s
advance blocked s = if s.io_stopped then run_returns s else s
advance resting s = restart_io s
advance leaving s = leave_thread s
advance ended s = s

-- The next step of the thread: that of the callback that is to request the stop, or that of its function.
pub turn : Service → Service
unfolding callback_requests advance
turn s = if s.requesting then callback_requests s else advance s.thread s

pub turns : ℕ → Service → Service
unfolding turn
turns zero s = s
turns (suc n) s = turns n (turn s)

-- How many turns the thread has left once run_ is false.
rank : Thread → ℕ
rank absent = 0
rank ended = 0
rank leaving = 1
rank testing = 2
rank polling = 3
rank resting = 3
rank fresh = 3
rank blocked = 4

-- The thread is to end, and run() would return.
pub record Down (s : Service) : Type 0 where
  pub off : s.run ≡ false
  pub free : s.requesting ≡ false
  pub woken : s.thread ≡ blocked → s.io_stopped ≡ true

turn-Down :
    (t : Thread) (s : Service)
    → s.thread ≡ t
    → Down s
    → Down (advance t s) × (rank (advance t s).thread ≤ rank t - 1)
unfolding advance restart_io loop_test poll_returns run_returns leave_thread rank
turn-Down absent s e d = ground arith
turn-Down fresh s e d = ground arith
turn-Down testing s e d = ground arith
turn-Down polling s e d = ground arith
turn-Down blocked s e d = let w = d.woken e in ground arith
turn-Down resting s e d = ground arith
turn-Down leaving s e d = ground arith
turn-Down ended s e d = ground arith

turn-free : (s : Service) → s.requesting ≡ false → turn s ≡ advance s.thread s
unfolding turn
turn-free s e = ap (λ b. if b then callback_requests s else advance s.thread s) e

turn-asked : (s : Service) → s.requesting ≡ true → turn s ≡ callback_requests s
unfolding turn
turn-asked s e = ap (λ b. if b then callback_requests s else advance s.thread s) e

turns-turn : (n : ℕ) (s t : Service) → turn s ≡ t → turns (suc n) s ≡ turns n t
unfolding turns
turns-turn n s t e = ap (turns n) e

turns-end : (n : ℕ) (s : Service) → Down s → rank s.thread ≤ n → rank (turns n s).thread ≡ 0
unfolding turns
turns-end zero s d h = omega (arith, h)
turns-end (suc n) s d h =
    let p = turn-Down s.thread s refl d in
    rw (turns-turn n s (advance s.thread s) (turn-free s d.free))
      (turns-end n (advance s.thread s) p.0 (omega (arith, h, p.1)))

rank-alive : (t : Thread) → rank t ≡ 0 → is_alive t ≡ false
unfolding rank
rank-alive absent e = refl
rank-alive ended e = refl
rank-alive fresh e = ground arith
rank-alive testing e = ground arith
rank-alive polling e = ground arith
rank-alive resting e = ground arith
rank-alive leaving e = ground arith
rank-alive blocked e = ground arith

rank-le : (t : Thread) → rank t ≤ 4
unfolding rank
rank-le absent = omega arith
rank-le ended = omega arith
rank-le fresh = omega arith
rank-le testing = omega arith
rank-le polling = omega arith
rank-le resting = omega arith
rank-le leaving = omega arith
rank-le blocked = omega arith

pub Down-ends : (s : Service) → Down s → is_alive (turns 4 s).thread ≡ false
Down-ends s d = rank-alive (turns 4 s).thread (turns-end 4 s d (rank-le s.thread))

asked-Down : (s : Service) → IsWoken s → Down (callback_requests s)
unfolding callback_requests request_service_stop
asked-Down s w = ground arith

free-Down :
    (s : Service) → Inv s → IsWoken s → 1 ≤ s.restarting + s.joining → s.requesting ≡ false → Down s
free-Down s v w h e = record {
  off = joining-off s v h e;
  free = e;
  woken = λ t. w t (inl (joining-off s v h e));
}

-- A join by a start or a stop returns: while one waits, five turns of the service thread end its function, if
-- no handler runs for ever.
pub join_returns :
    {s : Service} → Reach s → 1 ≤ s.restarting + s.joining → is_alive (turns 5 s).thread ≡ false
join_returns {s} r h = elim (Bool-cases s.requesting) [
  | inl e ↦
      rw (turns-turn 4 s (callback_requests s) (turn-asked s e))
        (Down-ends (callback_requests s) (asked-Down s (Reach-IsWoken r)))
  | inr e ↦ rank-alive (turns 5 s).thread (
      turns-end 5 s (free-Down s (Reach-Inv r) (Reach-IsWoken r) h e)
        (omega (arith, rank-le s.thread)))
]
