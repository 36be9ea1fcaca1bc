-- ===== src/Service/Owners.antt =====
-- The owners of the service thread, and the starts and stops that keep their number.
use slick_net.Prelude.{ℕ, ◌+◌, ◌≤◌, ◌≡◌, Bool, true, false, refl, ◌⊎◌, arith}
use slick_net.Service.{
  Service, Place, stopped, starting, running, stop_requested, stopping, Thread, absent, fresh,
  testing, polling, blocked, resting, leaving, ended, is_alive, is_serving, at_load, start_from,
  stop_from, request_service_stop, callback_requests, owner_requests, stop_joins, start_joins,
}

abbrev pub is_absent : Thread → Bool
is_absent absent = true
is_absent _ = false

-- Not on its way out.
abbrev pub is_looping : Thread → Bool
is_looping absent = false
is_looping leaving = false
is_looping ended = false
is_looping _ = true

-- How many threads have won the state: one in an owned state.
abbrev pub held : Place → ℕ
held starting = 1
held stopping = 1
held _ = 0

abbrev pub is_starting : Place → Bool
is_starting starting = true
is_starting _ = false

abbrev pub is_stopped : Place → Bool
is_stopped stopped = true
is_stopped _ = false

abbrev pub is_running : Place → Bool
is_running running = true
is_running _ = false

abbrev pub owners : Service → ℕ
owners s = s.restarting + s.creating + s.publishing + s.claimed + s.joining

pub record Inv (s : Service) : Type 0 where
  pub owned : owners s ≡ held s.state
  pub starts_one : is_starting s.state ≡ true → s.creating + s.publishing ≡ 1
  pub starts_only : 1 ≤ s.creating + s.publishing → is_starting s.state ≡ true
  pub stopped_absent : is_stopped s.state ≡ true → is_absent s.thread ≡ true
  pub creating_absent : 1 ≤ s.creating → is_absent s.thread ≡ true
  pub created :
      is_starting s.state ≡ false → is_stopped s.state ≡ false → is_absent s.thread ≡ false
  pub published : 1 ≤ s.publishing → is_absent s.thread ≡ false
  pub from_thread : s.requesting ≡ true → is_serving s.thread ≡ true
  pub asked : 1 ≤ s.joining → s.run ≡ false
  pub asking :
      s.run ≡ true
      → s.requesting ≡ false
      → (is_running s.state ≡ true) ⊎ (1 ≤ s.publishing + s.claimed)
  pub serves : is_running s.state ≡ true → (s.run ≡ true) × (s.requesting ≡ false)
  pub serves_first : 1 ≤ s.publishing → (s.run ≡ true) × (s.requesting ≡ false)
  pub lasts : s.run ≡ true → is_looping s.thread ≡ true

pub at_load-Inv : Inv at_load
at_load-Inv = ground arith

pub start_from-Inv :
    (p : Place) (on : Bool) (s : Service) → s.state ≡ p → Inv s → Inv (start_from p on s)
unfolding start_from
start_from-Inv running on s e v = v
start_from-Inv starting on s e v = v
start_from-Inv stopping on s e v = v
start_from-Inv stopped true s e v = v
start_from-Inv stopped false s e v = ground arith
start_from-Inv stop_requested true s e v = v
start_from-Inv stop_requested false s e v = ground arith

pub stop_from-Inv :
    (p : Place) (on : Bool) (s : Service)
    → s.state ≡ p
    → (on ≡ true → is_serving s.thread ≡ true)
    → Inv s
    → Inv (stop_from p on s)
unfolding stop_from
stop_from-Inv stopped on s e t v = v
stop_from-Inv starting on s e t v = v
stop_from-Inv running true s e t v = ground arith
stop_from-Inv stop_requested true s e t v = ground arith
stop_from-Inv stopping true s e t v = ground arith
stop_from-Inv stopping false s e t v = v
stop_from-Inv running false s e t v = ground arith
stop_from-Inv stop_requested false s e t v = ground arith

pub request-Inv : (s : Service) → Inv s → s.requesting ≡ true → Inv (callback_requests s)
unfolding callback_requests request_service_stop
request-Inv s v r = ground arith

pub owner_requests-Inv : (s : Service) → Inv s → 1 ≤ s.claimed → Inv (owner_requests s)
unfolding owner_requests request_service_stop
owner_requests-Inv s v h = ground arith

-- A thread that has returned neither serves nor loops.
at_rest : (t : Thread) → is_alive t ≡ false → (is_serving t ≡ false) × (is_looping t ≡ false)
at_rest absent e = (refl, refl)
at_rest ended e = (refl, refl)
at_rest fresh e = ground arith
at_rest testing e = ground arith
at_rest polling e = ground arith
at_rest blocked e = ground arith
at_rest resting e = ground arith
at_rest leaving e = ground arith

pub stop_joins-Inv :
    (s : Service) → Inv s → 1 ≤ s.joining → is_alive s.thread ≡ false → Inv (stop_joins s)
unfolding stop_joins
stop_joins-Inv s v h e = let r = at_rest s.thread e in ground arith

pub start_joins-Inv :
    (s : Service) → Inv s → 1 ≤ s.restarting → is_alive s.thread ≡ false → Inv (start_joins s)
unfolding start_joins
start_joins-Inv s v h e = let r = at_rest s.thread e in ground arith

pub absent_idle : (t : Thread) → is_absent t ≡ true → is_serving t ≡ false
absent_idle absent e = refl
absent_idle fresh e = refl
absent_idle testing e = refl
absent_idle polling e = ground arith
absent_idle blocked e = ground arith
absent_idle resting e = refl
absent_idle leaving e = refl
absent_idle ended e = refl
