-- ===== src/SyncRequests.antt =====
-- src/http.cpp: synchronous requests, and the pool of their contexts. A context is a number; a call of the pool runs
-- alone here, slot after slot, and slot by slot beside other calls in SyncRequests/Concurrent.
pub mod Pool
pub mod Concurrent
mod Tests
use slick_net.Prelude.{
  ℕ, zero, suc, ◌+◌, Bool, true, false, ◌&&◌, List, [], ◌∷◌, Option, none, some, leb, ltb,
}

-- slots_ of sync_context_pool.
abbrev pub Slots : Type 0
Slots = List (Option ℕ)

-- Its sixteen slots, none of which holds a context.
abbrev pub free_slots : ℕ → Slots
free_slots zero = []
free_slots (suc n) = none ∷ free_slots n

-- The first parked context is taken; with none parked, the caller makes one.
pub acquire : Slots → Option ℕ × Slots
acquire [] = (none, [])
acquire (some c ∷ slots) = (some c, none ∷ slots)
acquire (none ∷ slots) = let (found, rest) = acquire slots in (found, none ∷ rest)

-- A context is parked in the first free slot; with none free, it is destroyed.
pub release : ℕ → Slots → Slots
release c [] = []
release c (none ∷ slots) = some c ∷ slots
release c (some d ∷ slots) = some d ∷ release c slots

-- sync_request: the context that the call runs on, `fresh` if none is parked, and the slots after the call.
pub sync_request : ℕ → Slots → ℕ × Slots
unfolding acquire release
sync_request fresh slots = run_on (acquire slots)
  where
    run_on : Option ℕ × Slots → ℕ × Slots
    run_on (none, rest) = (fresh, release fresh rest)
    run_on (some c, rest) = (c, release c rest)
