-- ===== src/HttpStream/Word.antt =====
-- HttpStream::state_: the generation above the status in the lowest two bits of a uint64_t, and what the
-- compare-exchange loops store for a value that they have loaded.
use slick_net.Prelude.{
  ℕ, ◌+◌, ◌*◌, ◌/◌, ◌%◌, ◌^◌, ◌<◌, ◌≡◌, Bool, not, ◌&&◌, ◌||◌, Option, none, some, arith, ◌==◌,
  if◌then◌else◌,
}

-- HttpStream::Status, by its underlying values.
abbrev pub connecting : ℕ
connecting = 0

abbrev pub connected : ℕ
connected = 1

abbrev pub disconnected : ℕ
disconnected = 2

-- `(generation << 2) | status`: the shifted generation has no bit in common with the status.
unfoldable pub make_state : ℕ → ℕ → ℕ
make_state generation status = generation * 4 % 2 ^ 64 + status

unfoldable pub generation_of : ℕ → ℕ
generation_of state = state / 4

unfoldable pub status_of : ℕ → ℕ
status_of state = state % 4

abbrev pub any_generation : ℕ
any_generation = 0

-- The loop of open(): nothing to store when the stream is open already.
unfoldable pub open_attempt : ℕ → Option ℕ
unfolding make_state generation_of status_of
open_attempt state =
    if not (status_of state == disconnected)
    then none
    else some (make_state ((generation_of state + 1) % 2 ^ 64) connecting)

-- The loop of end_generation.
unfoldable pub end_attempt : ℕ → ℕ → Option ℕ
unfolding make_state generation_of status_of
end_attempt generation state =
    if status_of state == disconnected
      || (not (generation == any_generation) && not (generation_of state == generation))
    then none
    else some (make_state (generation_of state) disconnected)

-- The one compare-exchange of stream_response.
unfoldable pub connect_attempt : ℕ → ℕ → Option ℕ
unfolding make_state
connect_attempt generation state =
    if state == make_state generation connecting
    then some (make_state generation connected)
    else none

unfoldable pub is_current : ℕ → ℕ → Bool
unfolding generation_of status_of
is_current generation state =
    generation_of state == generation && not (status_of state == disconnected)

-- The parts are read back, for every generation that fits.
pub make_state-parts :
    (g s : ℕ)
    → g < 2 ^ 62
    → s < 4
    → (generation_of (make_state g s) ≡ g)
      × (status_of (make_state g s) ≡ s)
      × (make_state g s < 2 ^ 64)
unfolding make_state generation_of status_of
make_state-parts g s h k = omega arith
