-- ===== src/Websocket.antt =====
-- The outer class Websocket in include/slick/net/detail/websocket_impl.hpp: the sessions that one object opens one
-- after the other, each of which is a Session. Its calls come one at a time, from any thread, and each runs in
-- the steps of `Doing`; between them the threads of the service work on the sessions.
-- `shared` is is_shared_buffer<BufferT>: whether the sessions read into one buffer.
pub mod Sessions
pub mod Order
pub mod Invariant
pub mod Sharing
mod Tests
use slick_net.Prelude.{ℕ, ◌≤◌, ◌≡◌, Bool, true, false, not, List, [], ◌∷◌, if◌then◌else◌}
use slick_net.WriteChain.{Status, connecting, disconnected, is_connected}
use slick_net.Session.{
  Session, unopened, fresh, mark_pending_open, is_connecting, set_on_buffer_released, open_session,
  close, detach, cancel_open,
}

-- The rest of the call under way: of open(), behind its test for CONNECTED, and then with the old session to be
-- detached, closed and replaced; of close(), before cancel_open; and of the destructor, which ends in destroyed.
pub data Doing : Type 0 where
  idle testing detaching_old closing_old replacing cancelling : Doing
  cancelling_last closing_last destroyed : Doing

-- impl_ is the first session; the others are those it replaced, the newest first. A null impl_ is the empty list.
pub record Websocket : Type 0 where
  pub impls : List Session
  pub doing : Doing

abbrev pub constructed : Websocket
constructed = record { impls = []; doing = idle }

-- An operation on impl_.
abbrev pub on_impl : (Session → Session) → List Session → List Session
on_impl f [] = []
on_impl f (s ∷ l) = f s ∷ l

pub status_of : List Session → Status
status_of [] = disconnected
status_of (s ∷ l) = s.status

pub status : Websocket → Status
unfolding status_of
status w = status_of w.impls

-- open(), up to its test for CONNECTED.
begin_open_from : List Session → Websocket → Websocket
begin_open_from [] w = record w { impls = open_session fresh ∷ [] }
begin_open_from (s ∷ l) w =
    if s.session_started
    then if is_connected s.status then w else record w { doing = testing }
    else if s.open_cancelled
    then record w { doing = detaching_old }
    else w

pub begin_open : Websocket → Websocket
unfolding begin_open_from
begin_open w = begin_open_from w.impls w

-- Its test for CONNECTING, which loads the status again.
pub test_connecting : Websocket → Websocket
unfolding status
test_connecting w =
    if is_connecting (status w)
    then record w { doing = idle }
    else record w { doing = detaching_old }

pub detach_old : Websocket → Websocket
detach_old w = record w { impls = on_impl detach w.impls; doing = closing_old }

abbrev pub close_started : Session → Session
close_started s = if s.session_started then close s else s

pub close_old : Websocket → Websocket
close_old w = record w { impls = on_impl close_started w.impls; doing = replacing }

-- A new session for a shared buffer waits for the old one; one with a buffer of its own is opened at once.
pub replaced : Bool → List Session → List Session
replaced shared [] = []
replaced true (s ∷ l) = mark_pending_open fresh ∷ set_on_buffer_released s ∷ l
replaced false (s ∷ l) = open_session fresh ∷ s ∷ l

pub replace : Bool → Websocket → Websocket
unfolding replaced
replace shared w = record w { impls = replaced shared w.impls; doing = idle }

-- close(): the test of session_started, and what follows it in one step where it holds, since it then stays so.
begin_close_from : List Session → Websocket → Websocket
begin_close_from [] w = w
begin_close_from (s ∷ l) w =
    if s.session_started then record w { impls = close s ∷ l } else record w { doing = cancelling }

pub begin_close : Websocket → Websocket
unfolding begin_close_from
begin_close w = begin_close_from w.impls w

pub cancel_impl : Websocket → Websocket
cancel_impl w = record w { impls = on_impl cancel_open w.impls; doing = idle }

pub detach_impl : Websocket → Websocket
detach_impl w = record w { impls = on_impl detach w.impls }

-- The destructor.
pub begin_destroy : Websocket → Websocket
begin_destroy w = record w { impls = on_impl detach w.impls; doing = cancelling_last }

pub cancel_last : Websocket → Websocket
cancel_last w = record w { impls = on_impl cancel_open w.impls; doing = closing_last }

pub close_last : Websocket → Websocket
close_last w = record w { impls = on_impl close_started w.impls; doing = destroyed }
