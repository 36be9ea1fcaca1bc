-- ===== src/Session.antt =====
-- Websocket::Impl in include/slick/net/detail/websocket_impl.hpp: one session of a WebSocket, from open() to the
-- release of its read buffer, with a shared buffer. The queue of its writes is WriteChain.
-- A step is one access of status_ with what follows it up to the next, on any thread; a test of detached_ and the
-- callback that it guards are one step, and so are the callbacks of one handler with the release behind them, unless
-- one of them throws. `running` is what websocket_running() returns, and `fatal` tells an error
-- that is reported from one of a connection that is closed.
pub mod Held
pub mod Handoff
pub mod Callbacks
pub mod Kept
pub mod Opened
pub mod Ordered
pub mod Lifecycle
pub mod Moved
pub mod Forward
mod Tests
use slick_net.Prelude.{
  ℕ, ◌+◌, ◌-◌, ◌≤◌, ◌≡◌, Bool, true, false, not, ◌&&◌, ◌||◌, List, [], ◌∷◌, ◌++◌, Bytes,
  if◌then◌else◌,
}
use slick_net.WriteChain.{
  Status, connecting, connected, disconnecting, disconnected, is_connected, is_past_connected,
}

pub data Event : Type 0 where
  on_connected on_error on_disconnected : Event
  on_data : Bytes → Event

-- ReleaseState
pub data Release : Type 0 where
  active callback_set released : Release

-- Where the session stands: open() not called; the coroutine before its first test, in the handshake, before the
-- exchange for CONNECTED, and behind onConnected; its completion handler to run, after an exception or not; a read
-- under way; on_read before its store of DISCONNECTED; done; and ended by a callback that threw out of the handler,
-- which has not released the buffer.
pub data Phase : Type 0 where
  unopened checking handshaking upgrading announced reading dropping finished stuck : Phase
  completing : Bool → Phase

pub record Session : Type 0 where
  pub status : Status
  pub session_started : Bool
  pub open_cancelled : Bool
  pub detached : Bool
  pub release : Release
  pub listening : Bool  -- on_buffer_released_ is set
  pub handoffs : ℕ  -- the calls of on_buffer_released_
  pub phase : Phase
  pub closing : ℕ  -- async_close operations posted or under way
  pub log : List Event

-- A session that open() starts at once, and one that waits for the buffer of another.
abbrev pub fresh : Session
fresh = record {
  status = disconnected;
  session_started = false;
  open_cancelled = false;
  detached = false;
  release = active;
  listening = false;
  handoffs = 0;
  phase = unopened;
  closing = 0;
  log = [];
}

abbrev pub mark_pending_open : Session → Session
mark_pending_open s = record s { status = connecting }

abbrev pub is_connecting : Status → Bool
is_connecting connecting = true
is_connecting _ = false

-- A callback, unless the session is detached.
abbrev pub calls : Event → Session → Session
calls e s = record s { log = if s.detached then s.log else s.log ++ e ∷ [] }

-- compare_exchange_strong(CONNECTING, DISCONNECTED) on status_
abbrev given_up : Status → Status
given_up connecting = disconnected
given_up st = st

-- release_buffer.
unfoldable pub release_from : Release → Session → Session
release_from callback_set s = record s { release = released; handoffs = s.handoffs + 1 }
release_from _ s = record s { release = released }

unfoldable pub release_buffer : Session → Session
unfolding release_from
release_buffer s = release_from s.release s

-- set_on_buffer_released.
unfoldable pub listen_from : Release → Session → Session
listen_from active s = record s { release = callback_set; listening = true }
listen_from _ s = record s { listening = true; handoffs = s.handoffs + 1 }

unfoldable pub set_on_buffer_released : Session → Session
unfolding listen_from
set_on_buffer_released s = listen_from s.release s

-- The exchange at the head of open(), and the spawn of the coroutine.
unfoldable pub open_from : Status → Session → Session
open_from disconnected s = record s {
  status = connecting;
  session_started = true;
  phase = checking;
}
open_from connecting s =
    if s.session_started then s else record s { session_started = true; phase = checking }
open_from _ s = s

unfoldable pub open_session : Session → Session
unfolding release_buffer open_from
open_session s =
    if s.open_cancelled || s.detached
    then release_buffer (record s { status = given_up s.status; phase = finished })
    else open_from s.status s

-- The first test of do_ws_session_ssl and do_ws_session_plain.
unfoldable pub begin_session : Session → Session
begin_session s =
    if not (is_connecting s.status) || (s.open_cancelled || s.detached)
    then record s { status = given_up s.status; phase = completing false }
    else record s { phase = handshaking }

-- An exception out of resolving, connecting or the handshakes; `closed` ends the coroutine without one.
pub handshake_fails : Bool → Session → Session
handshake_fails closed s = record s { phase = completing (not closed) }

-- The test behind the handshakes.
unfoldable pub handshake_done : Bool → Session → Session
handshake_done running s =
    if not running || (s.open_cancelled || s.detached)
    then record s { status = given_up s.status; phase = completing false }
    else record s { phase = upgrading }

-- The exchange of CONNECTING for CONNECTED, and onConnected.
unfoldable pub upgrade : Session → Session
upgrade s =
    if is_connecting s.status
    then calls on_connected (record s { status = connected; phase = announced })
    else record s { phase = completing false }

-- The test behind onConnected, and the first async_read. The completion handler then does nothing.
unfoldable pub start_reading : Session → Session
start_reading s =
    if not (is_connected s.status) || s.detached
    then record s { phase = completing false }
    else record s { phase = reading }

abbrev is_disconnecting : Status → Bool
is_disconnecting disconnecting = true
is_disconnecting _ = false

-- The completion handler of a coroutine that started no read.
unfoldable pub completed : Bool → Bool → Bool → Session → Session
completed true false true s = calls on_disconnected (calls on_error s)
completed true true true s = calls on_disconnected s
completed true true false s = calls on_disconnected s
completed _ _ _ s = s

unfoldable pub complete : Bool → Bool → Session → Session
unfolding release_buffer completed
complete failed running s = release_buffer (
    completed running (is_disconnecting s.status) failed
      (record s { status = disconnected; phase = finished }))

-- close(): the exchange for DISCONNECTING, and the post of async_close for a session that was CONNECTED. For one
-- that was CONNECTING it closes the socket, and the step under way fails.
unfoldable pub close_from : Status → Session → Session
close_from connecting s = record s { status = disconnecting }
close_from connected s = record s { status = disconnecting; closing = s.closing + 1 }
close_from _ s = s

unfoldable pub close : Session → Session
unfolding close_from
close s = close_from s.status s

-- on_read with an error.
unfoldable pub read_failed : Bool → Bool → Session → Session
unfolding close release_buffer
read_failed running fatal s =
    if is_connected s.status
    then if running && fatal
      then release_buffer (close (calls on_error (record s { phase = finished })))
      else record s { phase = dropping }
    else release_buffer (record s { phase = finished })

-- Its store of DISCONNECTED, and what follows.
pub drop_connection : Session → Session
unfolding release_buffer
drop_connection s =
    release_buffer (calls on_disconnected (record s { status = disconnected; phase = finished }))

-- on_read without one.
pub read_done : Bool → Bytes → Session → Session
unfolding release_buffer
read_done running d s =
    if running && (is_connected s.status && not s.detached)
    then calls (on_data d) s
    else release_buffer (record s { phase = finished })

-- on_close.
pub close_done : Bool → Session → Session
close_done reported s =
    let t = if reported then calls on_error s else s in
    calls on_disconnected (record t { status = disconnected; closing = t.closing - 1 })

-- on_close, where the onError that it reports to throws.
pub close_throws : Session → Session
close_throws s = record s { closing = s.closing - 1; log = (calls on_error s).log }

-- A handler whose callback `e` throws, behind an onError that did not or without one: what follows it in the handler,
-- the release of the buffer among it, is not done.
pub stop_at : Bool → Event → Status → Session → Session
stop_at errs e st s = record s {
  status = st;
  phase = stuck;
  log = (calls e (if errs then calls on_error s else s)).log;
}

-- Where it may throw: in the completion handler, in on_read with an error, and in on_read without one; with what it
-- has stored in status_ before.
pub data Stops (s : Session) : Bool → Event → Status → Type 0 where
  completion_error :
      s.phase ≡ completing true
      → is_disconnecting s.status ≡ false
      → Stops s false on_error disconnected
  completion_end :
      s.phase ≡ completing true
      → is_disconnecting s.status ≡ false
      → Stops s true on_disconnected disconnected
  completion_closed :
      {failed : Bool}
      → s.phase ≡ completing failed
      → is_disconnecting s.status ≡ true
      → Stops s false on_disconnected disconnected
  read_error : s.phase ≡ reading → is_connected s.status ≡ true → Stops s false on_error s.status
  drop_end : s.phase ≡ dropping → Stops s false on_disconnected disconnected
  data_in :
      (d : Bytes)
      → s.phase ≡ reading
      → is_connected s.status ≡ true
      → Stops s false (on_data d) s.status

unfoldable pub detach : Session → Session
detach s = record s { detached = true }

unfoldable pub cancel_open : Session → Session
cancel_open s = record s { open_cancelled = true }

pub data Step (s : Session) : Session → Type 0 where
  opens : s.phase ≡ unopened → Step s (open_session s)
  begins : s.phase ≡ checking → Step s (begin_session s)
  fails : (closed : Bool) → s.phase ≡ handshaking → Step s (handshake_fails closed s)
  upgrades_to : (running : Bool) → s.phase ≡ handshaking → Step s (handshake_done running s)
  upgrades : s.phase ≡ upgrading → Step s (upgrade s)
  throws : s.phase ≡ announced → Step s (handshake_fails false s)
  reads : s.phase ≡ announced → Step s (start_reading s)
  completes :
      {failed : Bool} (running : Bool)
      → s.phase ≡ completing failed
      → Step s (complete failed running s)
  read_fails : (running fatal : Bool) → s.phase ≡ reading → Step s (read_failed running fatal s)
  drops : s.phase ≡ dropping → Step s (drop_connection s)
  read_dones : (running : Bool) (d : Bytes) → s.phase ≡ reading → Step s (read_done running d s)
  closes : s.session_started ≡ true → Step s (close s)
  close_dones : (reported : Bool) → 1 ≤ s.closing → Step s (close_done reported s)
  close_errors : 1 ≤ s.closing → Step s (close_throws s)
  stops_at :
      {errs : Bool} {e : Event} {st : Status} → Stops s errs e st → Step s (stop_at errs e st s)
  detaches : Step s (detach s)
  cancels : Step s (cancel_open s)
  listens : s.listening ≡ false → Step s (set_on_buffer_released s)

pub data Reach : Session → Type 0 where
  direct : Reach fresh
  pending : Reach (mark_pending_open fresh)
  next : {s t : Session} → Reach s → Step s t → Reach t
