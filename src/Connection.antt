-- ===== src/Connection.antt =====
-- Websocket::Impl as a whole, in include/slick/net/detail/websocket_impl.hpp: a Session and the WriteChain of its
-- sends, which share status_; `send`, on_write with an error and the start of the reads, where they meet; and `send`
-- and send_binary_data of the outer class.
-- The threads that send are beside the strand; on the strand one handler runs at a time.
pub mod Parts
pub mod Upgraded
pub mod Reported
pub mod Forward
mod Tests
use slick_net.Prelude.{
  ◌≤◌, ◌≡◌, Bool, true, false, not, ◌&&◌, List, [], ◌∷◌, ◌++◌, length, Option, none, some, Bytes,
  if◌then◌else◌,
}
use slick_net.WriteChain
use slick_net.WriteChain.{
  Chain, Frame, idle, opening, publish, write_failed, write_crashed, maybe_start_queued_write,
  is_connected, Admission, not_connected, too_long, admitted, admit, publishes, fails, crashes,
  resumes, changes,
}
use slick_net.WriteChain.Own.{is_own}
use slick_net.Session
use slick_net.Session.Moved.{is_reads}
use slick_net.Session.{
  Session, Phase, announced, reading, fresh, mark_pending_open, on_error, calls, close,
  start_reading,
}

pub record Connection : Type 0 where
  pub session : Session
  pub chain : Chain  -- its status is the session's
  pub sending : List Frame  -- of the sends behind their tests, before publish

abbrev pub begun : Session → Connection
begun s = record { session = s; chain = record opening { status = s.status }; sending = [] }

abbrev pub with_session : Session → Connection → Connection
with_session s c = record c { session = s; chain = record c.chain { status = s.status } }

-- The tests of send, with what they turn away.
unfoldable pub send_from : Admission → Frame → Connection → Connection
send_from not_connected r c = c
send_from too_long r c = record c { session = calls on_error c.session }
send_from (admitted n) r c = record c { sending = r ∷ c.sending }

unfoldable pub send_frame : Frame → Connection → Connection
unfolding send_from
send_frame r c = send_from (admit c.session.status (length r.payload)) r c

-- The rest of send, up to claim_after_publish.
unfoldable pub publish_frame : Frame → List Frame → Connection → Connection
publish_frame r rest c = record c { chain = publish r c.chain; sending = rest }

-- on_write with an error; `fatal` tells one that is reported from one of a connection that is closed.
unfoldable pub close_if : Bool → Session → Session
close_if report s = if report && is_connected s.status then close (calls on_error s) else s

unfoldable pub write_breaks : Bool → Bool → Connection → Connection
unfolding close_if
write_breaks running fatal c =
    with_session (close_if (running && fatal) c.session) (record c { chain = write_failed c.chain })

-- The same, where the onError that it reports to throws: neither close nor abandon is called.
unfoldable pub write_throws : Connection → Connection
write_throws c =
    with_session (calls on_error c.session) (record c { chain = write_crashed c.chain })

-- What follows onConnected: the test, maybe_start_queued_write and the first async_read.
unfoldable pub resume_in : Phase → Connection → Connection
resume_in reading c = record c { chain = maybe_start_queued_write c.chain }
resume_in _ c = c

unfoldable pub begin_reading : Connection → Connection
unfolding resume_in
begin_reading c = let s = start_reading c.session in resume_in s.phase (with_session s c)

-- The outer class, whose impl_ may be null.
unfoldable pub send : Bool → Bool → Bytes → Option Connection → Option Connection
unfolding send_frame
send is_binary suppress_log buffer none = none
send is_binary suppress_log buffer (some c) =
    some (
      send_frame (record { is_binary = is_binary; suppress_log = suppress_log; payload = buffer })
        c)

unfoldable pub send_binary_data : Bool → Bytes → Option Connection → Option Connection
unfolding send_frame
send_binary_data suppress_log buffer none = none
send_binary_data suppress_log buffer (some c) =
    some (send_frame (record { is_binary = true; suppress_log = suppress_log; payload = buffer }) c)

pub data Step (c : Connection) : Connection → Type 0 where
  sends : (r : Frame) → Step c (send_frame r c)
  queues :
      (r : Frame) (before after : List Frame)
      → c.sending ≡ before ++ r ∷ after
      → Step c (publish_frame r (before ++ after) c)
  writes :
      {d : Chain} (w : WriteChain.Step c.chain d)
      → is_own w ≡ true
      → Step c (record c { chain = d })
  breaks :
      (running fatal : Bool)
      → 1 ≤ c.chain.writing
      → c.chain.strand ≡ idle
      → Step c (write_breaks running fatal c)
  breaks_off :
      1 ≤ c.chain.writing
      → c.chain.strand ≡ idle
      → is_connected c.session.status ≡ true
      → Step c (write_throws c)
  moves :
      {t : Session} (e : Session.Step c.session t) → is_reads e ≡ false → Step c (with_session t c)
  begins_reading : c.session.phase ≡ announced → c.chain.strand ≡ idle → Step c (begin_reading c)

pub data Reach : Connection → Type 0 where
  direct : Reach (begun fresh)
  pending : Reach (begun (mark_pending_open fresh))
  next : {c d : Connection} → Reach c → Step c d → Reach d
