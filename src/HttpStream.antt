-- ===== src/HttpStream.antt =====
-- src/http_stream.cpp: one HttpStream, its generations and its sessions.
-- `open` and `close` run on any thread, the sessions on the stream's strand. A step is one atomic access
-- of state_, or a stretch of a session between two of them; a check of state_ and the callback that it
-- guards are one step, so a callback counts as running from its check on. A callback may throw a
-- std::exception at any of its calls; `foreign` tells whether one may throw anything else, which ends
-- serve_sessions().
pub mod Word
pub mod Trace
pub mod Invariant
pub mod Watched
pub mod Sessions
pub mod Callbacks
mod Tests
use slick_net.Prelude.{
  ℕ, zero, suc, ◌+◌, ◌-◌, ◌^◌, ◌≤◌, ◌<◌, ◌≡◌, Bool, true, false, not, ◌&&◌, ◌||◌, List, [], ◌∷◌,
  ◌++◌, Option, none, some, Bytes, ◌==◌, if◌then◌else◌,
}
use slick_net.Sse.{Parser, initial, reset, feed}
use Word.{
  connecting, connected, disconnected, any_generation, make_state, generation_of, status_of,
  open_attempt, end_attempt, connect_attempt, is_current,
}

-- A call of one of the stream's callbacks, with the generation whose session makes it; of onError
-- also whether it throws to run_session.
pub data Event : Type 0 where
  on_connected : ℕ → Event
  on_data : ℕ → Bytes → Event
  on_error : ℕ → Bool → Event
  on_disconnected : ℕ → Event

-- Where serve_sessions() stands: not running; about to load state_; in the loop that skips the
-- generations before the newest; or in the session of a generation, before CONNECTED, reading, with
-- decoded events to deliver, behind an onError that threw, about to end its generation, and about to call
-- onDisconnected.
pub data Phase : Type 0 where
  off looping : Phase
  skipping awaiting reading failing ending parting : ℕ → Phase
  delivering : ℕ → List Bytes → Phase

pub record Stream : Type 0 where
  pub word : ℕ  -- state_
  pub opening : ℕ  -- calls of open() behind the exchange and before the post
  pub posts : ℕ  -- serve() handlers queued on the strand
  pub serving : Bool
  pub served : ℕ  -- served_generation_
  pub phase : Phase
  pub is_sse : Bool
  pub parser : Parser
  pub opened : ℕ  -- the calls of open() that started a session
  pub log : List Event  -- the callbacks so far

abbrev pub fresh : Stream
fresh = record {
  word = disconnected;
  opening = 0;
  posts = 0;
  serving = false;
  served = 0;
  phase = off;
  is_sse = false;
  parser = initial;
  opened = 0;
  log = [];
}

abbrev pub calls : Event → Stream → Stream
calls e s = record s { log = s.log ++ e ∷ [] }

abbrev stored : Stream → Option ℕ → Stream
stored s none = s
stored s (some w) = record s { word = w }

-- open(): the compare-exchange that starts a generation.
opened_by : Stream → Option ℕ → Stream
opened_by s none = s
opened_by s (some w) = record s { word = w; opened = s.opened + 1; opening = s.opening + 1 }

pub open_stream : Stream → Stream
unfolding opened_by
open_stream s = opened_by s (open_attempt s.word)

-- Its post of serve().
pub post_serve : Stream → Stream
post_serve s = record s { opening = s.opening - 1; posts = s.posts + 1 }

-- close(): end_generation(any_generation). The cancellation that it posts only makes the session's
-- pending step fail.
pub close : Stream → Stream
close s = stored s (end_attempt any_generation s.word)

pub serve : Stream → Stream
serve s =
    if s.serving || generation_of s.word == s.served
    then record s { posts = s.posts - 1 }
    else record s { posts = s.posts - 1; serving = true; phase = looping }

-- The head of the loop of serve_sessions().
pub next_session : Stream → Stream
next_session s =
    if generation_of s.word == s.served
    then record s { serving = false; phase = off }
    else record s { phase = skipping (generation_of s.word) }

-- `while (++served_generation_ != generation) invoke_logged("onDisconnected", ...)`
pub skip_one : ℕ → Stream → Stream
skip_one g s =
    let next = record s { served = s.served + 1 } in
    if s.served + 1 == g
    then record next { phase = awaiting g }
    else calls (on_disconnected (s.served + 1)) next

-- run_session's handler: an exception is reported only while the generation is open.
pub session_throws : ℕ → Stream → Stream
session_throws g s =
    if is_current g s.word
    then calls (on_error g false) (record s { phase = ending g })
    else record s { phase = ending g }

-- An onError of the session itself, which may throw: run_session's handler is then next.
abbrev pub report_error : ℕ → Bool → Stream → Stream
report_error g threw s =
    calls (on_error g threw) (record s { phase = if threw then failing g else ending g })

-- A response other than 200: throw_if_closed(generation) comes first.
pub session_rejected : ℕ → Bool → Stream → Stream
unfolding session_throws
session_rejected g threw s =
    if is_current g s.word then report_error g threw s else session_throws g s

-- A 200 response: the exchange of CONNECTING for CONNECTED, onConnected, and a parser without the data of
-- an earlier body.
connected_by : ℕ → Bool → Stream → Option ℕ → Stream
connected_by g is_sse s none = record s { phase = ending g }
connected_by g is_sse s (some w) =
    calls (on_connected g)
      (record s { word = w; phase = delivering g []; is_sse = is_sse; parser = reset s.parser })

pub session_connects : ℕ → Bool → Stream → Stream
unfolding connected_by
session_connects g is_sse s = connected_by g is_sse s (connect_attempt g s.word)

-- A read that decoded `bytes`: dropped once the generation has ended, otherwise to be delivered as the
-- events of the stream, or delivered as they are; nothing is delivered of a read that decoded nothing.
receive : ℕ → Bytes → Stream → Stream
receive g [] s = record s { phase = delivering g [] }
receive g (b ∷ bs) s =
    if s.is_sse
    then record s {
      parser = (feed s.parser (b ∷ bs)).0;
      phase = delivering g (feed s.parser (b ∷ bs)).1;
    }
    else calls (on_data g (b ∷ bs)) (record s { phase = delivering g [] })

pub session_reads : ℕ → Bytes → Stream → Stream
unfolding receive
session_reads g bytes s =
    if is_current g s.word then receive g bytes s else record s { phase = ending g }

-- deliver_event.
pub deliver_event : ℕ → Bytes → List Bytes → Stream → Stream
deliver_event g d ds s =
    if is_current g s.word
    then calls (on_data g d) (record s { phase = delivering g ds })
    else record s { phase = delivering g ds }

-- The end of a turn of the read loop, and the test before the next: the read went well, the message is
-- done, or the read failed, with an onError that throws or does not.
pub data Verdict : Type 0 where
  more done : Verdict
  broken : Bool → Verdict

pub turn_ends : ℕ → Verdict → Stream → Stream
turn_ends g more s =
    if is_current g s.word then record s { phase = reading g } else record s { phase = ending g }
turn_ends g done s = record s { phase = ending g }
turn_ends g (broken threw) s =
    if is_current g s.word then report_error g threw s else record s { phase = ending g }

-- The rest of run_session.
pub end_session : ℕ → Stream → Stream
end_session g s = record (stored s (end_attempt g s.word)) { phase = parting g }

pub part : ℕ → Stream → Stream
part g s = calls (on_disconnected g) (record s { phase = looping })

-- A callback throws what is no std::exception: the handler that serve() gave to co_spawn clears serving_.
pub crash : Stream → Stream
crash s = record s { serving = false; phase = off }

-- Fewer generations than a uint64_t with two bits of status holds.
abbrev pub max_opened : ℕ
max_opened = 2 ^ 62 - 1

-- A callback of the session itself has been called: onConnected or onData, or an onError that threw.
abbrev pub may_crash : Phase → Bool
may_crash (delivering g ds) = true
may_crash (failing g) = true
may_crash _ = false

pub data Step (foreign : Bool) (s : Stream) : Stream → Type 0 where
  opens : s.opened < max_opened → Step foreign s (open_stream s)
  enqueues : 1 ≤ s.opening → Step foreign s (post_serve s)
  closes : Step foreign s (close s)
  serves : 1 ≤ s.posts → Step foreign s (serve s)
  loops : s.phase ≡ looping → Step foreign s (next_session s)
  skips : {g : ℕ} → s.phase ≡ skipping g → Step foreign s (skip_one g s)
  throws : {g : ℕ} → s.phase ≡ awaiting g → Step foreign s (session_throws g s)
  rejects :
      {g : ℕ} (threw : Bool) → s.phase ≡ awaiting g → Step foreign s (session_rejected g threw s)
  rethrows : {g : ℕ} → s.phase ≡ failing g → Step foreign s (session_throws g s)
  connects :
      {g : ℕ} (is_sse : Bool) → s.phase ≡ awaiting g → Step foreign s (session_connects g is_sse s)
  reads : {g : ℕ} (bytes : Bytes) → s.phase ≡ reading g → Step foreign s (session_reads g bytes s)
  delivers :
      {g : ℕ} {d : Bytes} {ds : List Bytes}
      → s.phase ≡ delivering g (d ∷ ds)
      → Step foreign s (deliver_event g d ds s)
  throws_delivering :
      {g : ℕ} {ds : List Bytes} → s.phase ≡ delivering g ds → Step foreign s (session_throws g s)
  turns : {g : ℕ} (v : Verdict) → s.phase ≡ delivering g [] → Step foreign s (turn_ends g v s)
  ends : {g : ℕ} → s.phase ≡ ending g → Step foreign s (end_session g s)
  crashes : foreign ≡ true → may_crash s.phase ≡ true → Step foreign s (crash s)
  parts : {g : ℕ} → s.phase ≡ parting g → Step foreign s (part g s)

pub data Reach (foreign : Bool) : Stream → Type 0 where
  start : Reach foreign fresh
  next : {s t : Stream} → Reach foreign s → Step foreign s t → Reach foreign t
