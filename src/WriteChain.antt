-- ===== src/WriteChain.antt =====
-- include/slick/net/detail/write_chain_gate.hpp, and the part of Websocket::Impl in
-- include/slick/net/detail/websocket_impl.hpp that queues and writes: send, do_write,
-- next_queued_write, maybe_start_queued_write and on_write.
-- A step is one access of the shared flag or queue, in one total order: the sequentially consistent
-- fences of the gate give the accesses that matter such an order. Handlers of the socket's strand run
-- one at a time. w_buffer_ is a first-in-first-out queue here: reserve, the writes of the record and publish are
-- one step, and no record is overrun.
pub mod Invariant
pub mod Delivery
pub mod Progress
pub mod Admitted
pub mod Own
pub mod StoreBuffer
mod Tests
use slick_net.Prelude.{
  ℕ, suc, ◌+◌, ◌-◌, ◌%◌, ◌^◌, ◌≤◌, ◌≡◌, Bool, true, false, List, [], ◌∷◌, ◌++◌, Bytes, ◌==◌, ltb,
  if◌then◌else◌,
}

-- Websocket::Status.
pub data Status : Type 0 where
  connecting connected disconnecting disconnected : Status

abbrev pub is_connected : Status → Bool
is_connected connected = true
is_connected _ = false

-- `status_ > Status::CONNECTED`
abbrev pub is_past_connected : Status → Bool
is_past_connected connecting = false
is_past_connected connected = false
is_past_connected _ = true

-- A record of w_buffer_: the two flag bytes, and the payload.
pub record Frame : Type 0 where
  pub is_binary : Bool
  pub suppress_log : Bool
  pub payload : Bytes

-- Where the strand's running handler stands: in none, behind the read that found the queue empty, in
-- ended_or_reclaimed before the probe, or there before the compare-exchange, with the record that the probe read.
pub data Strand : Type 0 where
  idle drained probing : Strand
  found : Frame → Strand

pub record Chain : Type 0 where
  pub status : Status
  pub queue : List Frame  -- published and behind w_cursor_
  pub running : Bool  -- running_ of the gate
  pub parked : Bool  -- write_parked_
  pub published : ℕ  -- sends that have published and not yet loaded running_
  pub loaded : ℕ  -- sends that have loaded false, before their compare-exchange
  pub claimed : ℕ  -- sends that own the chain and have not yet posted its wakeup
  pub posted : ℕ  -- do_write handlers queued on the strand
  pub writing : ℕ  -- async_write operations under way
  pub strand : Strand
  pub sent : List Frame  -- everything published so far
  pub written : List Frame  -- everything handed to async_write so far
  pub lost : ℕ  -- writes whose onError threw, before abandon
  pub failed : Bool  -- a write failed, and no chain has started since

abbrev pub opening : Chain
opening = record {
  status = connecting;
  queue = [];
  running = false;
  parked = false;
  published = 0;
  loaded = 0;
  claimed = 0;
  posted = 0;
  writing = 0;
  lost = 0;
  strand = idle;
  sent = [];
  written = [];
  failed = false;
}

-- compare_exchange_strong(false, true) on the flag: its new value, and whether it was exchanged.
abbrev pub exchange : Bool → Bool × Bool
exchange true = (true, false)
exchange false = (true, true)

-- reserve, the writes of the record and publish.
unfoldable pub publish : Frame → Chain → Chain
publish r c = record c {
  queue = c.queue ++ r ∷ [];
  sent = c.sent ++ r ∷ [];
  published = c.published + 1;
}

-- The load of claim_after_publish.
unfoldable pub claim_load : Chain → Chain
claim_load c =
    if c.running
    then record c { published = c.published - 1 }
    else record c { published = c.published - 1; loaded = c.loaded + 1 }

-- Its compare-exchange.
unfoldable pub claim_exchange : Chain → Chain
claim_exchange c =
    if (exchange c.running).1
    then record c { loaded = c.loaded - 1; claimed = c.claimed + 1; running = true; failed = false }
    else record c { loaded = c.loaded - 1 }

-- The post of the owner's wakeup.
unfoldable pub post_wakeup : Chain → Chain
post_wakeup c = record c { claimed = c.claimed - 1; posted = c.posted + 1 }

-- async_write of a record.
pub start_write : Frame → Chain → Chain
start_write r c = record c { written = c.written ++ r ∷ []; writing = c.writing + 1 }

-- next_queued_write: a record is read and the cursor moves on, or the queue is found empty.
pub take_next : List Frame → Chain → Chain
unfolding start_write
take_next [] c = record c { strand = drained }
take_next (r ∷ rest) c = start_write r (record c { queue = rest })

unfoldable pub do_write : Chain → Chain
unfolding take_next
do_write c = if is_connected c.status then take_next c.queue c else record c { parked = true }

-- A posted do_write runs.
unfoldable pub run_wakeup : Chain → Chain
unfolding do_write
run_wakeup c = do_write (record c { posted = c.posted - 1 })

-- The store of ended_or_reclaimed.
pub clear_flag : Chain → Chain
clear_flag c = record c { running = false; strand = probing }

-- The probe of ended_or_reclaimed, off a copy of the cursor.
probe_queue : List Frame → Chain → Chain
probe_queue [] c = record c { strand = idle }
probe_queue (r ∷ rest) c = record c { strand = found r }

pub probe : Chain → Chain
unfolding probe_queue
probe c = probe_queue c.queue c

abbrev pub tail : List Frame → List Frame
tail [] = []
tail (r ∷ rest) = rest

-- Its compare-exchange, with the record of the probe; the winner commits the cursor and writes.
pub reclaim : Frame → Chain → Chain
unfolding start_write
reclaim r c =
    if (exchange c.running).1
    then start_write r
        (record c { running = true; failed = false; strand = idle; queue = tail c.queue })
    else record c { strand = idle }

-- on_write without an error.
pub write_done : Chain → Chain
unfolding do_write
write_done c = do_write (record c { writing = c.writing - 1 })

-- on_write with an error: abandon.
pub write_failed : Chain → Chain
write_failed c = record c { writing = c.writing - 1; running = false; failed = true }

-- The same, where on_error_ throws before abandon: the flag stays set with nothing to clear it.
pub write_crashed : Chain → Chain
write_crashed c = record c { writing = c.writing - 1; lost = c.lost + 1; failed = true }

unfoldable pub maybe_start_queued_write : Chain → Chain
maybe_start_queued_write c =
    if c.parked then record c { parked = false; posted = c.posted + 1 } else c

-- What any thread may do next. The status that send read may be stale when it publishes.
pub data Step (c : Chain) : Chain → Type 0 where
  publishes : (r : Frame) → Step c (publish r c)
  loads : 1 ≤ c.published → Step c (claim_load c)
  exchanges : 1 ≤ c.loaded → Step c (claim_exchange c)
  posts : 1 ≤ c.claimed → Step c (post_wakeup c)
  wakes : 1 ≤ c.posted → c.strand ≡ idle → Step c (run_wakeup c)
  clears : c.strand ≡ drained → Step c (clear_flag c)
  probes : c.strand ≡ probing → Step c (probe c)
  reclaims : {r : Frame} → c.strand ≡ found r → Step c (reclaim r c)
  completes : 1 ≤ c.writing → c.strand ≡ idle → Step c (write_done c)
  fails : 1 ≤ c.writing → c.strand ≡ idle → Step c (write_failed c)
  crashes : 1 ≤ c.writing → c.strand ≡ idle → Step c (write_crashed c)
  resumes : c.strand ≡ idle → Step c (maybe_start_queued_write c)
  changes : (s : Status) → Step c (record c { status = s })

pub data Reach : Chain → Type 0 where
  start : Reach opening
  next : {c d : Chain} → Reach c → Step c d → Reach d

-- The checks of send, before anything is queued: a status past CONNECTED and an oversized payload are
-- turned away; otherwise the length of the record, a uint32_t.
pub data Admission : Type 0 where
  not_connected too_long : Admission
  admitted : ℕ → Admission

unfoldable pub admit : Status → ℕ → Admission
admit status len =
    if is_past_connected status
    then not_connected
    else if ltb (2 ^ 32 - 1 - 2) len
    then too_long
    else admitted ((len % 2 ^ 32 + 2) % 2 ^ 32)
