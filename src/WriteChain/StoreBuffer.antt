-- ===== src/WriteChain/StoreBuffer.antt =====
-- write_chain_gate in include/slick/net/detail/write_chain_gate.hpp on hardware with store buffers, of which its
-- comment speaks: a store waits in the buffer of its thread while the loads behind it already read memory, and a
-- fence or a compare-exchange waits for that buffer. `fenced` tells whether the two fences are there. Records are
-- counted; they may become visible out of order, so a read may find none while a publish before it is buffered.
pub mod Fenced
mod Tests
use slick_net.Prelude.{ℕ, ◌+◌, ◌-◌, ◌≤◌, ◌≡◌, refl, Bool, true, false, ◌==◌, if◌then◌else◌, arith}

-- The strand: no chain; a chain that writes; the store of false in its buffer, and with the probe made before that
-- store is in memory; the store in memory, before the probe; the probe has found a record; and, behind a write that
-- failed, the store of abandon in its buffer, or an onError that threw before it.
pub data Consumer : Type 0 where
  resting draining clearing ending probing reclaiming abandoning lost : Consumer

-- Producers are counted at each point of publish and claim_after_publish.
pub record Memory : Type 0 where
  pub queue : ℕ  -- records in memory that were not read
  pub running : Bool
  pub abandoned : Bool  -- abandon ended a chain, and none has started since
  pub consumer : Consumer
  pub buffered : ℕ  -- the publish is in the buffer, before the load
  pub published : ℕ  -- it is in memory, before the load
  pub skipped : ℕ  -- it is in the buffer, behind a load of true
  pub early : ℕ  -- it is in the buffer, behind a load of false
  pub loaded : ℕ  -- it is in memory, behind a load of false
  pub owners : ℕ  -- wakeups that were posted, or are about to be

abbrev pub at_rest : Memory
at_rest = record {
  queue = 0;
  running = false;
  abandoned = false;
  consumer = resting;
  buffered = 0;
  published = 0;
  skipped = 0;
  early = 0;
  loaded = 0;
  owners = 0;
}

-- publish.
abbrev pub issue : Memory → Memory
issue s = record s { buffered = s.buffered + 1 }

abbrev pub flush : Memory → Memory
flush s = record s { buffered = s.buffered - 1; published = s.published + 1; queue = s.queue + 1 }

-- The load of claim_after_publish.
pub load_flag : Memory → Memory
load_flag s =
    if s.running
    then record s { published = s.published - 1 }
    else record s { published = s.published - 1; loaded = s.loaded + 1 }

-- The same, while the publish is still in the buffer, and the publishes that reach memory after it.
pub load_early : Memory → Memory
load_early s =
    if s.running
    then record s { buffered = s.buffered - 1; skipped = s.skipped + 1 }
    else record s { buffered = s.buffered - 1; early = s.early + 1 }

abbrev flush_skipped : Memory → Memory
flush_skipped s = record s { skipped = s.skipped - 1; queue = s.queue + 1 }

abbrev flush_early : Memory → Memory
flush_early s = record s { early = s.early - 1; loaded = s.loaded + 1; queue = s.queue + 1 }

-- Its compare-exchange.
pub claim : Memory → Memory
claim s = if s.running then record s { loaded = s.loaded - 1 } else record s {
  loaded = s.loaded - 1;
  running = true;
  abandoned = false;
  owners = s.owners + 1;
}

-- A posted wakeup runs, and the chain reads records.
abbrev pub wake : Memory → Memory
wake s = record s { owners = s.owners - 1; consumer = draining }

abbrev pub read_record : Memory → Memory
read_record s = record s { queue = s.queue - 1 }

-- ended_or_reclaimed: the store, its way to memory, the probe, and the compare-exchange.
abbrev pub store_false : Memory → Memory
store_false s = record s { consumer = clearing }

pub clear_running : Memory → Memory
clear_running s = record s { running = false; consumer = probing }

pub end_late : Memory → Memory
end_late s = record s { running = false; consumer = resting }

pub probe_again : Bool → Memory → Memory
probe_again found s = record s { consumer = if found then reclaiming else resting }

pub reclaim_chain : Memory → Memory
reclaim_chain s =
    if s.running
    then record s { consumer = resting }
    else record s { running = true; abandoned = false; consumer = draining; queue = s.queue - 1 }

-- abandon: the store, and its way to memory.
abbrev store_abandoned : Memory → Memory
store_abandoned s = record s { consumer = abandoning }

pub end_abandoned : Memory → Memory
end_abandoned s = record s { running = false; abandoned = true; consumer = resting }

-- Publishes that a read may wait for.
abbrev pub invisible : Memory → ℕ
invisible s = s.buffered + s.skipped + s.early

pub data Step (fenced : Bool) (s : Memory) : Memory → Type 0 where
  issues : Step fenced s (issue s)
  flushes : 1 ≤ s.buffered → Step fenced s (flush s)
  loads : 1 ≤ s.published → Step fenced s (load_flag s)
  loads_early : fenced ≡ false → 1 ≤ s.buffered → Step fenced s (load_early s)
  flushes_skipped : 1 ≤ s.skipped → Step fenced s (flush_skipped s)
  flushes_early : 1 ≤ s.early → Step fenced s (flush_early s)
  claims : 1 ≤ s.loaded → Step fenced s (claim s)
  wakes : 1 ≤ s.owners → s.consumer ≡ resting → Step fenced s (wake s)
  reads : 1 ≤ s.queue → s.consumer ≡ draining → Step fenced s (read_record s)
  stores : (1 ≤ s.queue → 1 ≤ invisible s) → s.consumer ≡ draining → Step fenced s (store_false s)
  clears : s.consumer ≡ clearing → Step fenced s (clear_running s)
  finds : 1 ≤ s.queue → s.consumer ≡ probing → Step fenced s (probe_again true s)
  misses :
      (1 ≤ s.queue → 1 ≤ invisible s) → s.consumer ≡ probing → Step fenced s (probe_again false s)
  misses_early :
      fenced ≡ false
      → (1 ≤ s.queue → 1 ≤ invisible s)
      → s.consumer ≡ clearing
      → Step fenced s (record s { consumer = ending })
  ends : s.consumer ≡ ending → Step fenced s (end_late s)
  abandons : s.consumer ≡ draining → Step fenced s (store_abandoned s)
  loses : s.consumer ≡ draining → Step fenced s (record s { consumer = lost })
  gives_up : s.consumer ≡ abandoning → Step fenced s (end_abandoned s)
  reclaims : s.consumer ≡ reclaiming → Step fenced s (reclaim_chain s)

pub data Reach (fenced : Bool) : Memory → Type 0 where
  start : Reach fenced at_rest
  next : {s t : Memory} → Reach fenced s → Step fenced s t → Reach fenced t
