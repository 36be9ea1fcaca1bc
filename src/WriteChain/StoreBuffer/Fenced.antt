-- ===== src/WriteChain/StoreBuffer/Fenced.antt =====
-- With its fences, the gate leaves no record behind.
use slick_net.Prelude.{ℕ, ◌+◌, ◌≤◌, ◌≡◌, ◌≢◌, Bool, true, false, dec_lt, arith}
use slick_net.WriteChain.StoreBuffer.{
  Consumer, resting, draining, clearing, ending, probing, reclaiming, abandoning, lost,
  end_abandoned, Memory, load_flag, claim, clear_running, probe_again, reclaim_chain, Step, issues,
  flushes, loads, loads_early, flushes_skipped, flushes_early, claims, wakes, reads, stores, clears,
  finds, misses, misses_early, abandons, loses, gives_up, ends, reclaims, Reach, start, next,
}

-- The chain that holds the flag.
abbrev holds : Consumer → ℕ
holds draining = 1
holds clearing = 1
holds abandoning = 1
holds lost = 1
holds _ = 0

abbrev count : Bool → ℕ
count true = 1
count false = 0

-- The strand is about to look at the queue again.
abbrev looks : Consumer → Bool
looks probing = true
looks reclaiming = true
looks _ = false

record Inv (s : Memory) : Type 0 where
  in_order : s.skipped + s.early ≡ 0
  not_late : s.consumer ≢ ending
  owned : s.owners + holds s.consumer ≡ count s.running
  -- A record that no chain will read has a producer that will look at the flag, unless a chain was abandoned.
  cared :
      1 ≤ s.queue
      → s.running ≡ false
      → s.abandoned ≡ false
      → looks s.consumer ≡ false
      → 1 ≤ s.buffered + s.published + s.loaded

Step-Inv : {s t : Memory} → Step true s t → Inv s → Inv t
Step-Inv issues v = ground arith
Step-Inv (flushes h) v = ground arith
Step-Inv (loads h) v = unfold load_flag in ground arith
Step-Inv (loads_early f h) v = absurd (ground (arith, f))
Step-Inv (flushes_skipped h) v = absurd (omega (arith, h, v.in_order))
Step-Inv (flushes_early h) v = absurd (omega (arith, h, v.in_order))
Step-Inv (claims h) v = unfold claim in ground arith
Step-Inv (wakes h e) v = ground arith
Step-Inv (reads h e) v = ground arith
Step-Inv (stores h e) v = ground arith
Step-Inv (clears e) v = unfold clear_running in ground arith
Step-Inv (finds h e) v = unfold probe_again in ground arith
Step-Inv (misses h e) v = unfold probe_again in ground arith
Step-Inv (misses_early f h e) v = absurd (ground (arith, f))
Step-Inv (ends e) v = absurd (v.not_late e)
Step-Inv (abandons e) v = ground arith
Step-Inv (loses e) v = ground arith
Step-Inv (gives_up e) v = unfold end_abandoned in ground arith
Step-Inv (reclaims e) v = unfold reclaim_chain in ground arith

Reach-Inv : {s : Memory} → Reach true s → Inv s
Reach-Inv start = ground arith
Reach-Inv (next r e) = Step-Inv e (Reach-Inv r)

-- No producer is between its publish and the end of its claim, no wakeup is to run, and the strand runs no chain.
pub record IsQuiet (s : Memory) : Type 0 where
  pub no_producer : s.buffered + s.published + s.skipped + s.early + s.loaded ≡ 0
  pub no_wakeup : s.owners ≡ 0
  pub no_chain : s.consumer ≡ resting

-- With the fences, whatever the store buffers hold back: when no producer, no wakeup and no chain is left, not
-- even one that an exception out of onError has ended with the flag set, no
-- record is left in the queue, unless a failed write has abandoned its chain and none has started since.
pub none_stranded : {s : Memory} → Reach true s → IsQuiet s → s.abandoned ≡ false → s.queue ≡ 0
none_stranded {s} r q a =
    let v = Reach-Inv r in
    let off : s.running ≡ false = ground (arith, v.owned, q.no_wakeup, q.no_chain) in
    elim (dec_lt 0 s.queue) [
      | yes h ↦ absurd (omega (arith, v.cared h off a (ground (arith, q.no_chain)), q.no_producer))
      | no h ↦ omega (arith, h)
    ]
