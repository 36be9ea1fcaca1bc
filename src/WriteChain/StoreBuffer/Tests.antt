-- ===== src/WriteChain/StoreBuffer/Tests.antt =====
-- The run that the fences rule out, and one with them.
use slick_net.Prelude.{◌≡◌, refl, true, false, Bool, arith}
use slick_net.WriteChain.StoreBuffer.{
  Memory, at_rest, ending, issue, flush, load_flag, load_early, claim, wake, read_record,
  store_false, clear_running, end_late, probe_again, Reach, start, next, issues, flushes, loads,
  loads_early, flushes_skipped, claims, wakes, reads, stores, clears, misses, misses_early, ends,
}
use slick_net.WriteChain.StoreBuffer.Fenced.{IsQuiet, none_stranded}

-- A chain that has written the only record.
abbrev drained : Memory
drained = read_record (wake (claim (load_flag (flush (issue at_rest)))))

drained-reached : {fenced : Bool} → Reach fenced drained
unfolding load_flag claim
drained-reached =
    next
      (next
        (next (next (next (next start issues) (flushes (omega arith))) (loads (omega arith)))
          (claims (omega arith)))
        (wakes (omega arith) refl))
      (reads (omega arith) refl)

abbrev quiet : Memory
quiet = probe_again false (clear_running (store_false drained))

quiet-reached : Reach true quiet
unfolding load_flag claim clear_running
quiet-reached =
    next (next (next drained-reached (stores (λ h. absurd (omega (arith, h))) refl)) (clears refl))
      (misses (λ h. absurd (omega (arith, h))) refl)

quiet-IsQuiet : IsQuiet quiet
unfolding load_flag claim clear_running probe_again
quiet-IsQuiet = record { no_producer = refl; no_wakeup = refl; no_chain = refl }

none_stranded_example : quiet.queue ≡ 0
unfolding load_flag claim clear_running probe_again
none_stranded_example = none_stranded quiet-reached quiet-IsQuiet refl

-- Without the fences: the probe misses a record whose publish is in a store buffer, and its producer reads the flag
-- that the chain has cleared in a store buffer of its own.
abbrev missed : Memory
missed = record (store_false drained) { consumer = ending }

abbrev stranded : Memory
stranded = let s = end_late (load_early (issue missed)) in record s { skipped = 0; queue = 1 }

test_unfenced : Reach false stranded × IsQuiet stranded × (stranded.queue ≡ 1)
unfolding load_flag claim load_early end_late
test_unfenced = (
  next
      (next
        (next
          (next
            (next (next drained-reached (stores (λ h. absurd (omega (arith, h))) refl))
              (misses_early refl (λ h. absurd (omega (arith, h))) refl))
            issues)
          (loads_early refl (omega arith)))
        (ends refl))
      (flushes_skipped (omega arith)),
  record { no_producer = refl; no_wakeup = refl; no_chain = refl },
  refl,
)
