-- ===== src/WriteChain/Tests.antt =====
-- Two sends before CONNECTED, one write of each, and the theorems at these states.
use slick_net.Prelude.{
  ◌≤◌, ◌↔◌, false, ◌-◌, ◌+◌, ◌^◌, ◌≡◌, refl, true, false, [], ◌∷◌, arith, codes,
}
use slick_net.WriteChain.{
  connected, Frame, Chain, opening, publish, claim_load, claim_exchange, post_wakeup, start_write,
  take_next, do_write, run_wakeup, probe, probe_queue, write_done, clear_flag, clears,
  maybe_start_queued_write, publishes, loads, exchanges, posts, wakes, probes, completes, resumes,
  changes, Reach, start, next, is_past_connected, admit, admitted,
}
use slick_net.WriteChain.Invariant.{owners, count}
use slick_net.WriteChain.Delivery.{one_chain, IsSettled}
use slick_net.WriteChain.Admitted.{admit-admitted}
use slick_net.WriteChain.Progress.{halt, turn, waking, Run-bound, work}

abbrev hello : Frame
hello = record { is_binary = false; suppress_log = false; payload = codes "hello" }

abbrev bye : Frame
bye = record { is_binary = true; suppress_log = false; payload = codes "bye" }

-- Both are queued, and the chain is parked.
abbrev parked : Chain
parked =
    run_wakeup
      (claim_load (publish bye (post_wakeup (claim_exchange (claim_load (publish hello opening))))))

abbrev resumed : Chain
resumed = maybe_start_queued_write (record parked { status = connected })

abbrev emptied : Chain
emptied = probe (clear_flag (write_done (write_done (run_wakeup resumed))))

parked-reached : Reach parked
unfolding publish claim_load claim_exchange post_wakeup run_wakeup do_write
parked-reached =
    next
      (next
        (next
          (next
            (next (next (next start (publishes hello)) (loads (omega arith)))
              (exchanges (omega arith)))
            (posts (omega arith)))
          (publishes bye))
        (loads (omega arith)))
      (wakes (omega arith) refl)

resumed-reached : Reach resumed
unfolding publish claim_load claim_exchange post_wakeup run_wakeup do_write maybe_start_queued_write
resumed-reached = next (next parked-reached (changes connected)) (resumes refl)

emptied-reached : Reach emptied
unfolding publish claim_load claim_exchange post_wakeup run_wakeup do_write maybe_start_queued_write
    take_next start_write write_done clear_flag
emptied-reached =
    next
      (next
        (next
          (next (next resumed-reached (wakes (omega arith) refl)) (completes (omega arith) refl))
          (completes (omega arith) refl))
        (clears refl))
      (probes refl)

emptied-IsSettled : IsSettled emptied
unfolding publish claim_load claim_exchange post_wakeup run_wakeup do_write maybe_start_queued_write
    take_next start_write write_done clear_flag probe probe_queue
emptied-IsSettled = record {
  no_send = refl;
  no_wakeup = refl;
  no_write = refl;
  not_parked = refl;
  at_rest = refl;
}

-- What is written.
test_written : emptied.written ≡ hello ∷ bye ∷ []
unfolding publish claim_load claim_exchange post_wakeup run_wakeup do_write maybe_start_queued_write
    take_next start_write write_done clear_flag probe probe_queue
test_written = refl

one_chain_example : owners resumed ≡ count resumed.running
one_chain_example = one_chain resumed-reached

Run-bound_example : 1 ≤ work resumed
unfolding publish claim_load claim_exchange post_wakeup run_wakeup do_write maybe_start_queued_write
Run-bound_example =
    Run-bound {n = 1} {c = resumed} {d = run_wakeup resumed} (turn (waking (omega arith) refl) halt)
      resumed-reached refl refl

admit-admitted_example :
    (admit connected 5 ≡ admitted 7)
    ↔ ((is_past_connected connected ≡ false) × (5 ≤ 2 ^ 32 - 3) × (7 ≡ 5 + 2))
admit-admitted_example = admit-admitted connected 5 7
