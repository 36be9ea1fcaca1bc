-- ===== src/WriteChain/Own.antt =====
-- The steps of the chain that need nothing of the session but its status, and what they keep.
use slick_net.Prelude.{◌≡◌, refl, Bool, true, false, List, [], ◌∷◌, arith, inl, inr, Bool-cases}
use slick_net.WriteChain.{
  Chain, Frame, idle, is_connected, publish, claim_load, claim_exchange, post_wakeup, start_write,
  take_next, do_write, run_wakeup, clear_flag, probe, probe_queue, reclaim, write_done,
  maybe_start_queued_write, Step, publishes, loads, exchanges, posts, wakes, clears, probes,
  reclaims, completes, fails, crashes, resumes, changes,
}

abbrev pub is_own : {c d : Chain} → Step c d → Bool
is_own (publishes r) = false
is_own (fails h e) = false
is_own (crashes h e) = false
is_own (resumes e) = false
is_own (changes s) = false
is_own _ = true

-- The chain goes on in its status, and parks only while that is not CONNECTED.
pub record Kept (c d : Chain) : Type 0 where
  pub same_status : d.status ≡ c.status
  pub unparked : is_connected c.status ≡ true → c.parked ≡ false → d.parked ≡ false

take_next-Kept : (b c : Chain) (q : List Frame) → Kept b c → Kept b (take_next q c)
unfolding take_next start_write
take_next-Kept b c [] k = record { same_status = k.same_status; unparked = k.unparked }
take_next-Kept b c (r ∷ q) k = record { same_status = k.same_status; unparked = k.unparked }

do_write-Kept : (b c : Chain) → Kept b c → Kept b (do_write c)
unfolding do_write
do_write-Kept b c k = elim (Bool-cases (is_connected c.status)) [
  | inl e ↦ rw e (take_next-Kept b c c.queue k)
  | inr e ↦ rw e (record {
    same_status = k.same_status;
    unparked = λ u. absurd (ground (arith, u, e, k.same_status));
  })
]

probe_queue-Kept : (b c : Chain) (q : List Frame) → Kept b c → Kept b (probe_queue q c)
unfolding probe_queue
probe_queue-Kept b c [] k = record { same_status = k.same_status; unparked = k.unparked }
probe_queue-Kept b c (r ∷ q) k = record { same_status = k.same_status; unparked = k.unparked }

pub is_own-Kept : {c d : Chain} (w : Step c d) → is_own w ≡ true → Kept c d
unfolding claim_load claim_exchange post_wakeup run_wakeup clear_flag probe reclaim write_done
    start_write
is_own-Kept (publishes r) h = absurd (ground (arith, h))
is_own-Kept (fails k e) h = absurd (ground (arith, h))
is_own-Kept (crashes k e) h = absurd (ground (arith, h))
is_own-Kept (resumes e) h = absurd (ground (arith, h))
is_own-Kept (changes s) h = absurd (ground (arith, h))
is_own-Kept (loads k) h = ground arith
is_own-Kept (exchanges k) h = ground arith
is_own-Kept (posts k) h = ground arith
is_own-Kept {c} (wakes k e) h =
    do_write-Kept c _ (record { same_status = refl; unparked = λ _ p. p })
is_own-Kept (clears e) h = ground arith
is_own-Kept {c} (probes e) h =
    probe_queue-Kept c c c.queue (record { same_status = refl; unparked = λ _ p. p })
is_own-Kept (reclaims e) h = ground arith
is_own-Kept {c} (completes k e) h =
    do_write-Kept c _ (record { same_status = refl; unparked = λ _ p. p })

-- Nothing was handed to the socket, and no handler is behind a read of the queue.
pub record IsUnwritten (c : Chain) : Type 0 where
  pub none_written : c.written ≡ []
  pub none_writing : c.writing ≡ 0
  pub at_rest : c.strand ≡ idle

-- That stays so while the status is not CONNECTED.
pub is_own-IsUnwritten :
    {c d : Chain} (w : Step c d)
    → is_own w ≡ true
    → is_connected c.status ≡ false
    → IsUnwritten c
    → IsUnwritten d
unfolding claim_load claim_exchange post_wakeup run_wakeup do_write
is_own-IsUnwritten (publishes r) h n v = absurd (ground (arith, h))
is_own-IsUnwritten (fails k e) h n v = absurd (ground (arith, h))
is_own-IsUnwritten (crashes k e) h n v = absurd (ground (arith, h))
is_own-IsUnwritten (resumes e) h n v = absurd (ground (arith, h))
is_own-IsUnwritten (changes s) h n v = absurd (ground (arith, h))
is_own-IsUnwritten (loads k) h n v = ground arith
is_own-IsUnwritten (exchanges k) h n v = ground arith
is_own-IsUnwritten (posts k) h n v = ground arith
is_own-IsUnwritten (wakes k e) h n v =
    rw n
      (record { none_written = v.none_written; none_writing = v.none_writing; at_rest = v.at_rest })
is_own-IsUnwritten (clears e) h n v = absurd (ground (arith, e, v.at_rest))
is_own-IsUnwritten (probes e) h n v = absurd (ground (arith, e, v.at_rest))
is_own-IsUnwritten (reclaims e) h n v = absurd (ground (arith, e, v.at_rest))
is_own-IsUnwritten (completes k e) h n v = absurd (omega (arith, k, v.none_writing))

pub publish-Kept : (r : Frame) (c : Chain) → Kept c (publish r c)
unfolding publish
publish-Kept r c = record { same_status = refl; unparked = λ _ p. p }

pub publish-IsUnwritten : (r : Frame) (c : Chain) → IsUnwritten c → IsUnwritten (publish r c)
unfolding publish
publish-IsUnwritten r c v = record {
  none_written = v.none_written;
  none_writing = v.none_writing;
  at_rest = v.at_rest;
}

-- A chain that was parked goes on.
pub record Resumed (c d : Chain) : Type 0 where
  pub same_status : d.status ≡ c.status
  pub unparked : d.parked ≡ false

pub maybe_start_queued_write-Resumed : (c : Chain) → Resumed c (maybe_start_queued_write c)
unfolding maybe_start_queued_write
maybe_start_queued_write-Resumed c = ground arith
