-- ===== src/StreamCancel/Tests.antt =====
-- A session that is closed while it waits, before the handler of close() has run.
use slick_net.Prelude.{◌+◌, ◌≤◌, ◌≡◌, refl, true, arith}
use slick_net.HttpStream.Word.{
  open_attempt, end_attempt, make_state, generation_of, status_of, is_current,
}
use slick_net.StreamCancel.{
  Registry, fresh, open_word, opened_by, close_word, closed_by, post_cancel, run_cancel, cancel_in,
  register, check_open, Reach, start, next, opens, closes, posts, registers, checks,
}
use slick_net.StreamCancel.Pending.{closed-cancelled}

abbrev closed_late : Registry
closed_late = post_cancel (close_word (check_open 1 (register 1 (open_word fresh))))

closed_late-Reach : Reach closed_late
unfolding open_word opened_by open_attempt make_state generation_of status_of register check_open
    is_current close_word closed_by end_attempt
closed_late-Reach =
    next
      (next
        (next (next (next start (opens (omega arith))) (registers 1 (omega arith) refl))
          (checks 1 refl refl))
        closes)
      (posts (omega arith))

test_cancelled : (run_cancel closed_late).cancelled ≡ true
unfolding open_word opened_by open_attempt make_state generation_of status_of register check_open
    is_current close_word closed_by end_attempt post_cancel run_cancel cancel_in
test_cancelled = refl

closed-cancelled_example : 1 ≤ closed_late.closing + closed_late.posted
unfolding open_word opened_by open_attempt make_state generation_of status_of register check_open
    is_current close_word closed_by end_attempt post_cancel
closed-cancelled_example = closed-cancelled 1 closed_late-Reach refl refl refl refl
