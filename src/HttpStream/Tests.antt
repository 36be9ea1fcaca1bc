-- ===== src/HttpStream/Tests.antt =====
-- A session of one stream, and the theorems at its states.
use slick_net.Prelude.{ℕ, ◌+◌, ◌≡◌, refl, Bool, true, false, [], ◌∷◌, some, arith, codes}
use slick_net.HttpStream.Word.{
  generation_of, open_attempt, end_attempt, connect_attempt, is_current,
}
use slick_net.HttpStream.Trace.{Mark, silent, watch}
use slick_net.HttpStream.{
  Stream, on_connected, on_data, on_error, on_disconnected, fresh, opened_by, connected_by, receive,
  open_stream, serve, next_session, skip_one, session_connects, session_reads, turn_ends, more,
  done, end_session, part, post_serve, crash, session_rejected, session_throws, enqueues, rejects,
  rethrows, crashes, opens, serves, loops, skips, connects, reads, turns, ends, parts, Reach, start,
  next,
}
use slick_net.HttpStream.Watched.{in_session}
use slick_net.HttpStream.Sessions.{callbacks_in_order, one_disconnected_each}
use slick_net.HttpStream.Callbacks.{Reports, callbacks_current}

abbrev accepted : Stream
accepted = skip_one 1 (next_session (serve (post_serve (open_stream fresh))))

abbrev pending : Stream
pending = turn_ends 1 more (session_connects 1 false accepted)

abbrev receiving : Stream
receiving = session_reads 1 (codes "hi") pending

abbrev over : Stream
over = next_session (part 1 (end_session 1 (turn_ends 1 done receiving)))

accepted-reached : {foreign : Bool} → Reach foreign accepted
unfolding open_stream opened_by post_serve serve next_session skip_one open_attempt
accepted-reached =
    next
      (next
        (next (next (next start (opens (omega arith))) (enqueues (omega arith)))
          (serves (omega arith)))
        (loops refl))
      (skips refl)

pending-reached : {foreign : Bool} → Reach foreign pending
unfolding open_stream opened_by post_serve serve next_session skip_one session_connects connected_by
    turn_ends session_reads receive end_session part is_current connect_attempt open_attempt
    generation_of
pending-reached = next (next accepted-reached (connects false refl)) (turns more refl)

receiving-reached : {foreign : Bool} → Reach foreign receiving
unfolding open_stream opened_by post_serve serve next_session skip_one session_connects connected_by
    turn_ends session_reads receive end_session part is_current connect_attempt open_attempt
    generation_of
receiving-reached = next pending-reached (reads (codes "hi") refl)

over-reached : {foreign : Bool} → Reach foreign over
unfolding open_stream opened_by post_serve serve next_session skip_one session_connects connected_by
    turn_ends session_reads receive end_session part is_current connect_attempt open_attempt
    generation_of
over-reached =
    next (next (next (next receiving-reached (turns done refl)) (ends refl)) (parts refl))
      (loops refl)

-- The callbacks of the session.
test_log : over.log ≡ on_connected 1 ∷ on_data 1 (codes "hi") ∷ on_disconnected 1 ∷ []
unfolding open_stream opened_by post_serve serve next_session skip_one session_connects connected_by
    turn_ends session_reads receive end_session part generation_of end_attempt is_current
    connect_attempt open_attempt
test_log = refl

callbacks_in_order_example :
    (ended : ℕ) × (mark : Mark) × (watch receiving.log
      ≡ some (record { ended = ended; mark = mark }))
    × (ended + in_session receiving.phase ≡ receiving.served)
callbacks_in_order_example = callbacks_in_order receiving-reached

one_disconnected_each_example :
    watch over.log ≡ some (record { ended = over.opened; mark = silent })
unfolding open_stream opened_by post_serve serve next_session skip_one session_connects connected_by
    turn_ends session_reads receive end_session part generation_of end_attempt is_current
    connect_attempt open_attempt
one_disconnected_each_example = one_disconnected_each over-reached refl refl refl

callbacks_current_example : Reports pending receiving
unfolding open_stream opened_by post_serve serve next_session skip_one session_connects connected_by
    turn_ends session_reads receive end_session part is_current connect_attempt open_attempt
    generation_of
callbacks_current_example = callbacks_current pending-reached (reads (codes "hi") refl)

-- An onData that throws what is no std::exception: its generation stays open, and open() does nothing.
abbrev crashed : Stream
crashed = crash receiving

test_crashed :
    Reach true crashed × (is_current 1 crashed.word ≡ true) × (open_stream crashed ≡ crashed)
unfolding open_stream opened_by post_serve serve next_session skip_one session_connects connected_by
    turn_ends session_reads receive end_session part is_current connect_attempt open_attempt
    generation_of crash
test_crashed = (next receiving-reached (crashes refl refl), refl, refl)

-- An onError that throws: run_session calls onError once more.
abbrev failing_twice : Stream
failing_twice = session_throws 1 (session_rejected 1 true accepted)

test_failing_twice :
    Reach false failing_twice × (failing_twice.log ≡ on_error 1 true ∷ on_error 1 false ∷ [])
unfolding open_stream opened_by post_serve serve next_session skip_one session_rejected
    session_throws is_current open_attempt generation_of
test_failing_twice = (next (next accepted-reached (rejects true refl)) (rethrows refl), refl)
