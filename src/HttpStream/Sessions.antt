-- ===== src/HttpStream/Sessions.antt =====
-- What a stream's callbacks tell its owner, in any interleaving.
use slick_net.Prelude.{
  ℕ, ◌+◌, ◌≡◌, ◌≢◌, refl, sym, ap, ◌∙◌, Bool, true, false, List, [], ◌∷◌, some, arith, ◌==◌,
  Bool-cases, inl, inr, Bytes, ◌||◌, Option-cases, ℕ_discrete,
}
use slick_net.HttpStream.Word.{end_attempt, connect_attempt, is_current, generation_of}
use slick_net.HttpStream.Trace.{
  Mark, silent, live, over, watch, watch-connected, watch-data, watch-error, watch-failed, failed,
  watch-disconnected,
}
use slick_net.HttpStream.{
  Stream, off, looping, skipping, on_connected, on_data, on_error, on_disconnected, connected_by,
  receive, serve, next_session, skip_one, session_throws, session_rejected, session_connects,
  session_reads, deliver_event, turn_ends, Verdict, more, done, broken, end_session, part, Step,
  opens, closes, serves, loops, skips, throws, rejects, connects, reads, delivers,
  throws_delivering, turns, ends, parts, enqueues, rethrows, crashes, report_error, Reach, start,
  next,
}
use slick_net.HttpStream.Invariant.{Inv, is_busy, Reach-Inv}
use slick_net.HttpStream.Watched.{
  in_session, Watched, Watched-calls, Watched-quiet, opens-Watched, post_serve-Watched,
  close-Watched, resting,
}

serve-Watched : (s : Stream) → Inv s → Watched s → Watched (serve s)
unfolding serve
serve-Watched s v w = elim (Bool-cases (s.serving || generation_of s.word == s.served)) [
  | inl e ↦ rw e (Watched-quiet s _ w refl refl refl w.marked)
  | inr e ↦
      let k = resting s.phase w.mark (ground (arith, v.busy)) w.marked in
      rw e (Watched-quiet s _ w refl refl (sym k.0) k.1)
]

next_session-Watched : (s : Stream) → s.phase ≡ looping → Watched s → Watched (next_session s)
unfolding next_session
next_session-Watched s e w =
    let q = quiet_mark s w e in
    elim (Bool-cases (generation_of s.word == s.served)) [
      | inl g ↦ rw g (Watched-quiet s _ w refl refl (rw e) q)
      | inr g ↦ rw g (Watched-quiet s _ w refl refl (rw e) q)
    ]
  where
    quiet_mark : (s : Stream) (w : Watched s) → s.phase ≡ looping → w.mark ≡ silent
    quiet_mark s w e = rw e at w.marked

skip_one-Watched : (g : ℕ) (s : Stream) → s.phase ≡ skipping g → Watched s → Watched (skip_one g s)
unfolding skip_one
skip_one-Watched g s e w = elim (Bool-cases (s.served + 1 == g)) [
  | inl last ↦ rw last (record {
    ended = w.ended;
    mark = w.mark;
    seen = w.seen;
    served_is = omega (arith, w.served_is, ap in_session e);
    marked = rw e at w.marked;
  })
  | inr early ↦ rw early (
      Watched-calls s _ (on_disconnected (s.served + 1)) w.ended (s.served + 1) w.mark silent w.seen
        (watch-disconnected w.ended (s.served + 1) w.mark
          (omega (arith, w.served_is, ap in_session e)))
        refl (omega (arith, ap in_session e)) (rw e refl))
]

mark_ne : (m n : Mark) {k : Mark} → m ≡ n → n ≢ k → m ≢ k
mark_ne m n e h o = h (sym e ∙ o)

silent_over : silent ≢ over
silent_over e = cc

silent_failed : silent ≢ failed
silent_failed e = cc

live_over : live ≢ over
live_over e = cc

live_failed : live ≢ failed
live_failed e = cc

failed_over : failed ≢ over
failed_over e = cc

module _ (g : ℕ) (s : Stream) (served_is : s.served ≡ g) (inside : in_session s.phase ≡ 1)
    (w : Watched s) where
  ended_before : w.ended + 1 ≡ g
  ended_before = omega (arith, w.served_is)

  session_throws-Watched : w.mark ≢ over → Watched (session_throws g s)
  unfolding session_throws
  session_throws-Watched n = elim (Bool-cases (is_current g s.word)) [
    | inl e ↦ rw e (
        Watched-calls s _ (on_error g false) w.ended w.ended w.mark over w.seen
          (watch-error w.ended g w.mark n ended_before) refl (omega (arith, w.served_is)) tt)
    | inr e ↦ rw e (Watched-quiet s _ w refl refl (sym inside) tt)
  ]

  report_error-Watched :
      (threw : Bool) → w.mark ≢ over → w.mark ≢ failed → Watched (report_error g threw s)
  report_error-Watched false n m =
      Watched-calls s _ (on_error g false) w.ended w.ended w.mark over w.seen
        (watch-error w.ended g w.mark n ended_before) refl (omega (arith, w.served_is)) tt
  report_error-Watched true n m =
      Watched-calls s _ (on_error g true) w.ended w.ended w.mark failed w.seen
        (watch-failed w.ended g w.mark n m ended_before) refl (omega (arith, w.served_is)) refl

  session_rejected-Watched :
      (threw : Bool) → w.mark ≢ over → w.mark ≢ failed → Watched (session_rejected g threw s)
  unfolding session_rejected
  session_rejected-Watched threw n m = elim (Bool-cases (is_current g s.word)) [
    | inl e ↦ rw e (report_error-Watched threw n m)
    | inr e ↦ rw e (Watched-quiet s _ w refl refl (sym inside) tt)
  ]

  session_connects-Watched : (h : Bool) → w.mark ≡ silent → Watched (session_connects g h s)
  unfolding session_connects connected_by
  session_connects-Watched h m = elim (Option-cases (connect_attempt g s.word)) [
    | inl e ↦ rw e (Watched-quiet s _ w refl refl (sym inside) tt)
    | inr (a, e) ↦ rw e (
        Watched-calls s _ (on_connected g) w.ended w.ended silent live (rw m at w.seen)
          (watch-connected w.ended g ended_before) refl (omega (arith, w.served_is)) refl)
  ]

  session_reads-Watched : (bytes : Bytes) → w.mark ≡ live → Watched (session_reads g bytes s)
  unfolding session_reads receive
  session_reads-Watched [] m = ground (arith, w.seen)
  session_reads-Watched (b ∷ bs) m = elim (Bool-cases (is_current g s.word)) [
    | inl e ↦ rw e (elim (Bool-cases s.is_sse) [
      | inl x ↦ rw x (Watched-quiet s _ w refl refl (sym inside) m)
      | inr n ↦ rw n (
          Watched-calls s _ (on_data g (b ∷ bs)) w.ended w.ended live live (rw m at w.seen)
            (watch-data w.ended g (b ∷ bs) ended_before) refl (omega (arith, w.served_is)) refl)
    ])
    | inr e ↦ rw e (Watched-quiet s _ w refl refl (sym inside) tt)
  ]

  deliver_event-Watched :
      (d : Bytes) (ds : List Bytes) → w.mark ≡ live → Watched (deliver_event g d ds s)
  unfolding deliver_event
  deliver_event-Watched d ds m = elim (Bool-cases (is_current g s.word)) [
    | inl e ↦ rw e (
        Watched-calls s _ (on_data g d) w.ended w.ended live live (rw m at w.seen)
          (watch-data w.ended g d ended_before) refl (omega (arith, w.served_is)) refl)
    | inr e ↦ rw e (Watched-quiet s _ w refl refl (sym inside) m)
  ]

  turn_ends-Watched : (r : Verdict) → w.mark ≡ live → Watched (turn_ends g r s)
  unfolding turn_ends
  turn_ends-Watched more m = ground (arith, w.seen)
  turn_ends-Watched done m = Watched-quiet s _ w refl refl (sym inside) tt
  turn_ends-Watched (broken threw) m = elim (Bool-cases (is_current g s.word)) [
    | inl e ↦ rw e (
        report_error-Watched threw (mark_ne w.mark live m live_over)
          (mark_ne w.mark live m live_failed))
    | inr e ↦ rw e (Watched-quiet s _ w refl refl (sym inside) tt)
  ]

  end_session-Watched : Watched (end_session g s)
  unfolding end_session
  end_session-Watched = elim (Option-cases (end_attempt g s.word)) [
    | inl e ↦ rw e (Watched-quiet s _ w refl refl (sym inside) tt)
    | inr (a, e) ↦ rw e (Watched-quiet s _ w refl refl (sym inside) tt)
  ]

  part-Watched : Watched (part g s)
  unfolding part
  part-Watched =
      Watched-calls s _ (on_disconnected g) w.ended g w.mark silent w.seen
        (watch-disconnected w.ended g w.mark ended_before) refl (omega (arith, served_is)) refl

-- Every step keeps the callbacks in order.
Step-Watched : {s t : Stream} → Step false s t → Inv s → Watched s → Watched t
Step-Watched {s} (opens h) v w = opens-Watched s w
Step-Watched {s} (enqueues h) v w = post_serve-Watched s w
Step-Watched {s} (crashes f c) v w = absurd (ground (arith, f))
Step-Watched {s} closes v w = close-Watched s w
Step-Watched {s} (serves h) v w = serve-Watched s v w
Step-Watched {s} (loops e) v w = next_session-Watched s e w
Step-Watched {s} (skips {g} e) v w = skip_one-Watched g s e w
Step-Watched {s} (throws {g} e) v w =
    session_throws-Watched g s (rw e at v.named) (ap in_session e) w
      (mark_ne w.mark silent (rw e at w.marked) silent_over)
Step-Watched {s} (rejects {g} threw e) v w =
    let m : w.mark ≡ silent = rw e at w.marked in
    session_rejected-Watched g s (rw e at v.named) (ap in_session e) w threw
      (mark_ne w.mark silent m silent_over) (mark_ne w.mark silent m silent_failed)
Step-Watched {s} (rethrows {g} e) v w =
    session_throws-Watched g s (rw e at v.named) (ap in_session e) w
      (mark_ne w.mark failed (rw e at w.marked) failed_over)
Step-Watched {s} (connects {g} h e) v w =
    session_connects-Watched g s (rw e at v.named) (ap in_session e) w h (rw e at w.marked)
Step-Watched {s} (reads {g} bytes e) v w =
    session_reads-Watched g s (rw e at v.named) (ap in_session e) w bytes (rw e at w.marked)
Step-Watched {s} (delivers {g} {d} {ds} e) v w =
    deliver_event-Watched g s (rw e at v.named) (ap in_session e) w d ds (rw e at w.marked)
Step-Watched {s} (throws_delivering {g} e) v w =
    session_throws-Watched g s (rw e at v.named) (ap in_session e) w
      (mark_ne w.mark live (rw e at w.marked) live_over)
Step-Watched {s} (turns {g} r e) v w =
    turn_ends-Watched g s (rw e at v.named) (ap in_session e) w r (rw e at w.marked)
Step-Watched {s} (ends {g} e) v w = end_session-Watched g s (rw e at v.named) (ap in_session e) w
Step-Watched {s} (parts {g} e) v w = part-Watched g s (rw e at v.named) (ap in_session e) w

Reach-Watched : {s : Stream} → Reach false s → Watched s
Reach-Watched start = record {
  ended = 0;
  mark = silent;
  seen = unfold watch in refl;
  served_is = refl;
  marked = refl;
}
Reach-Watched (next r st) = Step-Watched st (Reach-Inv r) (Reach-Watched r)

-- While no callback throws what is no std::exception, the callbacks of a stream come session by session, in
-- order: in each, onConnected at most once and first, onData only between it and the end, onError at most once,
-- or a second time behind one that threw a std::exception, and onDisconnected once and last; and the session of
-- every generation has ended but the one that is under way, if any.
pub callbacks_in_order :
    {s : Stream}
    → Reach false s
    → (ended : ℕ) × (mark : Mark) × (watch s.log ≡ some (record { ended = ended; mark = mark }))
      × (ended + in_session s.phase ≡ s.served)
callbacks_in_order r = let w = Reach-Watched r in (w.ended, w.mark, w.seen, w.served_is)

-- While no callback throws what is no std::exception, every open() that starts a generation gets exactly one
-- onDisconnected: once no open() has still to post its serve(), no serve() is queued and serve_sessions() does
-- not run, as many sessions have ended as there were such calls, and the next one has reported nothing.
pub one_disconnected_each :
    {s : Stream}
    → Reach false s
    → s.opening ≡ 0
    → s.posts ≡ 0
    → s.phase ≡ off
    → watch s.log ≡ some (record { ended = s.opened; mark = silent })
one_disconnected_each {s} r o p e = go (Reach-Inv r) (Reach-Watched r)
  where
    go : Inv s → Watched s → watch s.log ≡ some (record { ended = s.opened; mark = silent })
    go v w = elim (ℕ_discrete s.served s.opened) [
      | yes q ↦
          let n : w.ended ≡ s.opened = omega (arith, w.served_is, ap in_session e) in
          let m : w.mark ≡ silent = rw e at w.marked in w.seen ∙ rw (n, m)
      | no q ↦ absurd (omega (arith, v.awaited (ap is_busy e) q))
    ]
