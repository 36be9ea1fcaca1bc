-- ===== src/Connection/Reported.antt =====
-- The callbacks of a connection: those of its session, and the errors that its sends and its writes report.
use slick_net.Prelude.{◌≡◌, refl, sym, subst, ◌∙◌, Bool, ◌&&◌, Bool-cases, inl, inr}
use slick_net.WriteChain.{Frame, is_connected, Admission, not_connected, too_long, admitted, admit}
use slick_net.Session
use slick_net.Session.{
  Session, Phase, unopened, checking, handshaking, upgrading, announced, reading, dropping,
  completing, finished, stuck, fresh, mark_pending_open, on_error, calls, close, start_reading,
  reads,
}
use slick_net.Session.Kept.{close-phase, close-Kept}
use slick_net.Session.Ordered.{IsOrdered, Life, quiet-calls, stays}
use slick_net.Session.Lifecycle.{Step-Life, Reach-Life, close-log}
use slick_net.Connection.{
  Connection, with_session, send_from, send_frame, publish_frame, close_if, write_breaks,
  write_throws, resume_in, begin_reading, Step, sends, queues, writes, breaks, breaks_off, moves,
  begins_reading, Reach, direct, pending, next,
}

error-Life : (s : Session) → Life s → Life (calls on_error s)
error-Life s v = stays s (calls on_error s) v (quiet-calls on_error s refl v.ordered) refl (λ n. n)

close-Life : (s : Session) → Life s → Life (close s)
close-Life s v =
    stays s (close s) v (subst (IsOrdered v.has_connected) (sym (close-log s)) v.ordered)
      (close-phase s) (λ n. sym (close-Kept s).silent ∙ n)

close_if-Life : (b : Bool) (s : Session) → Life s → Life (close_if b s)
unfolding close_if
close_if-Life b s v = elim (Bool-cases (b && is_connected s.status)) [
  | inl e ↦ rw e (close-Life (calls on_error s) (error-Life s v))
  | inr e ↦ rw e v
]

send_from-Life :
    (a : Admission) (r : Frame) (c : Connection) → Life c.session → Life (send_from a r c).session
unfolding send_from
send_from-Life not_connected r c v = v
send_from-Life too_long r c v = error-Life c.session v
send_from-Life (admitted n) r c v = v

pub resume_in-session : (p : Phase) (c : Connection) → (resume_in p c).session ≡ c.session
unfolding resume_in
resume_in-session reading c = refl
resume_in-session unopened c = refl
resume_in-session checking c = refl
resume_in-session handshaking c = refl
resume_in-session upgrading c = refl
resume_in-session announced c = refl
resume_in-session dropping c = refl
resume_in-session finished c = refl
resume_in-session stuck c = refl
resume_in-session (completing f) c = refl

Step-reported : {c d : Connection} → Step c d → Life c.session → Life d.session
unfolding send_frame publish_frame write_breaks write_throws begin_reading
Step-reported {c} (sends r) v = send_from-Life (admit c.session.status _) r c v
Step-reported (queues r before after e) v = v
Step-reported (writes w o) v = v
Step-reported {c} (breaks running fatal h e) v = close_if-Life (running && fatal) c.session v
Step-reported {c} (breaks_off h e k) v = error-Life c.session v
Step-reported (moves e n) v = Step-Life e v
Step-reported {c} (begins_reading p i) v =
    subst Life (sym (resume_in-session _ (with_session (start_reading c.session) c)))
      (Step-Life (reads p) v)

Reach-reported : {c : Connection} → Reach c → Life c.session
Reach-reported direct = Reach-Life Session.Reach.direct
Reach-reported pending = Reach-Life Session.Reach.pending
Reach-reported (next r s) = Step-reported s (Reach-reported r)

-- However sends, writes, their errors, the session and close() interleave, the callbacks so far are in order:
-- onConnected was made at most once, and onData only behind it.
pub all_callbacks-IsOrdered : {c : Connection} → Reach c → (b : Bool) × IsOrdered b c.session.log
all_callbacks-IsOrdered r = let v = Reach-reported r in (v.has_connected, v.ordered)
