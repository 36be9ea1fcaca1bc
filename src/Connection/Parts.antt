-- ===== src/Connection/Parts.antt =====
-- The chain of a connection goes through the states of a WriteChain, with the status of the session.
use slick_net.Prelude.{◌≡◌, refl, ◌∙◌}
use slick_net.WriteChain
use slick_net.WriteChain.{
  Frame, idle, opening, write_failed, write_crashed, maybe_start_queued_write, Admission,
  not_connected, too_long, admitted, admit, publishes, fails, crashes, resumes, changes,
}
use slick_net.WriteChain.Own.{is_own-Kept, publish-Kept, maybe_start_queued_write-Resumed}
use slick_net.Session.{
  Session, Phase, unopened, checking, handshaking, upgrading, announced, reading, dropping,
  completing, finished, stuck, fresh, mark_pending_open, start_reading, calls, on_error,
}
use slick_net.Connection.{
  Connection, begun, with_session, send_from, send_frame, publish_frame, write_breaks, write_throws,
  resume_in, begin_reading, Step, sends, queues, writes, breaks, breaks_off, moves, begins_reading,
  Reach, direct, pending, next,
}

-- The chain is one that the steps of WriteChain lead to, and its status is the session's.
pub record Joined (c : Connection) : Type 0 where
  pub reached : WriteChain.Reach c.chain
  pub one_status : c.chain.status ≡ c.session.status

-- The session goes on, and the chain reads its new status.
with_session-Joined :
    (t : Session) (c : Connection) → WriteChain.Reach c.chain → Joined (with_session t c)
with_session-Joined t c r = record {
  reached = WriteChain.Reach.next r (changes t.status);
  one_status = refl;
}

send_from-Joined :
    (a : Admission) (r : Frame) (c : Connection) → Joined c → Joined (send_from a r c)
unfolding send_from
send_from-Joined not_connected r c v = v
send_from-Joined too_long r c v = record { reached = v.reached; one_status = v.one_status }
send_from-Joined (admitted n) r c v = record { reached = v.reached; one_status = v.one_status }

resume_in-Joined :
    (p : Phase) (c : Connection) → c.chain.strand ≡ idle → Joined c → Joined (resume_in p c)
unfolding resume_in
resume_in-Joined reading c i v = record {
  reached = WriteChain.Reach.next v.reached (resumes i);
  one_status = (maybe_start_queued_write-Resumed c.chain).same_status ∙ v.one_status;
}
resume_in-Joined unopened c i v = v
resume_in-Joined checking c i v = v
resume_in-Joined handshaking c i v = v
resume_in-Joined upgrading c i v = v
resume_in-Joined announced c i v = v
resume_in-Joined dropping c i v = v
resume_in-Joined finished c i v = v
resume_in-Joined stuck c i v = v
resume_in-Joined (completing f) c i v = v

Step-Joined : {c d : Connection} → Step c d → Joined c → Joined d
unfolding send_frame publish_frame write_breaks write_throws begin_reading
Step-Joined {c} (sends r) v = send_from-Joined (admit c.session.status _) r c v
Step-Joined {c} (queues r before after e) v = record {
  reached = WriteChain.Reach.next v.reached (publishes r);
  one_status = (publish-Kept r c.chain).same_status ∙ v.one_status;
}
Step-Joined {c} (writes w o) v = record {
  reached = WriteChain.Reach.next v.reached w;
  one_status = (is_own-Kept w o).same_status ∙ v.one_status;
}
Step-Joined {c} (breaks running fatal h e) v =
    with_session-Joined _ (record c { chain = write_failed c.chain })
      (WriteChain.Reach.next v.reached (fails h e))
Step-Joined {c} (breaks_off h e k) v =
    with_session-Joined (calls on_error c.session) (record c { chain = write_crashed c.chain })
      (WriteChain.Reach.next v.reached (crashes h e))
Step-Joined {c} (moves {t} e n) v = with_session-Joined t c v.reached
Step-Joined {c} (begins_reading p i) v =
    resume_in-Joined _ (with_session (start_reading c.session) c) i
      (with_session-Joined (start_reading c.session) c v.reached)

begun-Joined : (s : Session) → Joined (begun s)
begun-Joined s = record {
  reached = WriteChain.Reach.next WriteChain.Reach.start (changes s.status);
  one_status = refl;
}

-- In every state of a connection that can be reached, its chain is in a state that the chain alone can reach,
-- and the two read one status.
pub Reach-Joined : {c : Connection} → Reach c → Joined c
Reach-Joined direct = begun-Joined fresh
Reach-Joined pending = begun-Joined (mark_pending_open fresh)
Reach-Joined (next r s) = Step-Joined s (Reach-Joined r)
