-- ===== src/Session/Lifecycle.antt =====
-- The order of a session's callbacks.
use slick_net.Prelude.{
  ◌-◌, ◌≡◌, Bool, true, false, not, ◌&&◌, ◌||◌, if◌then◌else◌, refl, sym, ap, subst, Bytes, ◌∷◌, [],
  ◌++◌, Bool-cases, ◌∙◌, inl, inr, arith,
}
use slick_net.WriteChain.{Status, connecting, connected, disconnecting, disconnected, is_connected}
use slick_net.Session.{
  close_throws, stop_at, Stops, completion_error, completion_end, completion_closed, read_error,
  drop_end, data_in, close_errors, stops_at, Event, Status, Session, on_connected, on_error,
  on_disconnected, on_data, unopened, checking, handshaking, upgrading, announced, reading,
  dropping, completing, finished, set_on_buffer_released, open_from, open_session, begin_session,
  handshake_fails, handshake_done, upgrade, start_reading, completed, complete, close, read_failed,
  drop_connection, read_done, close_done, detach, cancel_open, given_up, calls, is_connecting,
  is_disconnecting, Step, opens, begins, fails, upgrades_to, upgrades, throws, reads, completes,
  read_fails, drops, read_dones, closes, close_dones, detaches, cancels, listens, Reach, direct,
  pending, next,
}
use slick_net.Session.Callbacks.{close_from-log, listen-log, open_session-log}
use slick_net.Session.Kept.{close-phase, close-Kept, set_on_buffer_released-Listened}
use slick_net.Session.Opened.{completed-phase}
use slick_net.Session.Ordered.{
  IsOrdered, nothing, connects, delivers, is_before, is_after, Life, quiet-calls, ends, waits,
  stays, completed-IsOrdered, release_buffer-phase, released-Life,
}

open_from-after :
    (st : Status) (s : Session) → s.phase ≡ unopened → is_after (open_from st s).phase ≡ false
unfolding open_from
open_from-after connecting s p = ground arith
open_from-after connected s p = ap is_after p
open_from-after disconnecting s p = ap is_after p
open_from-after disconnected s p = refl

open_session-Life : (s : Session) → Life s → s.phase ≡ unopened → Life (open_session s)
unfolding open_session
open_session-Life s v p = waits s (open_session s) v (ap is_before p) (open_session-log s) opened
  where
    opened : is_after (open_session s).phase ≡ false
    opened = elim (Bool-cases (s.open_cancelled || s.detached)) [
      | inl e ↦ rw e (
          ap is_after
            (release_buffer-phase (record s { status = given_up s.status; phase = finished })))
      | inr e ↦ rw e (open_from-after s.status s p)
    ]

begin_session-Life : (s : Session) → Life s → s.phase ≡ checking → Life (begin_session s)
unfolding begin_session
begin_session-Life s v p =
    waits s (begin_session s) v (ap is_before p) (ground arith) (ground arith)

handshake_done-Life :
    (r : Bool) (s : Session) → Life s → s.phase ≡ handshaking → Life (handshake_done r s)
unfolding handshake_done
handshake_done-Life r s v p =
    waits s (handshake_done r s) v (ap is_before p) (ground arith) (ground arith)

connecting-Life :
    (s : Session)
    → Life s
    → s.phase ≡ upgrading
    → Life (calls on_connected (record s { status = connected; phase = announced }))
connecting-Life s v p = elim (Bool-cases s.detached) [
  | inl d ↦ record {
    has_connected = false;
    ordered =
        subst (λ b. IsOrdered false (if b then s.log else s.log ++ on_connected ∷ [])) (sym d)
          before;
    unheard = λ e. refl;
    heard = λ e n. absurd (ground (arith, d, n));
  }
  | inr d ↦ record {
    has_connected = true;
    ordered =
        subst (λ b. IsOrdered true (if b then s.log else s.log ++ on_connected ∷ [])) (sym d)
          (connects before);
    unheard = λ e. absurd (ground (arith, e));
    heard = λ e n. refl;
  }
]
  where
    before : IsOrdered false s.log
    before = subst (λ b. IsOrdered b s.log) (v.unheard (ap is_before p)) v.ordered

upgrade-Life : (s : Session) → Life s → s.phase ≡ upgrading → Life (upgrade s)
unfolding upgrade
upgrade-Life s v p = elim (Bool-cases (is_connecting s.status)) [
  | inl e ↦ rw e (connecting-Life s v p)
  | inr e ↦ rw e (ends s (record s { phase = completing false }) v v.ordered refl refl)
]

start_reading-Life : (s : Session) → Life s → s.phase ≡ announced → Life (start_reading s)
unfolding start_reading
start_reading-Life s v p = elim (Bool-cases (not (is_connected s.status) || s.detached)) [
  | inl e ↦ rw e (ends s (record s { phase = completing false }) v v.ordered refl refl)
  | inr e ↦ rw e (record {
    has_connected = v.has_connected;
    ordered = v.ordered;
    unheard = λ u. absurd (ground (arith, u));
    heard = λ u d. v.heard (ap is_after p) d;
  })
]

complete-Life : (f r : Bool) (s : Session) → Life s → Life (complete f r s)
unfolding complete
complete-Life f r s v =
    let t = record s { status = disconnected; phase = finished } in
    let d = is_disconnecting s.status in
    released-Life s (completed r d f t) v (completed-IsOrdered r d f t v.ordered)
      (completed-phase r d f t)

read_failed-Life : (r f : Bool) (s : Session) → Life s → Life (read_failed r f s)
unfolding read_failed close
read_failed-Life r f s v = elim (Bool-cases (is_connected s.status)) [
  | inl e ↦ rw e (elim (Bool-cases (r && f)) [
    | inl y ↦ rw y (
        let t = calls on_error (record s { phase = finished }) in
        released-Life s (close t) v
          (subst (IsOrdered v.has_connected) (sym (close_from-log s.status t))
            (quiet-calls on_error (record s { phase = finished }) refl v.ordered))
          (close-phase t))
    | inr n ↦ rw n (ends s (record s { phase = dropping }) v v.ordered refl refl)
  ])
  | inr e ↦ rw e (released-Life s (record s { phase = finished }) v v.ordered refl)
]

drop_connection-Life : (s : Session) → Life s → Life (drop_connection s)
unfolding drop_connection
drop_connection-Life s v =
    let t = record s { status = disconnected; phase = finished } in
    released-Life s (calls on_disconnected t) v (quiet-calls on_disconnected t refl v.ordered) refl

-- onData of a session that reads and is not detached.
data-Life :
    (d : Bytes) (s : Session)
    → Life s
    → s.phase ≡ reading
    → s.detached ≡ false
    → Life (calls (on_data d) s)
data-Life d s v p n =
    let c = v.heard (ap is_after p) n in
    record {
      has_connected = true;
      ordered =
          subst (λ b. IsOrdered true (if b then s.log else s.log ++ on_data d ∷ [])) (sym n)
            (delivers d (subst (λ b. IsOrdered b s.log) c v.ordered));
      unheard = λ u. absurd (ground (arith, u, p));
      heard = λ u w. refl;
    }

read_done-Life :
    (r : Bool) (d : Bytes) (s : Session) → Life s → s.phase ≡ reading → Life (read_done r d s)
unfolding read_done
read_done-Life r d s v p = elim (Bool-cases (r && (is_connected s.status && not s.detached))) [
  | inl e ↦ rw e (data-Life d s v p (undetached r (is_connected s.status) s.detached e))
  | inr e ↦ rw e (released-Life s (record s { phase = finished }) v v.ordered refl)
]
  where
    undetached : (a b c : Bool) → (a && (b && not c)) ≡ true → c ≡ false
    undetached a b c e = ground (arith, e)

close_done-Life : (r : Bool) (s : Session) → Life s → Life (close_done r s)
unfolding close_done
close_done-Life true s v =
    stays s (close_done true s) v
      (quiet-calls on_disconnected
        (record (calls on_error s) { status = disconnected; closing = s.closing - 1 }) refl
        (quiet-calls on_error s refl v.ordered))
      refl (λ n. n)
close_done-Life false s v =
    stays s (close_done false s) v
      (quiet-calls on_disconnected (record s { status = disconnected; closing = s.closing - 1 })
        refl v.ordered)
      refl (λ n. n)

Stops-IsOrdered :
    {s : Session} {errs : Bool} {e : Event} {st : Status}
    → Stops s errs e st
    → (v : Life s) → IsOrdered v.has_connected (stop_at errs e st s).log
unfolding stop_at
Stops-IsOrdered {s} (completion_error p n) v = quiet-calls on_error s refl v.ordered
Stops-IsOrdered {s} (completion_end p n) v =
    quiet-calls on_disconnected (calls on_error s) refl (quiet-calls on_error s refl v.ordered)
Stops-IsOrdered {s} (completion_closed p n) v = quiet-calls on_disconnected s refl v.ordered
Stops-IsOrdered {s} (drop_end p) v = quiet-calls on_disconnected s refl v.ordered
Stops-IsOrdered {s} (read_error p n) v = quiet-calls on_error s refl v.ordered
Stops-IsOrdered {s} (data_in d p n) v = elim (Bool-cases s.detached) [
  | inl q ↦
      subst (λ b. IsOrdered v.has_connected (if b then s.log else s.log ++ on_data d ∷ [])) (sym q)
        v.ordered
  | inr q ↦
      let c = v.heard (ap is_after p) q in
      subst (λ b. IsOrdered v.has_connected (if b then s.log else s.log ++ on_data d ∷ [])) (sym q)
        (subst (λ b. IsOrdered b (s.log ++ on_data d ∷ [])) (sym c)
          (delivers d (subst (λ b. IsOrdered b s.log) c v.ordered)))
]

Stops-Life :
    {s : Session} {errs : Bool} {e : Event} {st : Status}
    → Stops s errs e st
    → Life s
    → Life (stop_at errs e st s)
Stops-Life {s} {errs} {e} {st} k v =
    ends s (stop_at errs e st s) v (Stops-IsOrdered k v) (unfold stop_at in refl)
      (unfold stop_at in refl)

pub close-log : (s : Session) → (close s).log ≡ s.log
unfolding close
close-log s = close_from-log s.status s

pub Step-Life : {s t : Session} → Step s t → Life s → Life t
unfolding handshake_fails detach cancel_open set_on_buffer_released close_throws
Step-Life {s} (opens e) v = open_session-Life s v e
Step-Life {s} (begins e) v = begin_session-Life s v e
Step-Life {s} (fails c e) v = ends s (handshake_fails c s) v v.ordered refl refl
Step-Life {s} (upgrades_to r e) v = handshake_done-Life r s v e
Step-Life {s} (upgrades e) v = upgrade-Life s v e
Step-Life {s} (throws e) v = ends s (handshake_fails false s) v v.ordered refl refl
Step-Life {s} (reads e) v = start_reading-Life s v e
Step-Life {s} (completes {failed} r e) v = complete-Life failed r s v
Step-Life {s} (read_fails r f e) v = read_failed-Life r f s v
Step-Life {s} (drops e) v = drop_connection-Life s v
Step-Life {s} (read_dones r d e) v = read_done-Life r d s v e
Step-Life {s} (closes e) v =
    stays s (close s) v (subst (IsOrdered v.has_connected) (sym (close-log s)) v.ordered)
      (close-phase s) (λ n. sym (close-Kept s).silent ∙ n)
Step-Life {s} (close_dones r h) v = close_done-Life r s v
Step-Life {s} (close_errors h) v =
    stays s (close_throws s) v (quiet-calls on_error s refl v.ordered) refl (λ n. n)
Step-Life {s} (stops_at k) v = Stops-Life k v
Step-Life {s} detaches v = stays s (detach s) v v.ordered refl (λ n. absurd (ground (arith, n)))
Step-Life {s} cancels v = stays s (cancel_open s) v v.ordered refl (λ n. n)
Step-Life {s} (listens l) v =
    let k = set_on_buffer_released-Listened s in
    stays s (set_on_buffer_released s) v
      (subst (IsOrdered v.has_connected) (sym (listen-log s.release s)) v.ordered) k.same_phase
      (λ n. sym k.silent ∙ n)

pub Reach-Life : {s : Session} → Reach s → Life s
Reach-Life direct = record {
  has_connected = false;
  ordered = nothing;
  unheard = λ e. refl;
  heard = λ e. absurd (ground (arith, e));
}
Reach-Life pending = record {
  has_connected = false;
  ordered = nothing;
  unheard = λ e. refl;
  heard = λ e. absurd (ground (arith, e));
}
Reach-Life (next r e) = Step-Life e (Reach-Life r)

-- However the steps of a session interleave with close(), detach() and cancel_open(), its callbacks so far are
-- in order: onConnected was made at most once, and onData only behind it.
pub callbacks-IsOrdered : {s : Session} → Reach s → (b : Bool) × IsOrdered b s.log
callbacks-IsOrdered r = let v = Reach-Life r in (v.has_connected, v.ordered)
