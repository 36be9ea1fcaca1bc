-- ===== src/Session/Held.antt =====
-- The hand-off of the read buffer, and the operations that leave it as it is.
use slick_net.Prelude.{ℕ, ◌≡◌, Bool, true, false, ◌&&◌, refl, ◌∙◌, arith}
use slick_net.WriteChain.{Status, connecting, connected, disconnecting, disconnected}
use slick_net.Session.{
  Session, Release, active, callback_set, released, Phase, finished, release_from, release_buffer,
  completed, close_from, close,
}

abbrev pub is_released : Release → Bool
is_released released = true
is_released _ = false

abbrev pub is_set : Release → Bool
is_set callback_set = true
is_set _ = false

abbrev pub is_over : Phase → Bool
is_over finished = true
is_over _ = false

abbrev pub count : Bool → ℕ
count true = 1
count false = 0

pub record Inv (s : Session) : Type 0 where
  pub once : s.handoffs ≡ count (s.listening && is_released s.release)
  pub set : is_set s.release ≡ true → s.listening ≡ true
  pub unset : s.listening ≡ true → is_set s.release ≡ false → is_released s.release ≡ true
  pub quiet : is_released s.release ≡ is_over s.phase

-- A session that has not released the buffer, as its last step does.
pub record Held (s : Session) : Type 0 where
  pub holds : is_released s.release ≡ false
  pub waits : s.handoffs ≡ 0
  pub heard : s.listening ≡ is_set s.release
  pub over : is_over s.phase ≡ true

release_from-Inv : (r : Release) (s : Session) → s.release ≡ r → Held s → Inv (release_from r s)
unfolding release_from
release_from-Inv active s e h = ground (arith, h.holds, h.waits, h.heard, h.over)
release_from-Inv callback_set s e h = ground (arith, h.holds, h.waits, h.heard, h.over)
release_from-Inv released s e h = ground (arith, h.holds, h.waits, h.heard, h.over)

pub release_buffer-Inv : (s : Session) → Held s → Inv (release_buffer s)
unfolding release_buffer
release_buffer-Inv s h = release_from-Inv s.release s refl h

heard-set :
    (r : Release) (l : Bool)
    → is_released r ≡ false
    → (is_set r ≡ true → l ≡ true)
    → (l ≡ true → is_set r ≡ false → is_released r ≡ true)
    → l ≡ is_set r
heard-set active l h k u = ground arith
heard-set callback_set l h k u = ground arith
heard-set released l h k u = ground arith

pub Inv-Held :
    (s : Session) → Inv s → is_over s.phase ≡ false → Held (record s { phase = finished })
Inv-Held s v o = record {
  holds = v.quiet ∙ o;
  waits = ground arith;
  heard = heard-set s.release s.listening (v.quiet ∙ o) v.set v.unset;
  over = refl;
}

-- A session with the same hand-off of the buffer.
pub record Keeps (s t : Session) : Type 0 where
  pub release_same : t.release ≡ s.release
  pub listening_same : t.listening ≡ s.listening
  pub handoffs_same : t.handoffs ≡ s.handoffs
  pub phase_same : is_over t.phase ≡ is_over s.phase

pub Keeps-Inv : (s t : Session) → Keeps s t → Inv s → Inv t
Keeps-Inv s t k v = ground (arith, k.release_same, k.listening_same, k.handoffs_same, k.phase_same)

pub Keeps-Held : (s t : Session) → Keeps s t → Held s → Held t
Keeps-Held s t k h = ground (
  arith, k.release_same, k.listening_same, k.handoffs_same, k.phase_same, h.holds, h.waits, h.heard,
  h.over,
)

close_from-Keeps : (st : Status) (s : Session) → Keeps s (close_from st s)
unfolding close_from
close_from-Keeps connecting s = ground arith
close_from-Keeps connected s = ground arith
close_from-Keeps disconnecting s = ground arith
close_from-Keeps disconnected s = ground arith

pub close-Keeps : (s : Session) → Keeps s (close s)
unfolding close
close-Keeps s = close_from-Keeps s.status s

pub completed-Keeps : (r d f : Bool) (s : Session) → Keeps s (completed r d f s)
unfolding completed
completed-Keeps true false true s = ground arith
completed-Keeps true true true s = ground arith
completed-Keeps true true false s = ground arith
completed-Keeps true false false s = ground arith
completed-Keeps false true true s = ground arith
completed-Keeps false true false s = ground arith
completed-Keeps false false true s = ground arith
completed-Keeps false false false s = ground arith
