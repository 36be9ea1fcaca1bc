-- ===== src/HttpStream/Invariant.antt =====
-- The generations, the flags and the phase agree in every state that can be reached.
use slick_net.Prelude.{
  ℕ, ◌+◌, ◌/◌, ◌%◌, ◌^◌, ◌≤◌, ◌<◌, ◌≡◌, ◌≢◌, refl, ap, ◌∙◌, Bool, true, false, List, [], ◌∷◌, arith,
  Bytes,
}
use slick_net.HttpStream.Word.{generation_of, open_attempt, end_attempt, connect_attempt}
use slick_net.HttpStream.{
  Stream, Phase, off, looping, skipping, awaiting, reading, failing, ending, parting, delivering,
  fresh, max_opened, open_stream, post_serve, report_error, close, serve, next_session, skip_one,
  session_throws, session_rejected, session_connects, session_reads, deliver_event, turn_ends,
  Verdict, more, done, broken, end_session, part, Step, opens, closes, serves, loops, skips, throws,
  rejects, connects, reads, delivers, throws_delivering, turns, ends, parts, enqueues, rethrows,
  crashes, Reach, start, next,
}

-- serve_sessions() is running.
abbrev pub is_busy : Phase → Bool
is_busy off = false
is_busy _ = true

-- The generations that the phase names: one still ahead while skipping, the served one in a session.
abbrev pub PhaseInv : Phase → ℕ → ℕ → Type 0
PhaseInv off served opened = Unit {0}
PhaseInv looping served opened = Unit {0}
PhaseInv (skipping g) served opened = (served < g) × (g ≤ opened)
PhaseInv (awaiting g) served opened = served ≡ g
PhaseInv (reading g) served opened = served ≡ g
PhaseInv (delivering g ds) served opened = served ≡ g
PhaseInv (failing g) served opened = served ≡ g
PhaseInv (ending g) served opened = served ≡ g
PhaseInv (parting g) served opened = served ≡ g

pub record Inv (s : Stream) : Type 0 where
  pub counted : s.word / 4 ≡ s.opened
  pub known_status : s.word % 4 < 3
  pub bounded : s.opened < 2 ^ 62
  pub busy : s.serving ≡ is_busy s.phase
  pub behind : s.served ≤ s.opened
  pub named : PhaseInv s.phase s.served s.opened
  -- An open() whose session has not been taken up has a serve() still to come, or is still to post it.
  pub awaited : is_busy s.phase ≡ false → s.served ≢ s.opened → 1 ≤ s.posts + s.opening

fresh-Inv : Inv fresh
fresh-Inv = ground arith

PhaseInv-mono : (p : Phase) (served m n : ℕ) → m ≤ n → PhaseInv p served m → PhaseInv p served n
PhaseInv-mono off served m n l h = tt
PhaseInv-mono looping served m n l h = tt
PhaseInv-mono (skipping g) served m n l h = omega arith
PhaseInv-mono (awaiting g) served m n l h = h
PhaseInv-mono (reading g) served m n l h = h
PhaseInv-mono (delivering g ds) served m n l h = h
PhaseInv-mono (failing g) served m n l h = h
PhaseInv-mono (ending g) served m n l h = h
PhaseInv-mono (parting g) served m n l h = h

open-Inv : (s : Stream) → s.opened < max_opened → Inv s → Inv (open_stream s)
unfolding open_stream open_attempt
open-Inv s h v = ground (arith, PhaseInv-mono s.phase s.served s.opened (s.opened + 1))

post_serve-Inv : (s : Stream) → 1 ≤ s.opening → Inv s → Inv (post_serve s)
unfolding post_serve
post_serve-Inv s h v = ground arith

close-Inv : (s : Stream) → Inv s → Inv (close s)
unfolding close end_attempt
close-Inv s v = ground arith

serve-Inv : (s : Stream) → 1 ≤ s.posts → Inv s → Inv (serve s)
unfolding serve generation_of
serve-Inv s h v = ground arith

next_session-Inv : (s : Stream) → s.phase ≡ looping → Inv s → Inv (next_session s)
unfolding next_session generation_of
next_session-Inv s e v = ground arith

skip_one-Inv : (g : ℕ) (s : Stream) → s.phase ≡ skipping g → Inv s → Inv (skip_one g s)
unfolding skip_one
skip_one-Inv g s e v = ground (arith, rw e at v.named)

-- A stretch of a session of generation `g` leaves the state alone.
session_throws-Inv :
    (g : ℕ) (s : Stream) → s.serving ≡ true → s.served ≡ g → Inv s → Inv (session_throws g s)
unfolding session_throws
session_throws-Inv g s b e v = ground arith

report_error-Inv :
    (g : ℕ) (threw : Bool) (s : Stream)
    → s.serving ≡ true
    → s.served ≡ g
    → Inv s
    → Inv (report_error g threw s)
report_error-Inv g true s b e v = ground arith
report_error-Inv g false s b e v = ground arith

session_rejected-Inv :
    (g : ℕ) (threw : Bool) (s : Stream)
    → s.serving ≡ true
    → s.served ≡ g
    → Inv s
    → Inv (session_rejected g threw s)
unfolding session_rejected
session_rejected-Inv g true s b e v = ground arith
session_rejected-Inv g false s b e v = ground arith

session_connects-Inv :
    (g : ℕ) (h : Bool) (s : Stream)
    → s.serving ≡ true
    → s.served ≡ g
    → Inv s
    → Inv (session_connects g h s)
unfolding session_connects connect_attempt
session_connects-Inv g h s b e v = ground arith

session_reads-Inv :
    (g : ℕ) (bytes : Bytes) (s : Stream)
    → s.serving ≡ true
    → s.served ≡ g
    → Inv s
    → Inv (session_reads g bytes s)
unfolding session_reads
session_reads-Inv g [] s b e v = ground arith
session_reads-Inv g (c ∷ cs) s b e v = ground arith

deliver_event-Inv :
    (g : ℕ) (d : Bytes) (ds : List Bytes) (s : Stream)
    → s.serving ≡ true
    → s.served ≡ g
    → Inv s
    → Inv (deliver_event g d ds s)
unfolding deliver_event
deliver_event-Inv g d ds s b e v = ground arith

turn_ends-Inv :
    (g : ℕ) (r : Verdict) (s : Stream)
    → s.serving ≡ true
    → s.served ≡ g
    → Inv s
    → Inv (turn_ends g r s)
unfolding turn_ends
turn_ends-Inv g more s b e v = ground arith
turn_ends-Inv g done s b e v = ground arith
turn_ends-Inv g (broken true) s b e v = ground arith
turn_ends-Inv g (broken false) s b e v = ground arith

end_session-Inv :
    (g : ℕ) (s : Stream) → s.serving ≡ true → s.served ≡ g → Inv s → Inv (end_session g s)
unfolding end_session end_attempt
end_session-Inv g s b e v = ground arith

part-Inv : (g : ℕ) (s : Stream) → s.serving ≡ true → s.served ≡ g → Inv s → Inv (part g s)
unfolding part
part-Inv g s b e v = ground arith

-- In a session, serve_sessions() runs, and has taken up the session's generation.
abbrev InSession : ℕ → Phase → Type 0
InSession g p = (is_busy p ≡ true) × ((served opened : ℕ) → PhaseInv p served opened → served ≡ g)

in_session :
    (g : ℕ) (s : Stream) (p : Phase)
    → s.phase ≡ p
    → InSession g p
    → Inv s
    → (s.serving ≡ true) × (s.served ≡ g)
in_session g s p e (b, f) v = (v.busy ∙ ap is_busy e ∙ b, f s.served s.opened (rw e at v.named))

-- Every step keeps the invariant.
pub Step-Inv : {s t : Stream} → Step false s t → Inv s → Inv t
Step-Inv {s} (opens h) v = open-Inv s h v
Step-Inv {s} (enqueues h) v = post_serve-Inv s h v
Step-Inv {s} (crashes f c) v = absurd (ground (arith, f))
Step-Inv {s} closes v = close-Inv s v
Step-Inv {s} (serves h) v = serve-Inv s h v
Step-Inv {s} (loops e) v = next_session-Inv s e v
Step-Inv {s} (skips {g} e) v = skip_one-Inv g s e v
Step-Inv {s} (throws {g} e) v =
    let k = in_session g s (awaiting g) e (refl, λ a b h. h) v in session_throws-Inv g s k.0 k.1 v
Step-Inv {s} (rejects {g} x e) v =
    let k = in_session g s (awaiting g) e (refl, λ a b h. h) v in
    session_rejected-Inv g x s k.0 k.1 v
Step-Inv {s} (rethrows {g} e) v =
    let k = in_session g s (failing g) e (refl, λ a b h. h) v in session_throws-Inv g s k.0 k.1 v
Step-Inv {s} (connects {g} h e) v =
    let k = in_session g s (awaiting g) e (refl, λ a b h. h) v in
    session_connects-Inv g h s k.0 k.1 v
Step-Inv {s} (reads {g} bytes e) v =
    let k = in_session g s (reading g) e (refl, λ a b h. h) v in
    session_reads-Inv g bytes s k.0 k.1 v
Step-Inv {s} (delivers {g} {d} {ds} e) v =
    let k = in_session g s (delivering g (d ∷ ds)) e (refl, λ a b h. h) v in
    deliver_event-Inv g d ds s k.0 k.1 v
Step-Inv {s} (throws_delivering {g} {ds} e) v =
    let k = in_session g s (delivering g ds) e (refl, λ a b h. h) v in
    session_throws-Inv g s k.0 k.1 v
Step-Inv {s} (turns {g} r e) v =
    let k = in_session g s (delivering g []) e (refl, λ a b h. h) v in turn_ends-Inv g r s k.0 k.1 v
Step-Inv {s} (ends {g} e) v =
    let k = in_session g s (ending g) e (refl, λ a b h. h) v in end_session-Inv g s k.0 k.1 v
Step-Inv {s} (parts {g} e) v =
    let k = in_session g s (parting g) e (refl, λ a b h. h) v in part-Inv g s k.0 k.1 v

pub Reach-Inv : {s : Stream} → Reach false s → Inv s
Reach-Inv start = fresh-Inv
Reach-Inv (next r st) = Step-Inv st (Reach-Inv r)
