-- ===== src/Session/Ordered.antt =====
-- When a session's callbacks are in order, and the steps that keep them so.
use slick_net.Prelude.{
  ◌≡◌, Bool, true, false, List, if◌then◌else◌, refl, sym, ap, subst, Bytes, ◌∷◌, [], ◌++◌, ◌∙◌,
  arith,
}
use slick_net.Session.{
  Session, Event, on_connected, on_error, on_disconnected, on_data, Phase, unopened, checking,
  handshaking, upgrading, announced, reading, finished, release_buffer, completed, calls,
}
use slick_net.Session.Callbacks.{release_buffer-log}
use slick_net.Session.Opened.{release_from-phase}

abbrev pub is_quiet : Event → Bool
is_quiet on_error = true
is_quiet on_disconnected = true
is_quiet _ = false

-- Callbacks in an order that the documentation allows, and whether onConnected is among them: onConnected comes
-- at most once, and onData only behind it.
pub data IsOrdered : Bool → List Event → Type 0 where
  nothing : IsOrdered false []
  quiet :
      {b : Bool} {l : List Event} (e : Event)
      → is_quiet e ≡ true
      → IsOrdered b l
      → IsOrdered b (l ++ e ∷ [])
  connects : {l : List Event} → IsOrdered false l → IsOrdered true (l ++ on_connected ∷ [])
  delivers : {l : List Event} (d : Bytes) → IsOrdered true l → IsOrdered true (l ++ on_data d ∷ [])

abbrev pub is_before : Phase → Bool
is_before unopened = true
is_before checking = true
is_before handshaking = true
is_before upgrading = true
is_before _ = false

abbrev pub is_after : Phase → Bool
is_after announced = true
is_after reading = true
is_after _ = false

pub record Life (s : Session) : Type 0 where
  pub has_connected : Bool
  pub ordered : IsOrdered has_connected s.log
  pub unheard : is_before s.phase ≡ true → has_connected ≡ false
  pub heard : is_after s.phase ≡ true → s.detached ≡ false → has_connected ≡ true

pub quiet-calls :
    {b : Bool} (e : Event) (s : Session)
    → is_quiet e ≡ true
    → IsOrdered b s.log
    → IsOrdered b (calls e s).log
quiet-calls {b} e s q o = called s.detached
  where
    called : (d : Bool) → IsOrdered b (if d then s.log else s.log ++ e ∷ [])
    called true = o
    called false = quiet e q o

-- A step behind which the session neither waits for onConnected nor reads.
pub ends :
    (s t : Session) (v : Life s)
    → IsOrdered v.has_connected t.log
    → is_before t.phase ≡ false
    → is_after t.phase ≡ false
    → Life t
ends s t v o b a = record {
  has_connected = v.has_connected;
  ordered = o;
  unheard = λ e. absurd (ground (arith, e, b));
  heard = λ e. absurd (ground (arith, e, a));
}

-- One before onConnected.
pub waits :
    (s t : Session) (v : Life s)
    → is_before s.phase ≡ true
    → t.log ≡ s.log
    → is_after t.phase ≡ false
    → Life t
waits s t v e l a = record {
  has_connected = v.has_connected;
  ordered = subst (IsOrdered v.has_connected) (sym l) v.ordered;
  unheard = λ u. v.unheard e;
  heard = λ u. absurd (ground (arith, u, a));
}

-- One that leaves the phase as it is.
pub stays :
    (s t : Session) (v : Life s)
    → IsOrdered v.has_connected t.log
    → t.phase ≡ s.phase
    → (t.detached ≡ false → s.detached ≡ false)
    → Life t
stays s t v o p d = record {
  has_connected = v.has_connected;
  ordered = o;
  unheard = λ u. v.unheard (ap is_before (sym p) ∙ u);
  heard = λ u w. v.heard (ap is_after (sym p) ∙ u) (d w);
}

pub completed-IsOrdered :
    {b : Bool} (r d f : Bool) (s : Session)
    → IsOrdered b s.log
    → IsOrdered b (completed r d f s).log
unfolding completed
completed-IsOrdered true false true s o =
    quiet-calls on_disconnected (calls on_error s) refl (quiet-calls on_error s refl o)
completed-IsOrdered true true true s o = quiet-calls on_disconnected s refl o
completed-IsOrdered true true false s o = quiet-calls on_disconnected s refl o
completed-IsOrdered true false false s o = o
completed-IsOrdered false true true s o = o
completed-IsOrdered false true false s o = o
completed-IsOrdered false false true s o = o
completed-IsOrdered false false false s o = o

pub release_buffer-phase : (s : Session) → (release_buffer s).phase ≡ s.phase
unfolding release_buffer
release_buffer-phase s = release_from-phase s.release s

-- The buffer is released at the end of a session.
pub released-Life :
    (s t : Session) (v : Life s)
    → IsOrdered v.has_connected t.log
    → t.phase ≡ finished
    → Life (release_buffer t)
released-Life s t v o p =
    let q = release_buffer-phase t ∙ p in
    ends s (release_buffer t) v (subst (IsOrdered v.has_connected) (sym (release_buffer-log t)) o)
      (ap is_before q) (ap is_after q)
