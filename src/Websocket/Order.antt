-- ===== src/Websocket/Order.antt =====
-- The order of the sessions of a Websocket, which its steps keep.
use slick_net.Prelude.{
  ◌≤◌, ◌≡◌, ◌⊎◌, inl, inr, Bool, true, false, List, [], ◌∷◌, if◌then◌else◌, refl, sym, ap, ◌∙◌,
  subst, Bool-cases, arith,
}
use slick_net.Session.{
  Session, fresh, open_session, close, detach, cancel_open, Reach, direct, pending, next, opens,
  closes, detaches, cancels, listens,
}
use slick_net.Session.Kept.{
  Kept, Kept-refl, is_work-Kept, open_session-Kept, close-Kept, close-phase,
  set_on_buffer_released-Listened,
}
use slick_net.Session.Opened.{is_unopened, open_fresh-opened, is_work-unopened}
use slick_net.Websocket.{Doing, idle, closing_old, replacing, on_impl, close_started, replaced}
use slick_net.Websocket.Sessions.{Works, here, there, HandsOver, next}

-- A session has not been opened, or the one before it has handed the buffer over.
abbrev pub Waits : Session → Session → Type 0
Waits t s = (is_unopened t.phase ≡ true) ⊎ (1 ≤ s.handoffs)

-- The session before another: it is detached, and with a shared buffer the other waits for it.
pub record Before (shared : Bool) (t s : Session) : Type 0 where
  pub silent : s.detached ≡ true
  pub waited_for : shared ≡ true → s.listening ≡ true
  pub waits : shared ≡ true → Waits t s

pub data Follows (shared : Bool) : Session → List Session → Type 0 where
  alone : {t : Session} → Reach t → is_unopened t.phase ≡ false → Follows shared t []
  behind :
      {t s : Session} {l : List Session}
      → Reach t
      → Before shared t s
      → Follows shared s l
      → Follows shared t (s ∷ l)

-- open() has detached the session that it replaces.
abbrev pub is_detaching : Doing → Bool
is_detaching closing_old = true
is_detaching replacing = true
is_detaching _ = false

pub data Ordered (shared : Bool) : Doing → List Session → Type 0 where
  none_yet : {d : Doing} → Ordered shared d []
  some_opened :
      {d : Doing} {s : Session} {l : List Session}
      → Follows shared s l
      → s.listening ≡ false
      → (is_detaching d ≡ true → s.detached ≡ true)
      → Ordered shared d (s ∷ l)

pub reached-of : {b : Bool} {t : Session} {l : List Session} → Follows b t l → Reach t
reached-of (alone r o) = r
reached-of (behind r p f) = r

-- A step of the last session leaves those behind it in their places.
moves :
    {b : Bool} {t u : Session} {l : List Session}
    → Follows b t l
    → Reach u
    → is_unopened u.phase ≡ is_unopened t.phase
    → Follows b u l
moves (alone r o) q k = alone q (k ∙ o)
moves (behind r p f) q k =
    behind q
      (record {
        silent = p.silent;
        waited_for = p.waited_for;
        waits = λ e. elim (p.waits e) [ inl n ↦ inl (k ∙ n) | inr h ↦ inr h ];
      })
      f

-- One of an earlier session leaves the last one in its place.
Before-Kept : {b : Bool} (t s u : Session) → Before b t s → Kept s u → Before b t u
Before-Kept t s u p k = record {
  silent = k.silent ∙ p.silent;
  waited_for = λ e. k.waited_for ∙ p.waited_for e;
  waits = λ e. elim (p.waits e) [ inl n ↦ inl n | inr h ↦ inr (omega (arith, h, k.handed)) ];
}

Works-Follows :
    {b : Bool} {t u : Session} {l m : List Session}
    → Follows b t l
    → Works (t ∷ l) (u ∷ m)
    → Follows b u m × Kept t u
Works-Follows f (here e w) =
    (moves f (next (reached-of f) e) (is_work-unopened e w), is_work-Kept e w)
Works-Follows (alone r o) (there q) = elim q [ ]
Works-Follows (behind r p f) (there {m = []} q) = elim q [ ]
Works-Follows {t = t} (behind {s} r p f) (there {m = v ∷ m} q) =
    let k = Works-Follows f q in (behind r (Before-Kept t s v p k.1) k.0, Kept-refl t)

HandsOver-Follows :
    {t u : Session} {l m : List Session}
    → Follows true t l
    → HandsOver (t ∷ l) (u ∷ m)
    → Follows true u m × Kept t u
HandsOver-Follows {t = t} (behind {s} r p f) (here h n) = (
  behind (next r (opens n))
      (record { silent = p.silent; waited_for = p.waited_for; waits = λ e. inr h }) f,
  open_session-Kept t,
)
HandsOver-Follows (alone r o) (there q) = elim q [ ]
HandsOver-Follows (behind r p f) (there {m = []} q) = elim q [ ]
HandsOver-Follows {t = t} (behind {s} r p f) (there {m = v ∷ m} q) =
    let k = HandsOver-Follows f q in (behind r (Before-Kept t s v p k.1) k.0, Kept-refl t)

pub Works-Ordered :
    {b : Bool} {d : Doing} {l m : List Session} → Ordered b d l → Works l m → Ordered b d m
Works-Ordered none_yet w = elim w [ ]
Works-Ordered {m = []} (some_opened f q h) w = elim w [ ]
Works-Ordered {m = u ∷ m} (some_opened {s = s} f q h) w =
    let k = Works-Follows f w in some_opened k.0 (k.1.waited_for ∙ q) (λ e. k.1.silent ∙ h e)

pub HandsOver-Ordered :
    {d : Doing} {l m : List Session} → Ordered true d l → HandsOver l m → Ordered true d m
HandsOver-Ordered none_yet w = elim w [ ]
HandsOver-Ordered {m = []} (some_opened f q h) w = elim w [ ]
HandsOver-Ordered {m = u ∷ m} (some_opened f q h) w =
    let k = HandsOver-Follows f w in some_opened k.0 (k.1.waited_for ∙ q) (λ e. k.1.silent ∙ h e)

unchanged :
    {b : Bool} {d : Doing} (e : Doing) {l : List Session}
    → Ordered b d l
    → (is_detaching e ≡ true → is_detaching d ≡ true)
    → Ordered b e l
unchanged e none_yet k = none_yet
unchanged e (some_opened f q h) k = some_opened f q (λ y. h (k y))

-- The next step of a call that changes no session.
pub continues :
    {b : Bool} {d : Doing} (e : Doing) {l : List Session}
    → Ordered b d l
    → is_detaching e ≡ false
    → Ordered b e l
continues e none_yet n = none_yet
continues e (some_opened f q h) n = some_opened f q (λ y. absurd (ground (arith, n, y)))

pub detach-Ordered :
    {b : Bool} {d : Doing} (e : Doing) {l : List Session}
    → Ordered b d l
    → Ordered b e (on_impl detach l)
unfolding detach
detach-Ordered e none_yet = none_yet
detach-Ordered e (some_opened f q h) =
    some_opened (moves f (next (reached-of f) detaches) refl) q (λ y. refl)

pub cancel-Ordered :
    {b : Bool} {d : Doing} (e : Doing) {l : List Session}
    → Ordered b d l
    → is_detaching e ≡ false
    → Ordered b e (on_impl cancel_open l)
unfolding cancel_open
cancel-Ordered e none_yet n = none_yet
cancel-Ordered e (some_opened f q h) n =
    some_opened (moves f (next (reached-of f) cancels) refl) q (λ y. absurd (ground (arith, n, y)))

close_step :
    {b : Bool} {s : Session} {l : List Session}
    → Follows b s l
    → s.session_started ≡ true
    → Follows b (close s) l
close_step {s = s} f e = moves f (next (reached-of f) (closes e)) (ap is_unopened (close-phase s))

pub close-Ordered :
    {b : Bool} {d : Doing} (e : Doing) {s : Session} {l : List Session}
    → Ordered b d (s ∷ l)
    → s.session_started ≡ true
    → (is_detaching e ≡ true → is_detaching d ≡ true)
    → Ordered b e (close s ∷ l)
close-Ordered e {s} (some_opened f q h) y k =
    let c = close-Kept s in
    some_opened (close_step f y) (c.waited_for ∙ q) (λ n. c.silent ∙ h (k n))

pub close_started-Ordered :
    {b : Bool} {d : Doing} (e : Doing) {l : List Session}
    → Ordered b d l
    → (is_detaching e ≡ true → is_detaching d ≡ true)
    → Ordered b e (on_impl close_started l)
close_started-Ordered e {l = []} c k = none_yet
close_started-Ordered {b} e {l = s ∷ l} c k = elim (Bool-cases s.session_started) [
  | inl y ↦
      subst (λ v. Ordered b e ((if v then close s else s) ∷ l)) (sym y) (close-Ordered e c y k)
  | inr n ↦ subst (λ v. Ordered b e ((if v then close s else s) ∷ l)) (sym n) (unchanged e c k)
]

opened_fresh : {b : Bool} → Follows b (open_session fresh) []
opened_fresh = alone (next direct (opens refl)) open_fresh-opened

pub first-Ordered : {b : Bool} → Ordered b idle (open_session fresh ∷ [])
first-Ordered =
    some_opened opened_fresh (open_session-Kept fresh).waited_for (λ y. absurd (ground (arith, y)))

pub replaced-Ordered :
    (b : Bool) {l : List Session} → Ordered b replacing l → Ordered b idle (replaced b l)
unfolding replaced
replaced-Ordered b none_yet = none_yet
replaced-Ordered true (some_opened {s = s} {l = l} f q h) =
    let k = set_on_buffer_released-Listened s in
    some_opened
      (behind pending
        (record {
          silent = k.silent ∙ h refl;
          waited_for = λ e. k.waited_for;
          waits = λ e. inl refl;
        })
        (moves f (next (reached-of f) (listens q)) (ap is_unopened k.same_phase)))
      refl (λ y. absurd (ground (arith, y)))
replaced-Ordered false (some_opened {s = s} {l = l} f q h) =
    some_opened
      (behind (next direct (opens refl))
        (record {
          silent = h refl;
          waited_for = λ e. absurd (ground (arith, e));
          waits = λ e. absurd (ground (arith, e));
        })
        f)
      (open_session-Kept fresh).waited_for (λ y. absurd (ground (arith, y)))
