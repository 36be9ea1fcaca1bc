-- ===== src/Websocket/Invariant.antt =====
-- Every step of a Websocket keeps the order of its sessions.
use slick_net.Prelude.{
  ◌≡◌, inl, inr, Bool, true, false, List, [], ◌∷◌, if◌then◌else◌, refl, sym, subst, Bool-cases,
  arith,
}
use slick_net.WriteChain.{is_connected}
use slick_net.Session.{Session, fresh, is_connecting, open_session, close, next}
use slick_net.Websocket.{
  Websocket, Doing, idle, testing, detaching_old, closing_old, replacing, cancelling,
  cancelling_last, closing_last, destroyed, status, begin_open_from, begin_open, test_connecting,
  detach_old, close_old, replace, begin_close_from, begin_close, cancel_impl, detach_impl,
  begin_destroy, cancel_last, close_last,
}
use slick_net.Websocket.Order.{
  Ordered, none_yet, close-Ordered, close_started-Ordered, first-Ordered, replaced-Ordered,
  continues, detach-Ordered, cancel-Ordered, Works-Ordered, HandsOver-Ordered,
}
use slick_net.Websocket.Sessions.{
  Runs, session_works, buffer_released, open_begins, open_tests, open_detaches, open_closes,
  open_replaces, close_begins, close_cancels, detach_called, destroy_begins, destroy_cancels,
  destroy_closes, Reached, start, next,
}

abbrev pub IsChained : Bool → Websocket → Type 0
IsChained b w = Ordered b w.doing w.impls

plainly :
    {b : Bool} (w : Websocket) (d : Doing)
    → w.doing ≡ d
    → Ordered b w.doing w.impls
    → Ordered b d w.impls
plainly {b} w d e c = subst (λ x. Ordered b x w.impls) e c

either :
    {b : Bool} (t : Bool) (x y : Websocket)
    → IsChained b x
    → IsChained b y
    → IsChained b (if t then x else y)
either true x y c d = c
either false x y c d = d

replaces :
    {b : Bool} (w : Websocket) → IsChained b w → IsChained b (record w { doing = detaching_old })
replaces w c = continues detaching_old c refl

begin_open_from-IsChained :
    {b : Bool} (w : Websocket) (l : List Session)
    → w.doing ≡ idle
    → IsChained b w
    → IsChained b (begin_open_from l w)
unfolding begin_open_from
begin_open_from-IsChained {b} w [] e c =
    subst (λ d. Ordered b d (open_session fresh ∷ [])) (sym e) first-Ordered
begin_open_from-IsChained w (s ∷ l) e c =
    let t = record w { doing = testing } in
    let r = record w { doing = detaching_old } in
    either s.session_started (if is_connected s.status then w else t)
      (if s.open_cancelled then r else w)
      (either (is_connected s.status) w t c (continues testing c refl))
      (either s.open_cancelled r w (replaces w c) c)

begin_open-IsChained :
    {b : Bool} (w : Websocket) → w.doing ≡ idle → IsChained b w → IsChained b (begin_open w)
unfolding begin_open
begin_open-IsChained w e c = begin_open_from-IsChained w w.impls e c

test_connecting-IsChained :
    {b : Bool} (w : Websocket) → IsChained b w → IsChained b (test_connecting w)
unfolding test_connecting
test_connecting-IsChained w c =
    either (is_connecting (status w)) (record w { doing = idle })
      (record w { doing = detaching_old }) (continues idle c refl) (replaces w c)

begin_close_from-IsChained :
    {b : Bool} (w : Websocket) (l : List Session)
    → w.impls ≡ l
    → IsChained b w
    → IsChained b (begin_close_from l w)
unfolding begin_close_from
begin_close_from-IsChained w [] q c = c
begin_close_from-IsChained {b} w (s ∷ l) q c =
    let r = record w { doing = cancelling } in
    let x = record w { impls = close s ∷ l } in
    elim (Bool-cases s.session_started) [
      | inl y ↦
          subst (λ v. IsChained b (if v then x else r)) (sym y)
            (close-Ordered w.doing (subst (Ordered b w.doing) q c) y (λ n. n))
      | inr n ↦ subst (λ v. IsChained b (if v then x else r)) (sym n) (continues cancelling c refl)
    ]

begin_close-IsChained : {b : Bool} (w : Websocket) → IsChained b w → IsChained b (begin_close w)
unfolding begin_close
begin_close-IsChained w c = begin_close_from-IsChained w w.impls refl c

Runs-IsChained : {b : Bool} {w x : Websocket} → Runs b w x → IsChained b w → IsChained b x
unfolding detach_old close_old replace cancel_impl detach_impl begin_destroy cancel_last close_last
Runs-IsChained (session_works q) c = Works-Ordered c q
Runs-IsChained {b = true} (buffer_released e q) c = HandsOver-Ordered c q
Runs-IsChained {b = false} (buffer_released e q) c = absurd (ground (arith, e))
Runs-IsChained {w = w} (open_begins e) c = begin_open-IsChained w e c
Runs-IsChained {w = w} (open_tests e) c = test_connecting-IsChained w c
Runs-IsChained (open_detaches e) c = detach-Ordered closing_old c
Runs-IsChained {w = w} (open_closes e) c =
    close_started-Ordered replacing (plainly w closing_old e c) (λ y. refl)
Runs-IsChained {b} {w} (open_replaces e) c = replaced-Ordered b (plainly w replacing e c)
Runs-IsChained {w = w} (close_begins e) c = begin_close-IsChained w c
Runs-IsChained (close_cancels e) c = cancel-Ordered idle c refl
Runs-IsChained {w = w} (detach_called e) c = detach-Ordered w.doing c
Runs-IsChained (destroy_begins e) c = detach-Ordered cancelling_last c
Runs-IsChained (destroy_cancels e) c = cancel-Ordered closing_last c refl
Runs-IsChained (destroy_closes e) c =
    close_started-Ordered destroyed c (λ y. absurd (ground (arith, y)))

pub Reached-IsChained : {b : Bool} {w : Websocket} → Reached b w → IsChained b w
Reached-IsChained start = none_yet
Reached-IsChained (next r q) = Runs-IsChained q (Reached-IsChained r)
