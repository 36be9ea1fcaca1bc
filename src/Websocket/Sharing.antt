-- ===== src/Websocket/Sharing.antt =====
-- The sessions of a Websocket and the buffer that they share.
use slick_net.Prelude.{
  ℕ, ◌+◌, ◌≤◌, ◌≡◌, inl, inr, Bool, true, false, not, ◌&&◌, List, [], ◌∷◌, refl, sym, ◌∙◌,
  Bool-cases, arith,
}
use slick_net.Session.{Session, Phase, Reach}
use slick_net.Session.Opened.{is_unopened}
use slick_net.Session.Held.{count, is_released, is_over}
use slick_net.Session.Handoff.{handed_over_once}
use slick_net.Websocket.{Websocket}
use slick_net.Websocket.Sessions.{HandsOver, Reached}
use slick_net.Websocket.Order.{Follows, alone, behind, reached-of, Ordered, none_yet, some_opened}
use slick_net.Websocket.Invariant.{Reached-IsChained}

-- A session that uses the buffer: it is opened and has not released it.
abbrev pub is_under_way : Session → Bool
is_under_way s = not (is_unopened s.phase) && not (is_over s.phase)

abbrev pub under_way : List Session → ℕ
under_way [] = 0
under_way (s ∷ l) = count (is_under_way s) + under_way l

abbrev pub waiting : List Session → ℕ
waiting [] = 0
waiting (s ∷ l) = count (is_unopened s.phase) + waiting l

count-true : (a b : Bool) → 1 ≤ count (a && b) → b ≡ true
count-true true true h = refl
count-true true false h = absurd (omega (arith, h))
count-true false b h = absurd (omega (arith, h))

over_released : {s : Session} → Reach s → 1 ≤ s.handoffs → is_over s.phase ≡ true
over_released {s} r h =
    let k = handed_over_once r in
    sym k.1 ∙ count-true s.listening (is_released s.release) (omega (arith, k.0, h))

opened_over : (p : Phase) → is_over p ≡ true → is_unopened p ≡ false
opened_over p o = ground arith

idle_under_way :
    (p : Phase) → is_unopened p ≡ true → count (not (is_unopened p) && not (is_over p)) ≡ 0
idle_under_way p o = ground arith

done_under_way : (p : Phase) → is_over p ≡ true → count (not (is_unopened p) && not (is_over p)) ≡ 0
done_under_way p o = ground arith

-- Behind a session that is opened, every session is finished.
behind_opened :
    {t : Session} {l : List Session}
    → Follows true t l
    → is_unopened t.phase ≡ false
    → under_way l ≡ 0
behind_opened (alone r o) n = refl
behind_opened {t} (behind {s} r p f) n = elim (p.waits refl) [
  | inl u ↦ absurd (ground (arith, n, u))
  | inr h ↦
      let o = over_released (reached-of f) h in
      omega (arith, done_under_way s.phase o, behind_opened f (opened_over s.phase o))
]

at_most_one : (b : Bool) → count b ≤ 1
at_most_one true = omega arith
at_most_one false = omega arith

one_more :
    (t : Session) (l : List Session)
    → (is_unopened t.phase ≡ false → under_way l ≡ 0)
    → under_way l ≤ 1
    → under_way (t ∷ l) ≤ 1
one_more t l f h = elim (Bool-cases (is_unopened t.phase)) [
  | inl u ↦ omega (arith, idle_under_way t.phase u, h)
  | inr n ↦ omega (arith, at_most_one (is_under_way t), f n)
]

one_under_way : {t : Session} {l : List Session} → Follows true t l → under_way (t ∷ l) ≤ 1
one_under_way {t} (alone r o) = omega (arith, at_most_one (is_under_way t))
one_under_way {t} (behind {s = s} {l = l} r p f) =
    one_more t (s ∷ l) (behind_opened (behind r p f)) (one_under_way f)

-- With a shared buffer, at most one of the sessions that a Websocket ever opened uses the buffer at a time:
-- however its calls, the hand-overs and the steps of the sessions interleave, at most one is opened and has not
-- released it.
pub one_session_reads : {w : Websocket} → Reached true w → under_way w.impls ≤ 1
one_session_reads {w} r = chained w.impls (Reached-IsChained r)
  where
    chained : (l : List Session) → Ordered true w.doing l → under_way l ≤ 1
    chained l none_yet = omega arith
    chained l (some_opened f q h) = one_under_way f

-- A hand-over that is due: on_buffer_released_ of a session was called, and the session behind it is not opened yet.
pub data IsDue (l : List Session) : Type 0 where
  due : {m : List Session} → HandsOver l m → IsDue l
