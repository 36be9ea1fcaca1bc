-- ===== src/HttpStream/Watched.antt =====
-- The callbacks so far, as sessions one after another, and the steps outside of them.
use slick_net.Prelude.{
  ℕ, ◌+◌, ◌≡◌, refl, ◌∙◌, false, [], ◌∷◌, ◌++◌, some, arith, inl, inr, Option-cases,
}
use slick_net.HttpStream.Word.{open_attempt, end_attempt}
use slick_net.HttpStream.Trace.{Mark, silent, live, failed, watch, watch_one, watch-append}
use slick_net.HttpStream.{
  Stream, Phase, off, looping, skipping, awaiting, reading, failing, ending, parting, delivering,
  Event, opened_by, open_stream, post_serve, close,
}
use slick_net.HttpStream.Invariant.{is_busy}

abbrev pub in_session : Phase → ℕ
in_session off = 0
in_session looping = 0
in_session (skipping g) = 0
in_session _ = 1

-- What the session in each phase has reported.
abbrev pub Marked : Phase → Mark → Type 0
Marked (reading g) m = m ≡ live
Marked (delivering g ds) m = m ≡ live
Marked (failing g) m = m ≡ failed
Marked (ending g) m = Unit {0}
Marked (parting g) m = Unit {0}
Marked _ m = m ≡ silent

pub record Watched (s : Stream) : Type 0 where
  pub ended : ℕ
  pub mark : Mark
  pub seen : watch s.log ≡ some (record { ended = ended; mark = mark })
  pub served_is : ended + in_session s.phase ≡ s.served
  pub marked : Marked s.phase mark

pub Watched-calls :
    (s t : Stream) (e : Event) (n n' : ℕ) (m m' : Mark)
    → watch s.log ≡ some (record { ended = n; mark = m })
    → watch_one (record { ended = n; mark = m }) e ≡ some (record { ended = n'; mark = m' })
    → t.log ≡ s.log ++ e ∷ []
    → n' + in_session t.phase ≡ t.served
    → Marked t.phase m'
    → Watched t
Watched-calls s t e n n' m m' h one l c k = record {
  ended = n';
  mark = m';
  seen = rw l (watch-append s.log e _ h ∙ one);
  served_is = c;
  marked = k;
}

-- A step that calls nothing.
pub Watched-quiet :
    (s t : Stream)
    → (w : Watched s) → t.log ≡ s.log
    → t.served ≡ s.served
    → in_session t.phase ≡ in_session s.phase
    → Marked t.phase w.mark
    → Watched t
Watched-quiet s t w l c i k = record {
  ended = w.ended;
  mark = w.mark;
  seen = rw l w.seen;
  served_is = omega (arith, w.served_is);
  marked = k;
}

pub opens-Watched : (s : Stream) → Watched s → Watched (open_stream s)
unfolding open_stream opened_by
opens-Watched s w = elim (Option-cases (open_attempt s.word)) [
  | inl e ↦ rw e w
  | inr (a, e) ↦ rw e (Watched-quiet s _ w refl refl refl w.marked)
]

pub post_serve-Watched : (s : Stream) → Watched s → Watched (post_serve s)
unfolding post_serve
post_serve-Watched s w = Watched-quiet s _ w refl refl refl w.marked

pub close-Watched : (s : Stream) → Watched s → Watched (close s)
unfolding close end_attempt
close-Watched s w = ground arith

pub resting :
    (p : Phase) (m : Mark) → is_busy p ≡ false → Marked p m → (in_session p ≡ 0) × (m ≡ silent)
resting off m b k = (refl, k)
resting looping m b k = cc
resting (skipping g) m b k = cc
resting (awaiting g) m b k = cc
resting (reading g) m b k = cc
resting (delivering g ds) m b k = cc
resting (failing g) m b k = cc
resting (ending g) m b k = cc
resting (parting g) m b k = cc
