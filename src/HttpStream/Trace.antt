-- ===== src/HttpStream/Trace.antt =====
-- The order in which a stream's callbacks may come: one session after another, each onConnected at most
-- once and first, onData only after it, at most one onError, or a second one behind one that threw, and
-- onDisconnected once and last.
use slick_net.Prelude.{
  ℕ, Bool, true, false, ◌+◌, ◌≡◌, ◌≢◌, refl, ◌∙◌, List, [], ◌∷◌, ◌++◌, Option, none, some, arith,
  ◌==◌, if◌then◌else◌,
}
use slick_net.HttpStream.{Event, on_connected, on_data, on_error, on_disconnected}

-- What the current session has reported: nothing, onConnected, an error to an onError that threw, or an error.
pub data Mark : Type 0 where
  silent live failed over : Mark

-- The sessions that have ended, and what the next has reported.
pub record Watch : Type 0 where
  pub ended : ℕ
  pub mark : Mark

-- The watch after one callback, if it may come now.
connects_at : Mark → ℕ → Option Watch
connects_at silent n = some (record { ended = n; mark = live })
connects_at _ n = none

data_at : Mark → ℕ → Option Watch
data_at live n = some (record { ended = n; mark = live })
data_at _ n = none

error_at : Mark → Bool → ℕ → Option Watch
error_at over threw n = none
error_at failed true n = none
error_at failed false n = some (record { ended = n; mark = over })
error_at _ true n = some (record { ended = n; mark = failed })
error_at _ false n = some (record { ended = n; mark = over })

pub watch_one : Watch → Event → Option Watch
unfolding connects_at data_at error_at
watch_one w (on_connected g) = if g == w.ended + 1 then connects_at w.mark w.ended else none
watch_one w (on_data g d) = if g == w.ended + 1 then data_at w.mark w.ended else none
watch_one w (on_error g threw) = if g == w.ended + 1 then error_at w.mark threw w.ended else none
watch_one w (on_disconnected g) =
    if g == w.ended + 1 then some (record { ended = w.ended + 1; mark = silent }) else none

watch_next : Option Watch → Event → Option Watch
unfolding watch_one
watch_next none e = none
watch_next (some w) e = watch_one w e

pub watch_from : Option Watch → List Event → Option Watch
unfolding watch_next
watch_from w [] = w
watch_from w (e ∷ es) = watch_from (watch_next w e) es

-- The watch after all callbacks; `none` if one of them came out of order.
unfoldable pub watch : List Event → Option Watch
unfolding watch_from
watch log = watch_from (some (record { ended = 0; mark = silent })) log

watch_from-append :
    (w : Option Watch) (es : List Event) (e : Event)
    → watch_from w (es ++ e ∷ []) ≡ watch_next (watch_from w es) e
unfolding watch_from
watch_from-append w [] e = refl
watch_from-append w (x ∷ es) e = watch_from-append (watch_next w x) es e

pub watch-append :
    (log : List Event) (e : Event) (w : Watch)
    → watch log ≡ some w
    → watch (log ++ e ∷ []) ≡ watch_one w e
unfolding watch
watch-append log e w h = watch_from-append _ log e ∙ rw h (unfold watch_next in refl)

pub watch-connected :
    (n g : ℕ)
    → n + 1 ≡ g
    → watch_one (record { ended = n; mark = silent }) (on_connected g)
      ≡ some (record { ended = n; mark = live })
unfolding watch_one
watch-connected n g e = ground arith

pub watch-data :
    (n g : ℕ) (d : List ℕ)
    → n + 1 ≡ g
    → watch_one (record { ended = n; mark = live }) (on_data g d)
      ≡ some (record { ended = n; mark = live })
unfolding watch_one
watch-data n g d e = ground arith

pub watch-error :
    (n g : ℕ) (m : Mark)
    → m ≢ over
    → n + 1 ≡ g
    → watch_one (record { ended = n; mark = m }) (on_error g false)
      ≡ some (record { ended = n; mark = over })
unfolding watch_one
watch-error n g silent h e = ground arith
watch-error n g live h e = ground arith
watch-error n g failed h e = ground arith
watch-error n g over h e = absurd (h refl)

-- An onError that throws.
pub watch-failed :
    (n g : ℕ) (m : Mark)
    → m ≢ over
    → m ≢ failed
    → n + 1 ≡ g
    → watch_one (record { ended = n; mark = m }) (on_error g true)
      ≡ some (record { ended = n; mark = failed })
unfolding watch_one
watch-failed n g silent h k e = ground arith
watch-failed n g live h k e = ground arith
watch-failed n g failed h k e = absurd (k refl)
watch-failed n g over h k e = absurd (h refl)

pub watch-disconnected :
    (n g : ℕ) (m : Mark)
    → n + 1 ≡ g
    → watch_one (record { ended = n; mark = m }) (on_disconnected g)
      ≡ some (record { ended = g; mark = silent })
unfolding watch_one
watch-disconnected n g m e = ground arith
