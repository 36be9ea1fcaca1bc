-- ===== src/Logging/Enabled.antt =====
-- should_log and the macro over it.
use slick_net.Prelude.{
  ℕ, ◌≤◌, ◌≡◌, ◌↔◌, refl, ap, ◌∙◌, Bool, true, false, List, [], ◌∷◌, Option, none, some, leb,
  if◌then◌else◌, arith,
}
use mathlib.Core.List.{head-eq_of_cons-eq}
use slick_net.Logging.{
  LogLevel, value, Handler, Getter, gives, throws, LogHooks, LogMessage, Call, call_of, at_least,
  should_log_with, should_log, called, log_message_internal, log_if_enabled,
}

-- A handler and a getter are there, and the getter gives a level that is at most this one.
pub data IsEnabled (level : LogLevel) : Option LogHooks → Type 0 where
  enabled :
      {hooks : LogHooks} (handler : Handler) (l : LogLevel)
      → hooks.handler ≡ some handler
      → hooks.get_level ≡ some (gives l)
      → value l ≤ value level
      → IsEnabled level (some hooks)

to_leb : (a b : ℕ) → a ≤ b → leb a b ≡ true
to_leb a b h = ground arith

of_leb : (a b : ℕ) → leb a b ≡ true → a ≤ b
of_leb a b h = ground arith

IsEnabled-of :
    (hooks : LogHooks) (h : Option Handler) (g : Option Getter) (level : LogLevel)
    → hooks.handler ≡ h
    → hooks.get_level ≡ g
    → should_log_with h g level ≡ true
    → IsEnabled level (some hooks)
unfolding should_log_with at_least
IsEnabled-of hooks (some h) (some (gives l)) level p q e =
    enabled h l p q (of_leb (value l) (value level) e)
IsEnabled-of hooks none g level p q e = absurd (ground (arith, e))
IsEnabled-of hooks (some h) none level p q e = absurd (ground (arith, e))
IsEnabled-of hooks (some h) (some throws) level p q e = absurd (ground (arith, e))

IsEnabled-of_hooks :
    (hooks : Option LogHooks) (level : LogLevel)
    → should_log hooks level ≡ true
    → IsEnabled level hooks
unfolding should_log
IsEnabled-of_hooks none level e = absurd (ground (arith, e))
IsEnabled-of_hooks (some hooks) level e =
    IsEnabled-of hooks hooks.handler hooks.get_level level refl refl e

tested :
    (hooks : Option LogHooks) (level : LogLevel)
    → IsEnabled level hooks
    → should_log hooks level ≡ true
unfolding should_log should_log_with at_least
tested none level x = elim x [ ]
tested (some hooks) level (enabled h l p q le) =
    ap (λ o. should_log_with o hooks.get_level level) p
    ∙ ap (λ o. should_log_with (some h) o level) q
    ∙ to_leb (value l) (value level) le

-- The call of the handler of these hooks with the message.
pub data IsCall (m : LogMessage) : Option LogHooks → Call → Type 0 where
  is_call :
      {hooks : LogHooks} {c : Call} (handler : Handler)
      → hooks.handler ≡ some handler
      → call_of handler m ≡ c
      → IsCall m (some hooks) c

call_made :
    (hooks : LogHooks) (h : Option Handler) (m : LogMessage) (c : Call)
    → hooks.handler ≡ h
    → called h m ≡ c ∷ []
    → IsCall m (some hooks) c
unfolding called
call_made hooks none m c p e = absurd (ground (arith, e))
call_made hooks (some h) m c p e = is_call h p (head-eq_of_cons-eq e)

logged :
    (used : Option LogHooks) (m : LogMessage) (c : Call)
    → IsCall m used c
    → log_message_internal used m ≡ c ∷ []
unfolding log_message_internal called
logged none m c x = elim x [ ]
logged (some hooks) m c (is_call h p q) = ap (λ o. called o m) p ∙ ap (λ d. d ∷ []) q

call_of_logged :
    (used : Option LogHooks) (m : LogMessage) (c : Call)
    → log_message_internal used m ≡ c ∷ []
    → IsCall m used c
unfolding log_message_internal
call_of_logged none m c e = absurd (ground (arith, e))
call_of_logged (some hooks) m c e = call_made hooks hooks.handler m c refl e

both :
    (b : Bool) (l : List Call) (c : Call) {P Q : Type 0}
    → (b ≡ true → P)
    → (l ≡ c ∷ [] → Q)
    → (if b then l else []) ≡ c ∷ []
    → P × Q
both true l c f g e = (f refl, g e)
both false l c f g e = absurd (ground (arith, e))

-- The macro loads the hooks twice, and other threads may replace them in between. A message is passed on
-- exactly when the hooks loaded first have a handler and a getter that gives a level which is at most that of
-- the message, and those loaded second have a handler: that handler is called with the message, and nothing
-- else is. A getter that throws excludes every message.
pub logged_iff :
    (first second : Option LogHooks) (m : LogMessage) (c : Call)
    → (log_if_enabled first second m ≡ c ∷ []) ↔ (IsEnabled m.level first × IsCall m second c)
unfolding log_if_enabled
logged_iff first second m c = (
  both (should_log first m.level) (log_message_internal second m) c
      (IsEnabled-of_hooks first m.level) (call_of_logged second m c),
  λ p.
      ap (λ b. if b then log_message_internal second m else []) (tested first m.level p.0)
      ∙ logged second m c p.1,
)
