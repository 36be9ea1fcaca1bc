-- ===== src/Logging.antt =====
-- src/logging.cpp and include/slick/net/logging.hpp: the log handler, which any thread may use and replace.
pub mod Retired
pub mod Enabled
pub mod FileName
mod Tests
use slick_net.Prelude.{
  ℕ, suc, ◌+◌, ◌≤◌, ◌≡◌, ◌≢◌, ◌↔◌, refl, Bool, true, false, ◌&&◌, List, [], ◌∷◌, ◌++◌, Option, none,
  some, Bytes, leb, if◌then◌else◌, arith,
}

pub data LogLevel : Type 0 where
  trace debug info warn error fatal off : LogLevel

-- The underlying value, by which levels are compared.
abbrev pub value : LogLevel → ℕ
value trace = 0
value debug = 1
value info = 2
value warn = 3
value error = 4
value fatal = 5
value off = 6

-- A handler that the program installed: one that wants the location of a message, or one that does not and is wrapped
-- by set_log_handler.
pub data Handler : Type 0 where
  plain located : ℕ → Handler

-- log_hooks. A std::function may be empty, and a level getter may throw.
pub data Getter : Type 0 where
  gives : LogLevel → Getter
  throws : Getter

pub record LogHooks : Type 0 where
  pub handler : Option Handler
  pub get_level : Option Getter

-- What a message is made of; its arguments are in its text.
pub record LogMessage : Type 0 where
  pub level : LogLevel
  pub line : ℕ
  pub file_name : Option Bytes
  pub format_text : Bytes

-- A call of an installed handler, with the line and the file where it wants them.
pub record Call : Type 0 where
  pub target : ℕ
  pub level : LogLevel
  pub location : Option (ℕ × Option Bytes)
  pub format_text : Bytes

pub call_of : Handler → LogMessage → Call
call_of (plain h) m = record {
  target = h;
  level = m.level;
  location = none;
  format_text = m.format_text;
}
call_of (located h) m = record {
  target = h;
  level = m.level;
  location = some (m.line, m.file_name);
  format_text = m.format_text;
}

at_least : Getter → LogLevel → Bool
at_least (gives l) level = leb (value l) (value level)
at_least throws level = false

-- should_log, with the hooks that it loads.
should_log_with : Option Handler → Option Getter → LogLevel → Bool
unfolding at_least
should_log_with none get_level level = false
should_log_with (some handler) none level = false
should_log_with (some handler) (some get_level) level = at_least get_level level

pub should_log : Option LogHooks → LogLevel → Bool
unfolding should_log_with
should_log none level = false
should_log (some hooks) level = should_log_with hooks.handler hooks.get_level level

called : Option Handler → LogMessage → List Call
unfolding call_of
called none m = []
called (some handler) m = call_of handler m ∷ []

-- log_message_internal: the handler that it calls, if any. What a handler throws goes no further.
pub log_message_internal : Option LogHooks → LogMessage → List Call
unfolding called
log_message_internal none m = []
log_message_internal (some hooks) m = called hooks.handler m

-- SLICK_NET_LOG_IF_ENABLED loads the hooks twice; another thread may replace them in between.
pub log_if_enabled : Option LogHooks → Option LogHooks → LogMessage → List Call
unfolding should_log log_message_internal
log_if_enabled tested used m = if should_log tested m.level then log_message_internal used m else []
