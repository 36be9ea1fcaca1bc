-- ===== src/StreamCancel.antt =====
-- src/http_stream.cpp: how close() cancels the I/O of a session, through session_io and a handler on the
-- stream's strand. A step is one access of state_ on any thread, or one stretch of what runs on the strand.
pub mod Pending
mod Tests
use slick_net.Prelude.{
  ℕ, ◌+◌, ◌-◌, ◌≤◌, ◌<◌, ◌≡◌, Bool, true, false, Option, none, some, if◌then◌else◌,
}
use slick_net.HttpStream.{max_opened}
use slick_net.HttpStream.Word.{
  disconnected, any_generation, generation_of, open_attempt, end_attempt, is_current,
}

pub record Registry : Type 0 where
  pub word : ℕ  -- state_
  pub opened : ℕ  -- the calls of open() that started a session
  pub session : Option ℕ  -- the generation of session_io_, where there is one
  pub checked : Bool  -- the session has tested its generation since it registered
  pub cancelled : Bool  -- its I/O was cancelled
  pub closing : ℕ  -- calls of close() that ended a generation, before their post
  pub posted : ℕ  -- the handlers that they posted

abbrev pub fresh : Registry
fresh = record {
  word = disconnected;
  opened = 0;
  session = none;
  checked = false;
  cancelled = false;
  closing = 0;
  posted = 0;
}

-- The exchange of open().
unfoldable pub opened_by : Option ℕ → Registry → Registry
opened_by none s = s
opened_by (some w) s = record s { word = w; opened = s.opened + 1 }

unfoldable pub open_word : Registry → Registry
unfolding opened_by
open_word s = opened_by (open_attempt s.word) s

-- The exchange of close().
unfoldable pub closed_by : Option ℕ → Registry → Registry
closed_by none s = s
closed_by (some w) s = record s { word = w; closing = s.closing + 1 }

unfoldable pub close_word : Registry → Registry
unfolding closed_by
close_word s = closed_by (end_attempt any_generation s.word) s

unfoldable pub post_cancel : Registry → Registry
post_cancel s = record s { closing = s.closing - 1; posted = s.posted + 1 }

-- The handler that close() posts.
unfoldable pub cancel_in : Option ℕ → Registry → Registry
cancel_in none s = s
cancel_in (some g) s = if is_current g s.word then s else record s { cancelled = true }

unfoldable pub run_cancel : Registry → Registry
unfolding cancel_in
run_cancel s = cancel_in s.session (record s { posted = s.posted - 1 })

-- The constructor and the destructor of session_io.
unfoldable pub register : ℕ → Registry → Registry
register g s = record s { session = some g; checked = false; cancelled = false }

unfoldable pub unregister : Registry → Registry
unregister s = record s { session = none }

-- throw_if_closed behind the registration.
unfoldable pub check_open : ℕ → Registry → Registry
check_open g s =
    if is_current g s.word then record s { checked = true } else record s { session = none }

-- end_generation of run_session, behind the session.
ended_by : Option ℕ → Registry → Registry
ended_by none s = s
ended_by (some w) s = record s { word = w }

unfoldable pub finish : ℕ → Registry → Registry
unfolding ended_by
finish g s = ended_by (end_attempt g s.word) s

pub data Step (s : Registry) : Registry → Type 0 where
  opens : s.opened < max_opened → Step s (open_word s)
  closes : Step s (close_word s)
  posts : 1 ≤ s.closing → Step s (post_cancel s)
  cancels : 1 ≤ s.posted → Step s (run_cancel s)
  registers : (g : ℕ) → g ≤ generation_of s.word → s.session ≡ none → Step s (register g s)
  checks : (g : ℕ) → s.session ≡ some g → s.checked ≡ false → Step s (check_open g s)
  unregisters : (g : ℕ) → s.session ≡ some g → Step s (unregister s)
  finishes : (g : ℕ) → s.session ≡ none → Step s (finish g s)

pub data Reach : Registry → Type 0 where
  start : Reach fresh
  next : {s t : Registry} → Reach s → Step s t → Reach t
