-- ===== src/Logging/Tests.antt =====
-- Two handlers, the first of which is replaced, and one message; the name of a file.
use slick_net.Prelude.{one, ℕ, ◌≡◌, refl, [], ◌∷◌, some, codes, ltb}
use slick_net.Logging.{
  LogHooks, LogMessage, Call, located, gives, debug, info, error, call_of, log_message_internal,
  log_if_enabled, should_log, should_log_with, at_least, called,
}
use slick_net.Logging.FileName.{Split, from_path, file_name_from_path, file_name_from_path-Split}
use slick_net.Logging.Retired.{
  Hub, at_load, install, load_head, exchange_fails, exchange_succeeds, Reach, start, next, installs,
  loads, retries, pushes, places, IsChain, nodes_kept,
}

abbrev hooks : LogHooks
hooks = record { handler = some (located 1); get_level = some (gives info) }

abbrev message : LogMessage
message = record {
  level = error;
  line = 7;
  file_name = some (codes "http.cpp");
  format_text = codes "{}";
}

abbrev call : Call
call = record {
  target = 1;
  level = error;
  location = some (7, some (codes "http.cpp"));
  format_text = codes "{}";
}

test_logged : log_if_enabled (some hooks) (some hooks) message ≡ call ∷ []
unfolding log_if_enabled should_log should_log_with at_least log_message_internal called call_of
test_logged = refl

test_quiet : log_if_enabled (some hooks) (some hooks) (record message { level = debug }) ≡ []
unfolding log_if_enabled should_log should_log_with at_least
test_quiet = refl

test_file_name : file_name_from_path (codes "src/http.cpp") ≡ codes "http.cpp"
unfolding file_name_from_path from_path
test_file_name = refl

file_name_from_path-Split_example :
    Split (codes "src/http.cpp") (file_name_from_path (codes "src/http.cpp"))
file_name_from_path-Split_example = file_name_from_path-Split (codes "src/http.cpp")

abbrev replaced_once : Hub
replaced_once =
    exchange_succeeds 0 [] (exchange_fails 0 (load_head 0 [] (install (install at_load))))

replaced_once-reached : Reach replaced_once
unfolding install load_head exchange_fails
replaced_once-reached =
    next
      (next (next (next (next start installs) installs) (loads 0 [] [] refl))
        (retries 0 [] [] refl))
      (pushes 0 [] [] refl refl)

test_retired : replaced_once.retired ≡ 0 ∷ []
unfolding install load_head exchange_fails exchange_succeeds
test_retired = refl

nodes_kept_example :
    ((k : ℕ) → places k replaced_once ≡ one (ltb k replaced_once.nodes))
    × IsChain replaced_once.retired_next replaced_once.head replaced_once.retired
nodes_kept_example = nodes_kept replaced_once-reached
