-- ===== src/Processes/Watch.antt =====
-- wings/processes.py: `OutputLineMatcher`, `_watch` and `_auto_restart_worker`.
use pywings.Prelude.{
  ℕ, ◌-◌, ◌++◌, Bool, true, false, not, ◌&&◌, ◌||◌, Option, none, some, List, [], ◌∷◌, Text, lit,
  drop, length, starts_with, has_text, rstrip_chars, strip, text_eq, ltb, ◌==◌, is_empty,
  if◌then◌else◌,
}
use pywings.Prelude.Dict
use pywings.Json.{
  Json, null, obj, str, arr, Items, nil, cons, Fields, end, field, get_field, get_or_null, truthy,
}
use pywings.Result.{Result, ok, err, type_error, ◌>>=◌}
use pywings.Events.{daemon_message, console_output, plain}
use pywings.Servers.{offline, starting, running, stopping, same_state}
use pywings.Numbers.{Whole, whole_text, is_zero}
use pywings.Processes.Config.{sub}
use pywings.Processes.State.{Manager, Host, publish, server_of, current_state, unregister}
use pywings.Processes.Status.{set_server_state}
use pywings.Processes.Start.{start}

-- Python's `re`: `compile` then `search`, none if the pattern does not compile, and
-- STRIP_ANSI_REGEX.sub("", line).
pub record Regex : Type 0 where
  pub search : Text → Option (Text → Bool)
  pub strip_ansi : Text → Text

-- `OutputLineMatcher(raw).matches(line)`
unfoldable pub matches : Regex → Text → Text → Bool
unfolding starts_with has_text
matches re raw line =
    if starts_with raw (lit "regex:") && ltb 6 (length raw)
    then (elim (re.search (drop 6 raw)) [ some found ↦ found line | none ↦ has_text raw line ])
    else has_text raw line

-- The matchers, of the true entries of `done`; an entry that is no text goes by another spelling.
unfoldable pub matchers : Items → List Text
unfolding truthy
matchers nil = []
matchers (cons (str s) vs) = let rest = matchers vs in if is_empty s then rest else s ∷ rest
matchers (cons v vs) = matchers vs

unfoldable pub any_matches : Regex → List Text → Text → Bool
unfolding matches
any_matches re [] line = false
any_matches re (raw ∷ raws) line = matches re raw line || any_matches re raws line

-- What `_watch` takes from the configuration before the first line.
pub record Plan : Type 0 where
  pub done : List Text
  pub strips : Bool
  pub stop : Json

-- The keys of an object, which a loop over it gives.
keys_of : Fields → Items
keys_of end = nil
keys_of (field k v fs) = cons (str k) (keys_of fs)

-- The characters of a text, which a loop over it gives.
characters : Text → Items
characters [] = nil
characters (c ∷ s) = cons (str (c ∷ [])) (characters s)

-- The matchers of `done or []`; what cannot be looped over raises.
unfoldable pub done_texts : Json → Result (List Text)
unfolding matchers keys_of characters truthy
done_texts (arr vs) = ok (matchers vs)
done_texts (str s) = ok (matchers (characters s))
done_texts (obj fs) = ok (matchers (keys_of fs))
done_texts v = if truthy v then err type_error else ok []

unfoldable pub stop_of : Json → Json
unfolding get_or_null
stop_of (obj fs) = get_or_null (lit "value") fs
stop_of v = null

unfoldable pub plan : Json → Result Plan
unfolding sub done_texts stop_of truthy
plan conf = do
  process ← sub conf (lit "process_configuration")
  startup ← sub process (lit "startup")
  entries ← sub startup (lit "done")
  done ← done_texts entries
  strips ← sub startup (lit "strip_ansi")
  stop ← sub process (lit "stop")
  ok (record { done = done; strips = truthy strips; stop = stop_of stop })

abbrev no_list : List Text → Bool
no_list [] = true
no_list (s ∷ ss) = false

-- Whether a line of a starting server says that it is up. With no matcher, any line does.
unfoldable pub is_done : Regex → Plan → Text → Bool
unfolding any_matches
is_done re p line =
    no_list p.done || any_matches re p.done (if p.strips then re.strip_ansi line else line)

-- `stop_cmd and stripped_line.strip() == str(stop_cmd).strip()`
unfoldable pub is_stop_line : Json → Text → Bool
unfolding strip text_eq
is_stop_line (str s) line = not (is_empty s) && text_eq (strip line) (strip s)
is_stop_line v line = false

abbrev pub is_newline : ℕ → Bool
is_newline c = c == 10 || c == 13

-- The state after the test on the `done` lines.
unfoldable pub mark_running : Host → Regex → Plan → Text → Text → Manager → Manager
mark_running h re p uuid line m =
    if same_state (current_state m uuid) starting && is_done re p line
    then publish uuid daemon_message (plain (lit "[Wings Daemon]: Server marked as running.") ∷ [])
        (set_server_state h uuid running m)
    else m

-- The state after the test on the stop command.
unfoldable pub mark_stopping : Host → Plan → Text → Text → Manager → Manager
mark_stopping h p uuid line m =
    if is_stop_line p.stop line then set_server_state h uuid stopping m else m

-- One round of the loop over the lines that the process writes.
unfoldable pub watch_line : Host → Regex → Plan → Text → Text → Manager → Manager
unfolding mark_running mark_stopping
watch_line h re p uuid raw m =
    let line = rstrip_chars is_newline raw in
    mark_stopping h p uuid line
      (mark_running h re p uuid line (publish uuid console_output (plain line ∷ []) m))

-- bool(configuration.get("crash_detection_enabled", True))
unfoldable pub detects_crashes : Json → Bool
unfolding truthy
detects_crashes (obj fs) = elim (get_field (lit "crash_detection_enabled") fs) [
  | none ↦ true
  | some v ↦ truthy v
]
detects_crashes v = true

-- self._last_crash.get(server_uuid, 0.0)
abbrev pub last_crash_of : Manager → Text → ℕ
last_crash_of m uuid = elim (Dict.lookup uuid m.last_crash) [ none ↦ 0 | some t ↦ t ]

-- A crash, with a restart unless the last one was less than 60 seconds ago.
unfoldable pub crashed : Text → Json → Whole → Manager → Manager
unfolding publish
crashed uuid conf exit_code m =
    let often = ltb (m.clock - last_crash_of m uuid) 60000 in
    let told =
      publish uuid daemon_message
        (plain (
            lit "[Wings Daemon]: Server process crashed (exit code "
            ++ (whole_text exit_code ++ lit ")!"))
          ∷ [])
        (record m { last_crash = Dict.insert uuid m.clock m.last_crash }) in
    record (publish uuid daemon_message
      (plain (
          if often
          then lit "[Wings Daemon]: Server crashed too frequently, aborting automatic restart."
          else lit "[Wings Daemon]: Attempting automatic restart in 5 seconds...")
        ∷ [])
      told) {
        restarts =
            if often
            then m.restarts
            else m.restarts ++ ((record { server = uuid; configuration = conf }) ∷ []);
      }

-- What `_watch` does once its process has ended. It forgets the process that is registered by then.
unfoldable pub close : Host → Text → Whole → Manager → Manager
unfolding unregister set_server_state publish
close h uuid exit_code m =
    publish uuid console_output
      (plain (
          lit "container@pterodactyl~ Server marked as offline (exit code "
          ++ (whole_text exit_code ++ lit ")."))
        ∷ [])
      (set_server_state h uuid offline (unregister uuid m))

-- The test for a crash, on the state before.
unfoldable pub is_crash : Text → Json → Whole → Manager → Bool
is_crash uuid conf exit_code m =
    (same_state (current_state m uuid) starting || same_state (current_state m uuid) running)
    && not (is_zero exit_code)
    && detects_crashes conf

-- The end of a watcher, undisturbed: the lock is released after the entries are out, and Reach has the
-- parts. Where the configuration cannot be read, the thread ended at its start and never comes here.
unfoldable pub watch_exit : Host → Text → Json → Whole → Manager → Manager
unfolding close is_crash crashed
watch_exit h uuid conf exit_code m =
    if is_crash uuid conf exit_code m
    then crashed uuid conf exit_code (close h uuid exit_code m)
    else close h uuid exit_code m

-- `_auto_restart_worker`, after its five seconds.
unfoldable pub auto_restart : Host → Text → Json → Manager → Manager
auto_restart h uuid conf m = elim (server_of m uuid) [
  | none ↦ m
  | some r ↦ if same_state r.state offline && not r.is_suspended then start h uuid conf m else m
]
