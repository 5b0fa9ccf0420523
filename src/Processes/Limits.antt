-- ===== src/Processes/Limits.antt =====
-- wings/processes.py: `_enforce_limits` and `_limit_kill`.
use pywings.Prelude.{
  ℕ, ◌+◌, ◌++◌, Bool, ◌&&◌, Option, none, some, List, [], ◌∷◌, Text, lit, ltb, leb, if◌then◌else◌,
}
use pywings.Events.{console_output, daemon_message, plain}
use pywings.Processes.State.{Manager, Host, publish}
use pywings.Processes.Stop.{kill}

pub data Resource : Type 0 where
  memory disk cpu : Resource

-- The limits in bytes and in thousandths of a percent of one core; a limit of 0 is none.
pub record Limits : Type 0 where
  pub bytes : ℕ
  pub disk_bytes : ℕ
  pub share : ℕ

-- What one round of the loop finds while the process runs.
pub record Reading : Type 0 where
  pub rss : ℕ
  pub used : ℕ
  pub load : ℕ

abbrev pub is_over : ℕ → ℕ → Bool
is_over limit value = ltb 0 limit && ltb limit value

-- The count of rounds in a row above the limit of the processor, after a round.
abbrev pub violations_after : Limits → ℕ → Reading → ℕ
violations_after l v r = if ltb 0 l.share then (if ltb l.share r.load then v + 1 else 0) else v

-- The loop of `_enforce_limits`, over the readings until the process ends: the limit that is exceeded.
unfoldable pub exceeded : Limits → ℕ → List Reading → Option Resource
exceeded l v [] = none
exceeded l v (r ∷ rs) =
    let rest = exceeded l (violations_after l v r) rs in
    if is_over l.bytes r.rss
    then some memory
    else if is_over l.disk_bytes r.used
    then some disk
    else if ltb 0 l.share && leb 3 (violations_after l v r)
    then some cpu
    else rest

unfoldable pub resource_name : Resource → Text
resource_name memory = lit "memory"
resource_name disk = lit "disk"
resource_name cpu = lit "cpu"

-- `_limit_kill`, without the log file.
unfoldable pub limit_kill : Host → Text → Resource → Manager → Manager
limit_kill h uuid resource m = kill h uuid (
    publish uuid daemon_message
      (plain (
          lit "[Wings Daemon]: Server stopped: "
          ++ (resource_name resource ++ lit " limit exceeded."))
        ∷ [])
      (publish uuid console_output
        (plain
            (lit "[Wings] Server stopped: " ++ (resource_name resource ++ lit " limit exceeded."))
          ∷ [])
        m))

-- `_enforce_limits`, with the state of the manager when the loop ends.
unfoldable pub enforce_limits : Host → Text → Limits → List Reading → Manager → Manager
enforce_limits h uuid l rs m = elim (exceeded l 0 rs) [
  | none ↦ m
  | some resource ↦ limit_kill h uuid resource m
]
