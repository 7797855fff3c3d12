-- ===== src/Core/Logging.antt =====
-- The methods of core/logging/zerolog.go: each hands its format and arguments to one event of
-- zerolog. A logger shows the events of its level and above; `Fatal` exits, whatever the level.
use blockless_avs_tools.Base.{
  String, List, [], ◌∷◌, ◌++◌, Bool, true, false, Outcome, returned, exited, if◌then◌else◌,
}
use blockless_avs_tools.Core.Config.{Level, info_level}

-- The events of zerolog that are used.
pub data Severity : Type 0 where
  debug_event info_event warn_event error_event fatal_event : Severity

pub data Method : Type 0 where
  debug info warn error fatal debugf infof warnf errorf fatalf : Method

-- The logger's level, and what it has shown so far.
pub record ZeroLogger : Type 0 where
  pub level : Level
  pub shown : List (Severity × String)

unfoldable pub severity : Method → Severity
severity debug = debug_event
severity info = info_event
severity warn = warn_event
severity error = error_event
severity fatal = fatal_event
severity debugf = debug_event
severity infof = info_event
severity warnf = warn_event
severity errorf = error_event
severity fatalf = fatal_event

abbrev pub enabled : Level → Severity → Bool
enabled info_level debug_event = false
enabled level event = true

-- A method call; `text` is the formatted message.
unfoldable pub log : Method → String → ZeroLogger → Outcome (Unit {0}) × ZeroLogger
unfolding severity
log method text z =
    let event = severity method in
    let z' =
      if enabled z.level event then record z { shown = z.shown ++ (event, text) ∷ [] } else z in
    elim event [ fatal_event ↦ (exited text, z') | _ ↦ (returned tt, z') ]

-- `With` keeps the logger and drops the tags.
unfoldable pub with_tags : List String → ZeroLogger → ZeroLogger
with_tags tags z = z
