-- ===== src/Supervisor/Queue.antt =====
-- The two queues of the supervisor: the commands that clients enqueue, and the events that it emits.
use gisland.Prelude.{
  leb, ◌==◌, if◌then◌else◌, is_some, case_option, length, get_last?, Expected, value, unexpected, ℕ,
  ◌+◌, Bool, true, false, not, ◌&&◌, Option, none, some, List, [], ◌∷◌, ◌++◌,
}
use gisland.Context.Store.{string_eq}
use gisland.Runtime.Types.{ViewLanguage, StderrLogEvent, SupervisorEvent, stderr_log}
use gisland.Supervisor.Types.{Command, shutdown_command, Supervisor}

abbrev pub command_capacity : ℕ
command_capacity = 2048

abbrev pub event_capacity : ℕ
event_capacity = 4096

abbrev pub bool_eq : Bool → Bool → Bool
bool_eq true true = true
bool_eq false false = true
bool_eq a b = false

-- `==` on the bytes of a line.
pub bytes_eq : List ℕ → List ℕ → Bool
bytes_eq [] [] = true
bytes_eq (x ∷ xs) (y ∷ ys) = x == y && bytes_eq xs ys
bytes_eq xs ys = false

pub data SupervisorCommandError : Type 0 where
  invalid_request queue_full shutting_down : SupervisorCommandError

-- Whether two logs are of the same line of the same instance.
unfoldable pub same_log : StderrLogEvent → StderrLogEvent → Bool
same_log a b =
    string_eq a.instance_id b.instance_id
    && bytes_eq a.line b.line
    && bool_eq a.truncated b.truncated

-- The log of a line that came again.
abbrev pub repeat_log : StderrLogEvent → StderrLogEvent → StderrLogEvent
repeat_log log incoming = record log { repeated = log.repeated + 1; at = incoming.at }

-- Whether what may be a log is one of the same line.
abbrev pub is_same_log : StderrLogEvent → Option StderrLogEvent → Bool
is_same_log incoming none = false
is_same_log incoming (some log) = same_log log incoming

module _ {V : ViewLanguage} where
  unfoldable pub enqueue :
      Supervisor V → Command V → Supervisor V × Expected (Unit {0}) SupervisorCommandError
  enqueue s command =
      if not s.accepting_commands
      then (s, unexpected shutting_down)
      else if leb command_capacity (length s.commands)
      then (s, unexpected queue_full)
      else (record s { commands = s.commands ++ command ∷ [] }, value tt)

  -- What `shutdown` does before it waits for the thread.
  unfoldable pub request_shutdown : Supervisor V → Supervisor V
  request_shutdown s = record s {
    accepting_commands = false;
    commands = s.commands ++ shutdown_command ∷ [];
  }

  unfoldable pub take_commands : Supervisor V → Supervisor V × List (Command V)
  take_commands s = (record s { commands = [] }, s.commands)

  abbrev pub as_log : SupervisorEvent V → Option StderrLogEvent
  as_log (stderr_log log) = some log
  as_log _ = none

  -- Counts the log of the first event that logs the same line, if there is one.
  unfoldable pub count_repeat : StderrLogEvent → List (SupervisorEvent V) → List (SupervisorEvent V)
  count_repeat incoming [] = []
  count_repeat incoming (event ∷ events) = elim (as_log event) [
    | none ↦ event ∷ count_repeat incoming events
    | some log ↦
        if same_log log incoming
        then stderr_log (repeat_log log incoming) ∷ events
        else event ∷ count_repeat incoming events
  ]

  -- The last event, if it logs the same line, with one more repetition.
  unfoldable pub count_last : StderrLogEvent → List (SupervisorEvent V) → List (SupervisorEvent V)
  count_last incoming [] = []
  count_last incoming (event ∷ []) = count_repeat incoming (event ∷ [])
  count_last incoming (event ∷ other ∷ events) = event ∷ count_last incoming (other ∷ events)

  abbrev pub last_log : List (SupervisorEvent V) → Option StderrLogEvent
  last_log events = elim (get_last? events) [ none ↦ none | some event ↦ as_log event ]

  -- Drops the first log, if there is one.
  unfoldable pub drop_log : List (SupervisorEvent V) → List (SupervisorEvent V)
  drop_log [] = []
  drop_log (event ∷ events) = if is_some (as_log event) then events else event ∷ drop_log events

  unfoldable pub emit_log : List (SupervisorEvent V) → StderrLogEvent → List (SupervisorEvent V)
  emit_log events incoming =
      if is_same_log incoming (last_log events)
      then count_last incoming events
      else if leb event_capacity (length events)
      then count_repeat incoming events
      else events ++ stderr_log incoming ∷ []

  unfoldable pub emit : List (SupervisorEvent V) → SupervisorEvent V → List (SupervisorEvent V)
  unfolding emit_log
  emit events event =
      case_option (as_log event)
        (if leb event_capacity (length events)
          then drop_log events ++ event ∷ []
          else events ++ event ∷ [])
        (λ incoming. emit_log events incoming)

  unfoldable pub take_events : Supervisor V → Supervisor V × List (SupervisorEvent V)
  take_events s = (record s { events = [] }, s.events)
