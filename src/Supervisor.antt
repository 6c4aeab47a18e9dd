-- ===== src/Supervisor.antt =====
-- src/module_supervisor.cpp: the supervisor of the module processes. Its public methods, which check
-- what a client asks for and enqueue it, are in this file.
pub mod Types
pub mod Queue
pub mod Features
pub mod Negotiation
pub mod Work
pub mod Outbound
pub mod Inbound
pub mod Service
pub mod Fleet
pub mod Commands
pub mod Reconfigure
pub mod Reaping
pub mod Loop
pub mod Evolution
pub mod Serving
pub mod Polling
pub mod Ticking
pub mod Orderly
pub mod Events
pub mod Timeouts
pub mod Started
pub mod Pending
pub mod Requests
pub mod Violations
pub mod Failures
pub mod Permissions
pub mod Samples
mod Tests
use gisland.Prelude.{
  ◌==◌, if◌then◌else◌, is_some, Expected, unexpected, ℕ, String, Bool, true, not, ◌&&◌, ◌||◌, List,
  [], ◌∷◌, ◌++◌,
}
use gisland.Runtime.Types.{ViewLanguage}
use gisland.Supervisor.Types.{
  ProcessSpec, ActionMessage, CoreMessage, ModuleStartRequest, SupervisorReconfiguration,
  start_command, stop_command, restart_command, send_command, send_action_command,
  reconfigure_command, Supervisor,
}
use gisland.Supervisor.Queue.{SupervisorCommandError, invalid_request, enqueue}
use gisland.Supervisor.Negotiation.{has}
use gisland.Context.Store.{string_eq}

unfoldable pub is_empty_string : String → Bool
is_empty_string s = string_eq s ""

-- No arguments, or an empty first one.
unfoldable pub lacks_program : ProcessSpec → Bool
lacks_program process = elim process.argv [
  | [] ↦ true
  | program ∷ arguments ↦ is_empty_string program
]

-- Whether none of the identifiers is empty, comes twice or is among those that are known.
unfoldable pub are_new : List String → List String → Bool
are_new known [] = true
are_new known (key ∷ keys) =
    not (is_empty_string key) && not (has key known) && are_new (key ∷ known) keys

-- The supervisor after a request, and what the client gets.
abbrev pub Answer : ViewLanguage → Type 0
Answer V = Supervisor V × Expected (Unit {0}) SupervisorCommandError

module _ {V : ViewLanguage} where
  unfoldable pub start : Supervisor V → ModuleStartRequest V → Answer V
  start s request =
      if is_empty_string request.instance_id || lacks_program request.process
      then (s, unexpected invalid_request)
      else enqueue s (start_command request)

  unfoldable pub stop : Supervisor V → String → Answer V
  stop s key =
      if is_empty_string key then (s, unexpected invalid_request) else enqueue s (stop_command key)

  unfoldable pub restart : Supervisor V → String → ℕ → Answer V
  restart s key generation =
      if is_empty_string key
      then (s, unexpected invalid_request)
      else enqueue s (restart_command key generation)

  unfoldable pub send : Supervisor V → String → CoreMessage V → Answer V
  send s key message =
      if is_empty_string key
      then (s, unexpected invalid_request)
      else enqueue s (send_command key message)

  unfoldable pub send_action : Supervisor V → String → ℕ → ActionMessage V → Answer V
  send_action s key generation message =
      if is_empty_string key
        || generation == 0
        || is_empty_string message.action_id
        || not (is_some message.invocation_id)
      then (s, unexpected invalid_request)
      else enqueue s (send_action_command key generation message)

  -- The identifiers that a reconfiguration names, in the order in which it is read.
  abbrev pub ids_of : List (ModuleStartRequest V) → List String
  ids_of [] = []
  ids_of (request ∷ requests) = request.instance_id ∷ ids_of requests

  abbrev pub have_programs : List (ModuleStartRequest V) → Bool
  have_programs [] = true
  have_programs (request ∷ requests) = not (lacks_program request.process) && have_programs requests

  unfoldable pub is_valid_reconfiguration : SupervisorReconfiguration V → Bool
  is_valid_reconfiguration reconfiguration =
      are_new [] (reconfiguration.stop_instances ++ ids_of reconfiguration.start_or_replace)
      && have_programs reconfiguration.start_or_replace

  unfoldable pub reconfigure : Supervisor V → SupervisorReconfiguration V → Answer V
  reconfigure s reconfiguration =
      if not (is_valid_reconfiguration reconfiguration)
      then (s, unexpected invalid_request)
      else enqueue s (reconfigure_command reconfiguration)
