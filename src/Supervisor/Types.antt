-- ===== src/Supervisor/Types.antt =====
-- The requests, commands and instances of module_supervisor.hpp and module_supervisor.cpp, and what
-- the supervisor uses of the process backend and of the protocol's text format.
use gisland.Prelude.{Expected, ℕ, String, Bool, true, false, Option, none, List, []}
use gisland.Lifecycle.Types.{ShutdownSignal, RestartPolicy, ModuleTimings}
use gisland.Lifecycle.State.{ModuleLifecycle, make}
use gisland.LineBuffer.{
  LineBuffer, default_protocol_limit, default_stderr_limit, protocol, standard_error,
}
use gisland.WriteQueue.{WriteQueue, default_message_limit, default_byte_limit}
use gisland.Scene.Types.{SceneNode}
use gisland.Runtime.Types.{
  ProtocolVersion, ViewLanguage, Visibility, ProtocolError, ExitStatus, ModuleMessage,
  SupervisorEvent,
}
use gisland.WriteQueue

-- What starts a process; only the arguments are read here.
pub record ProcessSpec : Type 0 where
  pub argv : List String

module _ (V : ViewLanguage) where
  open V use {Json}

  -- The locale and the time zone, which the supervisor only passes on, are left out.
  pub record InitMessage : Type 0 where
    pub minimum : ProtocolVersion
    pub maximum : ProtocolVersion
    pub instance_id : String
    pub capabilities : List String
    pub configuration : Json

  pub record ActionMessage : Type 0 where
    pub action_id : String
    pub value : Option Json
    pub invocation_id : Option ℕ

  pub data CoreMessage : Type 0 where
    init_message : InitMessage → CoreMessage
    action_message : ActionMessage → CoreMessage
    visibility_message : Visibility → CoreMessage
    shutdown_message : String → ℕ → CoreMessage

  pub record ModuleStartRequest : Type 0 where
    pub instance_id : String
    pub process : ProcessSpec
    pub init : InitMessage
    pub restart : RestartPolicy
    pub timings : ModuleTimings

  pub record SupervisorReconfiguration : Type 0 where
    pub stop_instances : List String
    pub start_or_replace : List ModuleStartRequest

  pub data Command : Type 0 where
    start_command : ModuleStartRequest → Command
    stop_command : String → Command
    restart_command : String → ℕ → Command
    send_command : String → CoreMessage → Command
    send_action_command : String → ℕ → ActionMessage → Command
    reconfigure_command : SupervisorReconfiguration → Command
    shutdown_command : Command

  -- The text format of the protocol, and the tree that a scene of the view language is.
  -- `none` stands for the exception that a serialization may throw.
  pub record ModuleProtocol : Type 0 where
    pub scene : V.Scene → SceneNode
    pub parse_module_message : List ℕ → Expected (ModuleMessage V) ProtocolError
    pub serialize_core_message : CoreMessage → Option (List ℕ)

  -- A process is its identifier. Counts are plain numbers: none comes near 2 ^ 64.
  pub record Instance : Type 0 where
    pub request : ModuleStartRequest
    pub lifecycle : ModuleLifecycle
    pub process : Option ℕ
    pub stdout_buffer : LineBuffer
    pub stderr_buffer : LineBuffer
    pub writes : WriteQueue
    pub violation_times : List ℕ
    pub consecutive_violations : ℕ
    pub ready : Bool
    pub restart_after_stop : Bool
    pub restart_generation : Option ℕ
    pub replacement_request : Option ModuleStartRequest
    pub contexts_removed : Bool
    pub stdout_eof : Bool
    pub stderr_eof : Bool
    pub stdout_eof_at : Option ℕ
    pub negotiated_version : Option ProtocolVersion
    pub negotiated_capabilities : List String
    pub generation : ℕ

  pub record Supervisor : Type 0 where
    pub instances : List (String × Instance)
    pub pending_reconfiguration_starts : List ModuleStartRequest
    pub global_shutdown : Bool
    pub next_process_generation : ℕ
    pub commands : List Command
    pub accepting_commands : Bool
    pub events : List (SupervisorEvent V)

pub record IoRead : Type 0 where
  pub bytes : List ℕ
  pub eof : Bool
  pub would_block : Bool

pub record IoWrite : Type 0 where
  pub transferred : ℕ
  pub eof : Bool
  pub would_block : Bool

-- The answers of the process backend. `none` is an error, where the answer may be one. A process
-- is started for a generation, and all else is asked of a process at a time; a service asks up to
-- 64 times in a row, so that its answer is a list.
pub record ProcessBackend : Type 0 where
  pub spawn : ProcessSpec → ℕ → Option ℕ
  pub signal_group : ℕ → ShutdownSignal → ℕ → Bool
  pub read_stdout : ℕ → ℕ → List (Option IoRead)
  pub read_stderr : ℕ → ℕ → List (Option IoRead)
  pub write_stdin : ℕ → ℕ → List (Option IoWrite)
  pub reap : ℕ → ℕ → Option (Option ExitStatus)

abbrev pub new_stdout : LineBuffer
new_stdout = protocol default_protocol_limit

abbrev pub new_stderr : LineBuffer
new_stderr = standard_error default_stderr_limit

abbrev pub new_writes : WriteQueue
new_writes = gisland.WriteQueue.make default_message_limit default_byte_limit

-- The constructor of an instance.
unfoldable pub make_instance : (V : ViewLanguage) → ModuleStartRequest V → Instance V
make_instance V request = record {
  request = request;
  lifecycle = make request.restart request.timings;
  process = none;
  stdout_buffer = new_stdout;
  stderr_buffer = new_stderr;
  writes = new_writes;
  violation_times = [];
  consecutive_violations = 0;
  ready = false;
  restart_after_stop = false;
  restart_generation = none;
  replacement_request = none;
  contexts_removed = true;
  stdout_eof = false;
  stderr_eof = false;
  stdout_eof_at = none;
  negotiated_version = none;
  negotiated_capabilities = [];
  generation = 0;
}
