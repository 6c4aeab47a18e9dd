-- ===== src/Supervisor/Samples.antt =====
-- A supervisor of one module, at several moments, and the answers of its system.
-- A scene, a template and a value are numbers. A line of one byte 1 says that the module is ready.
use gisland.Prelude.{
  leb, if◌then◌else◌, Expected, value, unexpected, ℕ, zero, suc, ◌+◌, String, true, false, none,
  some, List, [], ◌∷◌, map,
}
use gisland.Lifecycle.Types.{ModuleState, running, stopping, unresponsive, always, never}
use gisland.Lifecycle.State.{ModuleLifecycle}
use gisland.Runtime.Types.{
  ProtocolVersion, ViewLanguage, compact, expanded, ProtocolError, StderrLogEvent, PublishMessage,
  ModuleMessage, ready_message, SupervisorEvent, process_started, stderr_log, contexts_removed,
}
use gisland.Supervisor.Types.{
  ModuleStartRequest, SupervisorReconfiguration, start_command, ModuleProtocol, Instance,
  Supervisor, ProcessBackend, make_instance,
}
use gisland.Supervisor.Work.{Work, state_of}
use gisland.Supervisor.Loop.{requests, turns, empty_supervisor, run}
use gisland.Scene.Types.{spacer}
use gisland.Prelude.Int.{pos}
use gisland.Runtime.Types
use gisland.Lifecycle.State

abbrev pub plain : ViewLanguage
plain = record {
  Scene = ℕ;
  Json = ℕ;
  Template = ℕ;
  instantiate_template = λ template snapshot. value (template + snapshot);
}

abbrev pub version_11 : ProtocolVersion
version_11 = record { major = pos 1; minor = pos 11 }

abbrev pub parse : List ℕ → Expected (ModuleMessage plain) ProtocolError
parse (suc zero ∷ []) = value (ready_message version_11 [])
parse line = unexpected (record { path = "/type" })

abbrev pub lines_of_bytes : ModuleProtocol plain
lines_of_bytes = record {
  scene = λ n. spacer (record { flexible = true; size_token = "" });
  parse_module_message = parse;
  serialize_core_message = λ message. some (123 ∷ 10 ∷ []);
}

-- The module is ready at once and exits after a second.
abbrev pub one_second : ProcessBackend
one_second = record {
  spawn = λ process generation. some generation;
  signal_group = λ pid sent now. true;
  read_stdout =
      λ pid now. some (record { bytes = 1 ∷ 10 ∷ []; eof = false; would_block = true }) ∷ [];
  read_stderr = λ pid now. some (record { bytes = []; eof = false; would_block = true }) ∷ [];
  write_stdin = λ pid now. some (record { transferred = 2; eof = false; would_block = false }) ∷ [];
  reap = λ pid now.
      if leb 1_000_000_000 now
      then some (some (record { kind = gisland.Runtime.Types.exited; code = pos 0 }))
      else some none;
}

abbrev pub clock_request : ModuleStartRequest plain
clock_request = record {
  instance_id = "clock";
  process = record { argv = "clock" ∷ [] };
  init = record {
    minimum = record { major = pos 1; minor = pos 0 };
    maximum = version_11;
    instance_id = "";
    capabilities = "text-input" ∷ [];
    configuration = 0;
  };
  restart = never;
  timings = record {
    handshake = 5_000;
    graceful_shutdown = 1_000;
    terminate_grace = 1_000;
    initial_backoff = 500;
    maximum_backoff = 8_000;
    healthy_reset = 60_000;
  };
}

abbrev pub started : Supervisor plain
started =
    run lines_of_bytes one_second empty_supervisor
      (requests (start_command clock_request) ∷ turns 0 0 ∷ [])

abbrev pub states : Supervisor plain → List (String × ModuleState)
states s = map (λ entry. (entry.0, state_of entry.1)) s.instances

abbrev pub stopping_clock : Instance plain
stopping_clock = record (make_instance plain clock_request) {
  lifecycle = record (gisland.Lifecycle.State.make never clock_request.timings) {
    state = stopping;
    pending_stop_cause = some unresponsive;
  };
}

-- A module that runs and is always restarted, and one that is failing since 4 ns.
abbrev pub tireless : ModuleLifecycle
tireless = record (gisland.Lifecycle.State.make always clock_request.timings) { state = running }

abbrev pub failing_clock : Instance plain
failing_clock = record stopping_clock {
  lifecycle = (gisland.Lifecycle.fail tireless unresponsive 4).0;
}

abbrev pub failing_supervisor : Supervisor plain
failing_supervisor = record empty_supervisor { instances = ("clock", failing_clock) ∷ [] }

abbrev pub live_clock : Instance plain
live_clock = record stopping_clock {
  lifecycle = record (gisland.Lifecycle.State.make never clock_request.timings) { state = running };
  consecutive_violations = 2;
  contexts_removed = false;
  ready = true;
}

abbrev pub live_work : Work plain
live_work = record { inst = live_clock; next_process_generation = 1; events = [] }

abbrev pub live_supervisor : Supervisor plain
live_supervisor = record empty_supervisor { instances = ("clock", live_clock) ∷ [] }

abbrev pub log_line : StderrLogEvent
log_line = record { instance_id = "clock"; line = 33 ∷ []; truncated = false; repeated = 1; at = 0 }

abbrev pub queued_events : List (SupervisorEvent plain)
queued_events = process_started "clock" 1 ∷ stderr_log log_line ∷ []

abbrev pub swap_clock : SupervisorReconfiguration plain
swap_clock = record { stop_instances = "mail" ∷ []; start_or_replace = clock_request ∷ [] }

abbrev pub activation_publication : PublishMessage plain
activation_publication = record {
  context_id = "track";
  priority = pos 0;
  expires_in = none;
  compact = some 1;
  expanded = none;
  resources = [];
  presentation = none;
  independent_views = false;
  transitions = record { compact = none; expanded = none };
  activation_only = true;
}
