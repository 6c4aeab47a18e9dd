-- ===== src/Supervisor/Loop.antt =====
-- The thread of the supervisor: what one turn of its loop does, and how long it may wait.
use gisland.Prelude.{
  leb, ◌==◌, if◌then◌else◌, is_some, case_option, ℕ, ◌-◌, ◌/◌, min, String, Bool, true, false, not,
  ◌&&◌, List, [], ◌∷◌,
}
use gisland.Lifecycle.State.{next_deadline}
use gisland.Runtime.Types.{ViewLanguage}
use gisland.Supervisor.Types.{
  Command, start_command, stop_command, restart_command, send_command, send_action_command,
  reconfigure_command, shutdown_command, ModuleProtocol, Instance, Supervisor, ProcessBackend,
}
use gisland.Supervisor.Queue.{enqueue, request_shutdown, take_commands, take_events}
use gisland.Supervisor.Work.{Work, state_of}
use gisland.Supervisor.Service.{advance_lifecycle, service_instance}
use gisland.Supervisor.Fleet.{is_at_rest, keys, find_instance, focus, put, handle_start}
use gisland.Supervisor.Commands.{handle_stop, handle_restart, handle_send, handle_send_action}
use gisland.Supervisor.Reconfigure.{handle_reconfigure}
use gisland.Supervisor.Reaping.{reap_instances}

-- 20 ms.
abbrev pub maximum_poll_interval : ℕ
maximum_poll_interval = 20

-- `duration_cast<milliseconds>` of what is left, but at least one.
unfoldable pub remaining_milliseconds : ℕ → ℕ → ℕ
remaining_milliseconds deadline now =
    let remaining = (deadline - now) / 1_000_000 in if remaining == 0 then 1 else remaining

module _ (V : ViewLanguage) where
  pub data Happening : Type 0 where
    requests : Command V → Happening
    turns : ℕ → ℕ → Happening
    drains : Happening
    shuts_down : Happening

module _ {V : ViewLanguage} where
  -- The supervisor before the first request.
  abbrev pub empty_supervisor : Supervisor V
  empty_supervisor = record {
    instances = [];
    pending_reconfiguration_starts = [];
    global_shutdown = false;
    next_process_generation = 0;
    commands = [];
    accepting_commands = true;
    events = [];
  }

  unfoldable pub poll_timeout_from : ℕ → List (String × Instance V) → ℕ → ℕ
  poll_timeout_from timeout [] now = timeout
  poll_timeout_from timeout ((key, i) ∷ instances) now =
      case_option (next_deadline i.lifecycle) (poll_timeout_from timeout instances now) (λ deadline.
        if leb deadline now
        then 0
        else poll_timeout_from (min timeout (remaining_milliseconds deadline now)) instances now)

  unfoldable pub poll_timeout : Supervisor V → ℕ → ℕ
  poll_timeout s now = poll_timeout_from maximum_poll_interval s.instances now

  unfoldable pub all_at_rest : List (String × Instance V) → Bool
  all_at_rest [] = true
  all_at_rest ((key, i) ∷ instances) =
      not (is_some i.process) && is_at_rest (state_of i) && all_at_rest instances

  abbrev pub all_quiescent : Supervisor V → Bool
  all_quiescent s = all_at_rest s.instances

  -- A method on each of the instances of some keys in turn.
  unfoldable pub on_each : (Work V → ℕ → Work V) → Supervisor V → List String → ℕ → Supervisor V
  on_each method s [] now = s
  on_each method s (key ∷ keys) now =
      case_option (find_instance s key) (on_each method s keys now)
        (λ i. on_each method (put s key (method (focus s i) now)) keys now)

  module _ (P : ModuleProtocol V) (B : ProcessBackend) where
    unfoldable pub advance_lifecycles : Supervisor V → ℕ → Supervisor V
    advance_lifecycles s now = on_each (advance_lifecycle P B) s (keys s.instances) now

    unfoldable pub service_instances : Supervisor V → ℕ → Supervisor V
    service_instances s now = on_each (service_instance P B) s (keys s.instances) now

    unfoldable pub stop_each : Supervisor V → List String → ℕ → Supervisor V
    stop_each s [] now = s
    stop_each s (key ∷ keys) now = stop_each (handle_stop P B s key now false) keys now

    unfoldable pub begin_global_shutdown : Supervisor V → ℕ → Supervisor V
    begin_global_shutdown s now =
        if s.global_shutdown
        then s
        else stop_each (record s { global_shutdown = true; pending_reconfiguration_starts = [] })
            (keys s.instances) now

    unfoldable pub process_command : Supervisor V → Command V → ℕ → Supervisor V
    process_command s (start_command request) now = handle_start P B s request now
    process_command s (stop_command key) now = handle_stop P B s key now false
    process_command s (restart_command key generation) now = handle_restart P B s key generation now
    process_command s (send_command key message) now = handle_send P s key message now
    process_command s (send_action_command key generation message) now =
        handle_send_action P s key generation message now
    process_command s (reconfigure_command reconfiguration) now =
        handle_reconfigure P B s reconfiguration now
    process_command s shutdown_command now = begin_global_shutdown s now

    unfoldable pub process_each : Supervisor V → List (Command V) → ℕ → Supervisor V
    process_each s [] now = s
    process_each s (command ∷ commands) now =
        process_each (process_command s command now) commands now

    unfoldable pub process_commands : Supervisor V → ℕ → Supervisor V
    process_commands s now = let (s', commands) = take_commands s in process_each s' commands now

    -- One turn of the loop of `run`, which reads the clock twice, and whether it is the last one.
    unfoldable pub turn : Supervisor V → ℕ → ℕ → Supervisor V × Bool
    turn s asked now =
        let s' =
          reap_instances P B
            (service_instances (advance_lifecycles (process_commands s asked) now) now) now in
        (s', s'.global_shutdown && all_quiescent s')

    -- What a client does, and a turn of the loop, which reads the clock twice.
    unfoldable pub step : Supervisor V → Happening V → Supervisor V
    step s (requests command) = (enqueue s command).0
    step s (turns asked now) = (turn s asked now).0
    step s drains = (take_events s).0
    step s shuts_down = request_shutdown s

    unfoldable pub run : Supervisor V → List (Happening V) → Supervisor V
    run s [] = s
    run s (happening ∷ happenings) = run (step s happening) happenings
