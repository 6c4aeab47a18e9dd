-- ===== src/Supervisor/Orderly/Loop.antt =====
-- One turn of the supervisor's loop, whatever its clients ask and its processes do.
use gisland.Prelude.{
  leb, case_option-elim, if-elim, length, ℕ, String, false, not, List, [], ◌∷◌, arith,
}
use gisland.Runtime.Types.{ViewLanguage}
use gisland.Supervisor.Types.{
  Command, start_command, stop_command, restart_command, send_command, send_action_command,
  reconfigure_command, shutdown_command, ModuleProtocol, Supervisor, ProcessBackend,
}
use gisland.Supervisor.Queue.{
  command_capacity, enqueue, request_shutdown, take_commands, take_events,
}
use gisland.Supervisor.Work.{Work}
use gisland.Supervisor.Service.{advance_lifecycle, service_instance}
use gisland.Supervisor.Fleet.{count_active, keys, find_instance, focus, put}
use gisland.Supervisor.Loop.{
  Happening, requests, turns, drains, shuts_down, empty_supervisor, on_each, advance_lifecycles,
  service_instances, process_command, process_each, process_commands, turn, step, run,
}
use gisland.Supervisor.Evolution.{Evolves}
use gisland.Supervisor.Ticking.{advance_lifecycle-Evolves, service_instance-Evolves}
use gisland.Supervisor.Orderly.{IsOrderly, Evolves-MayBecome, put-IsOrderly}
use gisland.Supervisor.Orderly.Starts.{handle_start-IsOrderly}
use gisland.Supervisor.Orderly.Commands.{
  handle_stop-IsOrderly, handle_restart-IsOrderly, handle_send-IsOrderly,
  handle_send_action-IsOrderly,
}
use gisland.Supervisor.Orderly.Reconfigure.{handle_reconfigure-IsOrderly}
use gisland.Supervisor.Orderly.Reaping.{reap_instances-IsOrderly}
use gisland.Supervisor.{Answer}
use gisland.Supervisor.Orderly.Shutdown.{begin_global_shutdown-IsOrderly}

module _ {V : ViewLanguage} (P : ModuleProtocol V) (B : ProcessBackend) where
  on_each-IsOrderly :
      (method : Work V → ℕ → Work V)
      → ((w : Work V) (now : ℕ) → Evolves w.inst (method w now).inst)
      → (s : Supervisor V) (keys : List String) (now : ℕ) → IsOrderly s
      → IsOrderly (on_each method s keys now)
  unfolding on_each
  on_each-IsOrderly method e s [] now h = h
  on_each-IsOrderly method e s (key ∷ keys) now h =
      case_option-elim IsOrderly (find_instance s key) _ _
        (λ absent. on_each-IsOrderly method e s keys now h)
        (λ i found. on_each-IsOrderly method e (put s key (method (focus s i) now)) keys now (
          put-IsOrderly s key i (method (focus s i) now) found
            (Evolves-MayBecome s (e (focus s i) now)) h))

  process_command-IsOrderly :
      (s : Supervisor V) (command : Command V) (now : ℕ)
      → IsOrderly s
      → IsOrderly (process_command P B s command now)
  unfolding process_command
  process_command-IsOrderly s (start_command request) now h =
      handle_start-IsOrderly P B s request now h
  process_command-IsOrderly s (stop_command key) now h = handle_stop-IsOrderly P B s key now false h
  process_command-IsOrderly s (restart_command key generation) now h =
      handle_restart-IsOrderly P B s key generation now h
  process_command-IsOrderly s (send_command key message) now h =
      handle_send-IsOrderly P s key message now h
  process_command-IsOrderly s (send_action_command key generation message) now h =
      handle_send_action-IsOrderly P s key generation message now h
  process_command-IsOrderly s (reconfigure_command reconfiguration) now h =
      handle_reconfigure-IsOrderly P B s reconfiguration now h
  process_command-IsOrderly s shutdown_command now h = begin_global_shutdown-IsOrderly P B s now h

  process_each-IsOrderly :
      (s : Supervisor V) (commands : List (Command V)) (now : ℕ)
      → IsOrderly s
      → IsOrderly (process_each P B s commands now)
  unfolding process_each
  process_each-IsOrderly s [] now h = h
  process_each-IsOrderly s (command ∷ commands) now h =
      process_each-IsOrderly (process_command P B s command now) commands now
        (process_command-IsOrderly s command now h)

  process_commands-IsOrderly :
      (s : Supervisor V) (now : ℕ) → IsOrderly s → IsOrderly (process_commands P B s now)
  unfolding process_commands take_commands
  process_commands-IsOrderly s now h =
      process_each-IsOrderly (record s { commands = [] }) s.commands now
        (record {
          standing = h.standing;
          distinct = h.distinct;
          limited = h.limited;
          winding_down = h.winding_down;
        })

  -- A turn of the loop keeps the supervisor orderly.
  turn-IsOrderly :
      (s : Supervisor V) (asked now : ℕ) → IsOrderly s → IsOrderly (turn P B s asked now).0
  unfolding turn advance_lifecycles service_instances
  turn-IsOrderly s asked now h =
      let commanded = process_commands P B s asked in
      let advanced = on_each (advance_lifecycle P B) commanded (keys commanded.instances) now in
      let served = on_each (service_instance P B) advanced (keys advanced.instances) now in
      reap_instances-IsOrderly P B served now (
        on_each-IsOrderly (service_instance P B) (service_instance-Evolves P B) advanced
          (keys advanced.instances) now
          (on_each-IsOrderly (advance_lifecycle P B) (advance_lifecycle-Evolves P B) commanded
            (keys commanded.instances) now (process_commands-IsOrderly s asked h)))

  step-IsOrderly :
      (s : Supervisor V) (happening : Happening V) → IsOrderly s → IsOrderly (step P B s happening)
  unfolding step enqueue take_events request_shutdown
  step-IsOrderly s (requests command) h =
      if-elim (λ (r : Answer V). IsOrderly r.0) (not s.accepting_commands) _ _ (λ late. h)
        (λ accepting.
          if-elim (λ (r : Answer V). IsOrderly r.0) (leb command_capacity (length s.commands)) _ _
            (λ full. h)
            (λ room. record {
              standing = h.standing;
              distinct = h.distinct;
              limited = h.limited;
              winding_down = h.winding_down;
            }))
  step-IsOrderly s (turns asked now) h = turn-IsOrderly s asked now h
  step-IsOrderly s drains h = record {
    standing = h.standing;
    distinct = h.distinct;
    limited = h.limited;
    winding_down = h.winding_down;
  }
  step-IsOrderly s shuts_down h = record {
    standing = h.standing;
    distinct = h.distinct;
    limited = h.limited;
    winding_down = h.winding_down;
  }

  run-IsOrderly :
      (s : Supervisor V) (happenings : List (Happening V))
      → IsOrderly s
      → IsOrderly (run P B s happenings)
  unfolding run
  run-IsOrderly s [] h = h
  run-IsOrderly s (happening ∷ happenings) h =
      run-IsOrderly (step P B s happening) happenings (step-IsOrderly s happening h)

  -- From the empty supervisor on, whatever is requested, whatever the backend and the protocol
  -- answer and at whatever times the loop turns: at most 32 instances are active, each stands under
  -- its own identifier and no other does, the contexts of one that is neither starting nor running
  -- have been removed, one that is running has said that it is ready, and during a shutdown each is
  -- stopping, stopped or failed.
  pub run-empty-IsOrderly :
      (happenings : List (Happening V)) → IsOrderly (run P B empty_supervisor happenings)
  unfolding count_active
  run-empty-IsOrderly happenings =
      run-IsOrderly empty_supervisor happenings
        (record { standing = tt; distinct = tt; limited = ground arith; winding_down = λ shut. tt })
