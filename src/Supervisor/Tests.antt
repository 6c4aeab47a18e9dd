-- ===== src/Supervisor/Tests.antt =====
-- A module that says it is ready and exits later, and the theorems at its supervisor.
use gisland.Prelude.{
  String_discrete, value, ◌≤◌, ◌≡◌, refl, ◌≢◌, ◌↔◌, ◌⊎◌, inl, inr, true, false, [], ◌∷◌, ◌++◌,
  arith,
}
use gisland.Prelude.Maps.{Entries, find}
use gisland.Lifecycle.Types.{stopped, running, backoff, stopping, failed, io_error, unresponsive}
use gisland.Lifecycle.State.{next_deadline, is_failure}
use gisland.Runtime.Types.{stderr_log}
use gisland.Supervisor.Types.{start_command, reconfigure_command, Supervisor, make_instance}
use gisland.Supervisor.Queue.{enqueue, take_commands, emit}
use gisland.Supervisor.Work.{
  state_of, with_process, complete_restart, emit_transition, record_violation,
}
use gisland.Supervisor.Outbound.{
  queued_with, queue_message, queue_or_fail, spawned_with, spawn_instance,
}
use gisland.Supervisor.Inbound.{
  readied_with, or_violation, first_message, parsed_with, handle_protocol_line, handle_lines,
  lines_with, consume_stdout, consume_read, read_loop, service_stdout,
}
use gisland.Supervisor.Service.{
  consume_stderr, stderr_loop, service_stderr, consumed_with, consume_written, write_loop,
  service_stdin, signal_with, send_due_signal, advance_transitions, advance_lifecycle,
  service_instance,
}
use gisland.Supervisor.Negotiation.{ready_error}
use gisland.Supervisor.Fleet.{
  is_active, assign, count_active, started_with, start_new, handle_start,
}
use gisland.Supervisor.Commands.{handle_stop}
use gisland.Supervisor.Reconfigure.{start_while, start_pending_reconfiguration}
use gisland.Supervisor.Reaping.{
  eof_overdue, not_reaped, reap_with, reap_one, reap_each, replace_each, reap_instances,
}
use gisland.Supervisor.Loop.{
  requests, turns, drains, shuts_down, empty_supervisor, poll_timeout, on_each, advance_lifecycles,
  service_instances, begin_global_shutdown, process_command, process_each, process_commands, turn,
  run,
}
use gisland.Supervisor.Evolution.{is_down}
use gisland.Supervisor.Orderly.{IsOrderly}
use gisland.Supervisor.{reconfigure}
use gisland.Supervisor.Events.{critical, emit-critical, IsBounded, emit-IsBounded}
use gisland.Supervisor.Timeouts.{Wakes, poll_timeout-Wakes}
use gisland.Supervisor.Pending.{Settled, start_pending-Settled}
use gisland.Supervisor.Requests.{Accepts, reconfigure_iff}
use gisland.Supervisor.Failures.{handle_stop-stopping}
use gisland.Supervisor.Orderly.Shutdown.{begin_global_shutdown-is_down}
use gisland.Supervisor.Orderly.Loop.{run-empty-IsOrderly}
use gisland.Supervisor.Samples.{
  plain, lines_of_bytes, one_second, clock_request, started, states, tireless, failing_clock,
  failing_supervisor, live_work, live_supervisor, log_line, queued_events, swap_clock,
}
use gisland.Supervisor.Violations.{record_violation-state}
use gisland.Lifecycle.State
use gisland.Lifecycle.Exit
use gisland.Lifecycle
use gisland.Supervisor.Loop
use gisland.Supervisor.Reaping
use gisland.WriteQueue
use gisland.LineBuffer

live_supervisor-IsOrderly : IsOrderly live_supervisor
unfolding count_active is_active make_instance
live_supervisor-IsOrderly = record {
  standing = ((refl, refl), tt);
  distinct = (tt, tt);
  limited = omega arith;
  winding_down = λ shut. absurd (ground (arith, shut));
}

run-empty-IsOrderly_example : IsOrderly (
    run lines_of_bytes one_second empty_supervisor (
      requests (start_command clock_request)
      ∷ turns 0 0
      ∷ turns 1_000_000_000 1_000_000_000
      ∷ shuts_down
      ∷ drains
      ∷ turns 2_000_000_000 2_000_000_000
      ∷ []))
run-empty-IsOrderly_example = run-empty-IsOrderly lines_of_bytes one_second (
    requests (start_command clock_request)
    ∷ turns 0 0
    ∷ turns 1_000_000_000 1_000_000_000
    ∷ shuts_down
    ∷ drains
    ∷ turns 2_000_000_000 2_000_000_000
    ∷ [])

begin_global_shutdown-is_down_example :
    ((begin_global_shutdown lines_of_bytes one_second live_supervisor 5).global_shutdown ≡ true)
    × Entries
        (λ key i. is_down (state_of i) ≡ true)
        (begin_global_shutdown lines_of_bytes one_second live_supervisor 5).instances
begin_global_shutdown-is_down_example =
    begin_global_shutdown-is_down lines_of_bytes one_second live_supervisor 5
      live_supervisor-IsOrderly refl

emit-critical_example :
    critical (emit queued_events (stderr_log log_line))
    ≡ critical queued_events ++ critical {V = plain} (stderr_log log_line ∷ [])
emit-critical_example = emit-critical queued_events (stderr_log log_line)

emit-IsBounded_example : IsBounded (emit queued_events (stderr_log log_line))
emit-IsBounded_example = emit-IsBounded queued_events (stderr_log log_line) (inl (omega arith))

poll_timeout-Wakes_example :
    (poll_timeout live_supervisor 7 ≤ 20)
    × Entries
        (λ key i. Wakes (poll_timeout live_supervisor 7) 7 (next_deadline i.lifecycle))
        live_supervisor.instances
poll_timeout-Wakes_example = poll_timeout-Wakes live_supervisor 7

abbrev pending_start : Supervisor plain
pending_start = record live_supervisor { pending_reconfiguration_starts = clock_request ∷ [] }

start_pending-Settled_example :
    Settled pending_start (start_pending_reconfiguration lines_of_bytes one_second pending_start 9)
start_pending-Settled_example = start_pending-Settled lines_of_bytes one_second pending_start 9

reconfigure_iff_example :
    let (s', result) = reconfigure live_supervisor swap_clock in
    ((result ≡ value tt) ↔ Accepts live_supervisor swap_clock)
    × (result ≡ value tt
        → s' ≡ record live_supervisor { commands = reconfigure_command swap_clock ∷ [] })
    × (result ≢ value tt → s' ≡ live_supervisor)
reconfigure_iff_example = reconfigure_iff live_supervisor swap_clock

record_violation-state_example :
    let i = (record_violation live_work (record { path = "" }) 5).inst in
    (state_of i ≡ stopping) × (i.contexts_removed ≡ true)
unfolding make_instance
record_violation-state_example =
    (record_violation-state live_work (record { path = "" }) 5 0 0 refl (omega arith)
        (omega arith)).1
      (inr (inl (omega arith)))

handle_stop-stopping_example :
    (handle_stop lines_of_bytes one_second failing_supervisor "clock" 5 false ≡ failing_supervisor)
    × (((gisland.Lifecycle.Exit.exited failing_clock.lifecycle io_error 6).0.state ≡ failed)
        ⊎ ((gisland.Lifecycle.Exit.exited failing_clock.lifecycle io_error 6).0.state ≡ backoff))
    × ((gisland.Lifecycle.Exit.exited (gisland.Lifecycle.stop tireless 4).0 io_error 6).0.state
        ≡ stopped)
unfolding find String_discrete is_failure gisland.Lifecycle.State.make
handle_stop-stopping_example =
    handle_stop-stopping lines_of_bytes one_second failing_supervisor "clock" failing_clock tireless
      unresponsive io_error 4 5 6 refl (inr refl) refl (λ e. cc) refl

-- The module that is started runs after the first turn of the loop.
started_runs : states started ≡ ("clock", running) ∷ []
unfolding run gisland.Supervisor.Loop.step turn process_commands process_each process_command
    take_commands enqueue handle_start start_new started_with advance_lifecycles service_instances
    on_each advance_lifecycle advance_transitions send_due_signal signal_with with_process
    service_instance service_stdout read_loop consume_read consume_stdout lines_with handle_lines
    handle_protocol_line parsed_with first_message or_violation readied_with ready_error
    service_stderr stderr_loop consume_stderr service_stdin write_loop consume_written consumed_with
    reap_instances reap_each reap_one reap_with not_reaped replace_each
    start_pending_reconfiguration start_while spawn_instance spawned_with queue_or_fail
    queue_message queued_with emit_transition complete_restart is_active count_active make_instance
    assign find String_discrete gisland.Lifecycle.start gisland.Lifecycle.tick
    gisland.Lifecycle.ready gisland.Lifecycle.due_signal emit gisland.Lifecycle.State.make
    gisland.WriteQueue.push gisland.WriteQueue.valid_record gisland.WriteQueue.make
    gisland.LineBuffer.append gisland.LineBuffer.protocol gisland.LineBuffer.append_loop
    gisland.LineBuffer.append_byte gisland.WriteQueue.wants_write gisland.WriteQueue.consume
    gisland.Supervisor.Reaping.eof_overdue
started_runs = refl
