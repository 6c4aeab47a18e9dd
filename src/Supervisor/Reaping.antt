-- ===== src/Supervisor/Reaping.antt =====
-- Processes that are gone, and what takes their place.
use gisland.Prelude.{
  leb, if◌then◌else◌, is_some, case_option, ℕ, zero, ◌+◌, String, Bool, false, not, ◌&&◌, Option,
  none, some, List, [], ◌∷◌, ◌++◌,
}
use gisland.Lifecycle.Types.{
  stopped, backoff, StopCause, clean_exit, failed_exit, signal, io_error, StateTransition, state_eq,
}
use gisland.Runtime.Types.{ViewLanguage, exited, signaled, ExitStatus, process_exited}
use gisland.Supervisor.Types.{ModuleProtocol, Instance, Supervisor, ProcessBackend}
use gisland.Supervisor.Work.{
  Work, twenty_milliseconds, is_live, state_of, id_of, emit_event, emit_error, with_lifecycle,
  emit_context_removal, emit_transitions, begin_failure,
}
use gisland.Supervisor.Fleet.{keys, find_instance, focus, put, start_existing_at}
use gisland.Supervisor.Commands.{forget_restart, halt}
use gisland.Supervisor.Reconfigure.{start_replacement_if_quiescent, start_pending_reconfiguration}
use gisland.Prelude.Int.{ℤ, pos}
use gisland.Lifecycle

-- The cause of a process that exits with a code.
pub exit_cause : ℤ → StopCause
exit_cause (pos zero) = clean_exit
exit_cause code = failed_exit

unfoldable pub stop_cause : ExitStatus → StopCause
unfolding exit_cause
stop_cause status = elim status.kind [ signaled ↦ signal | exited ↦ exit_cause status.code ]

-- Whether the output of a process has ended at least 20 ms ago.
unfoldable pub eof_overdue : Option ℕ → ℕ → Bool
eof_overdue none now = false
eof_overdue (some at) now = leb (at + twenty_milliseconds) now

abbrev pub first_cause : List StateTransition → StopCause → StopCause
first_cause [] cause = cause
first_cause (transition ∷ transitions) cause = transition.cause

module _ {V : ViewLanguage} where
  -- What `reap_instances` does with an instance whose process has exited.
  unfoldable pub reaped : Work V → ℕ → ExitStatus → ℕ → Work V
  reaped w pid status now =
      let removed = emit_context_removal w in
      let (lifecycle, transitions) =
        gisland.Lifecycle.Exit.exited removed.inst.lifecycle (stop_cause status) now in
      let told = emit_event (with_lifecycle removed lifecycle) (
        process_exited (record {
          instance_id = id_of w;
          pid = pid;
          status = status;
          cause = first_cause transitions (stop_cause status);
          at = now;
          generation = removed.inst.generation;
        })) in
      let w' = emit_transitions told transitions in
      record w' { inst = record w'.inst { process = none } }

  -- What it does while the process is there.
  unfoldable pub not_reaped : Work V → ℕ → Work V
  not_reaped w now =
      if eof_overdue w.inst.stdout_eof_at now && is_live (state_of w.inst)
      then begin_failure w io_error now
      else w

  -- The end of `handle_reaped_instance`: under a shutdown nothing waits for a restart.
  unfoldable pub halt_if_shutdown : Supervisor V → String → ℕ → Supervisor V
  halt_if_shutdown s key now = case_option (find_instance s key) s (λ i.
      if s.global_shutdown && state_eq (state_of i) backoff
      then put s key (halt (focus s i) now)
      else s)

  module _ (P : ModuleProtocol V) where
    unfoldable pub handle_reaped_instance :
        ProcessBackend
        → Supervisor V
        → String
        → Work V
        → List String
        → ℕ
        → Supervisor V × List String
    unfolding halt_if_shutdown
    handle_reaped_instance B s key w replacements now =
        if is_some w.inst.replacement_request && state_eq (state_of w.inst) stopped
        then (put s key w, replacements ++ key ∷ [])
        else (let s' =
              if w.inst.restart_after_stop
                && not s.global_shutdown
                && state_eq (state_of w.inst) stopped
              then start_existing_at P B s key (forget_restart w) now
              else put s key w in
            (halt_if_shutdown s' key now, replacements))

    -- What follows the backend's answer to whether a process is gone.
    unfoldable pub reap_with :
        ProcessBackend
        → Supervisor V
        → String
        → Instance V
        → ℕ
        → Option (Option ExitStatus)
        → List String
        → ℕ
        → Supervisor V × List String
    unfolding handle_reaped_instance
    reap_with B s key i pid none replacements now =
        (put s key (begin_failure (emit_error (focus s i) now) io_error now), replacements)
    reap_with B s key i pid (some none) replacements now =
        (put s key (not_reaped (focus s i) now), replacements)
    reap_with B s key i pid (some (some status)) replacements now =
        handle_reaped_instance B s key (reaped (focus s i) pid status now) replacements now

    -- One turn of the loop of `reap_instances`.
    unfoldable pub reap_one :
        ProcessBackend → Supervisor V → String → List String → ℕ → Supervisor V × List String
    unfolding reap_with
    reap_one B s key replacements now =
        case_option (find_instance s key) (s, replacements)
          (λ i.
            case_option i.process (s, replacements)
              (λ pid. reap_with B s key i pid (B.reap pid now) replacements now))

    unfoldable pub reap_each :
        ProcessBackend → Supervisor V → List String → List String → ℕ → Supervisor V × List String
    reap_each B s [] replacements now = (s, replacements)
    reap_each B s (key ∷ keys) replacements now =
        let (s', replacements') = reap_one B s key replacements now in
        reap_each B s' keys replacements' now

    unfoldable pub replace_each : ProcessBackend → Supervisor V → List String → ℕ → Supervisor V
    replace_each B s [] now = s
    replace_each B s (key ∷ keys) now =
        replace_each B (start_replacement_if_quiescent P B s key now) keys now

    unfoldable pub reap_instances : ProcessBackend → Supervisor V → ℕ → Supervisor V
    reap_instances B s now =
        let (s', replacements) = reap_each B s (keys s.instances) [] now in
        start_pending_reconfiguration P B (replace_each B s' replacements now) now
