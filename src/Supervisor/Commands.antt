-- ===== src/Supervisor/Commands.antt =====
-- The commands that stop, restart and address one instance.
use gisland.Prelude.{
  ◌==◌, if◌then◌else◌, is_some, case_option, Expected, value, unexpected, ℕ, String, Bool, true,
  false, not, ◌&&◌, ◌||◌, Option, none, some,
}
use gisland.Lifecycle.Types.{
  ModuleState, stopped, running, backoff, stopping, failed, unresponsive, StateTransition,
  LifecycleError, state_eq,
}
use gisland.Lifecycle.State.{ModuleLifecycle}
use gisland.WriteQueue.{WriteQueueError, WriteQueue, push}
use gisland.Runtime.Types.{
  ViewLanguage, unknown_instance, ActionDeliveryError, generation_mismatch, unavailable,
  queue_saturated, serialization_failed, SupervisorEvent, restart_completed, action_delivery,
}
use gisland.Supervisor.Types.{
  ActionMessage, CoreMessage, action_message, visibility_message, ModuleProtocol, Supervisor,
  ProcessBackend,
}
use gisland.Supervisor.Work.{
  Work, is_live, state_of, emit_event, emit_error, with_lifecycle, emit_context_removal,
  emit_transition, begin_failure,
}
use gisland.Supervisor.Outbound.{queue_shutdown, queue_or_fail}
use gisland.Supervisor.Inbound.{with_inst}
use gisland.Supervisor.Fleet.{
  is_at_rest, find_instance, focus, put, emit_in, error_in, start_existing_at,
}
use gisland.Lifecycle

abbrev pub value_or_zero : Option ℕ → ℕ
value_or_zero none = 0
value_or_zero (some n) = n

module _ {V : ViewLanguage} where
  -- The answer of the lifecycle to `stop`, and whether it is now stopped.
  unfoldable pub stopped_with :
      Work V → ModuleLifecycle × Expected StateTransition LifecycleError → ℕ → Work V × Bool
  stopped_with w (lifecycle, unexpected error) now =
      (emit_error (with_lifecycle w lifecycle) now, false)
  stopped_with w (lifecycle, value transition) now =
      (emit_transition (with_lifecycle w lifecycle) transition, state_eq transition.to stopped)

  abbrev pub wanting_restart : Work V → Bool → Work V
  wanting_restart w restart =
      if restart then record w { inst = record w.inst { restart_after_stop = true } } else w

  abbrev pub forget_restart : Work V → Work V
  forget_restart w = record w { inst = record w.inst { restart_after_stop = false } }

  abbrev pub reset_for_restart : Work V → ℕ → Work V
  reset_for_restart w generation = record w {
    inst = record w.inst {
      restart_generation = some generation;
      lifecycle = gisland.Lifecycle.reset_for_explicit_restart w.inst.lifecycle;
    };
  }

  unfoldable pub halted_with :
      Work V → ModuleLifecycle × Expected StateTransition LifecycleError → Work V
  halted_with w (lifecycle, unexpected error) = with_lifecycle w lifecycle
  halted_with w (lifecycle, value transition) =
      emit_transition (with_lifecycle w lifecycle) transition

  -- The stop of an instance that waits for its restart.
  unfoldable pub halt : Work V → ℕ → Work V
  unfolding halted_with
  halt w now = halted_with w (gisland.Lifecycle.stop w.inst.lifecycle now)

  abbrev pub refused : String → ℕ → ModuleState → ℕ → SupervisorEvent V
  refused key generation state now = restart_completed (record {
    instance_id = key;
    generation = generation;
    succeeded = false;
    state = state;
    at = now;
  })

  abbrev pub is_for_module : CoreMessage V → Bool
  is_for_module (action_message _) = true
  is_for_module (visibility_message _) = true
  is_for_module _ = false

  -- The answer of the write queue to the record of an action, as the client hears of it.
  unfoldable pub delivered_with :
      Work V
      → (Option ActionDeliveryError → SupervisorEvent V)
      → WriteQueue × Expected (Unit {0}) WriteQueueError
      → ℕ
      → Work V
  delivered_with w report (writes, value _) now =
      emit_event (with_inst w (record w.inst { writes = writes })) (report none)
  delivered_with w report (writes, unexpected error) now =
      begin_failure
        (emit_event (with_inst w (record w.inst { writes = writes }))
          (report (some queue_saturated)))
        unresponsive now

  -- The invocation has an identifier: `send_action` enqueues no other.
  abbrev pub delivery :
      String → ℕ → ActionMessage V → ℕ → Option ActionDeliveryError → SupervisorEvent V
  delivery key generation message now error = action_delivery (record {
    instance_id = key;
    generation = generation;
    invocation_id = value_or_zero message.invocation_id;
    succeeded = not (is_some error);
    error = error;
    at = now;
  })

module _ {V : ViewLanguage} (P : ModuleProtocol V) where
  open P use {serialize_core_message}

  -- `handle_stop` of an instance that is neither stopping nor stopped.
  unfoldable pub stop_instance : Work V → ℕ → Bool → Work V × Bool
  unfolding stopped_with
  stop_instance w now restart =
      let told =
        if is_live (state_of w.inst)
        then emit_context_removal
            (queue_shutdown P w (if restart then "restart" else "requested-stop") now)
        else w in
      stopped_with told (gisland.Lifecycle.stop told.inst.lifecycle now) now

  -- What follows the stop of an instance.
  unfoldable pub after_stop :
      ProcessBackend → Supervisor V → String → Work V × Bool → ℕ → Supervisor V
  after_stop B s key (w, now_stopped) now =
      if now_stopped && w.inst.restart_after_stop && not s.global_shutdown
      then start_existing_at P B s key (forget_restart w) now
      else put s key w

  unfoldable pub handle_stop : ProcessBackend → Supervisor V → String → ℕ → Bool → Supervisor V
  unfolding after_stop
  handle_stop B s key now restart = case_option (find_instance s key) (error_in s key now) (λ i.
      let w = wanting_restart (focus s i) restart in
      if state_eq (state_of i) stopping
      then put s key w
      else if state_eq (state_of i) stopped
      then (if restart && not s.global_shutdown
          then start_existing_at P B s key w now
          else put s key w)
      else after_stop B s key (stop_instance w now restart) now)

  unfoldable pub handle_restart : ProcessBackend → Supervisor V → String → ℕ → ℕ → Supervisor V
  handle_restart B s key generation now =
      case_option (find_instance s key)
        (emit_in (error_in s key now) (refused key generation failed now))
        (λ i.
          if is_some i.restart_generation
          then emit_in s (refused key generation (state_of i) now)
          else (let w = reset_for_restart (focus s i) generation in
              if is_at_rest (state_of w.inst)
              then start_existing_at P B s key w now
              else if state_eq (state_of w.inst) backoff
              then start_existing_at P B s key (halt w now) now
              else handle_stop B (put s key w) key now true))

  unfoldable pub handle_send : Supervisor V → String → CoreMessage V → ℕ → Supervisor V
  handle_send s key message now = case_option (find_instance s key) (error_in s key now) (λ i.
      if not (state_eq (state_of i) running) || not (is_for_module message)
      then error_in s key now
      else put s key (queue_or_fail P (focus s i) message now))

  unfoldable pub handle_send_action : Supervisor V → String → ℕ → ActionMessage V → ℕ → Supervisor V
  unfolding delivered_with
  handle_send_action s key generation message now =
      let report = delivery key generation message now in
      case_option (find_instance s key) (emit_in s (report (some unknown_instance))) (λ i.
        if not (i.generation == generation)
        then emit_in s (report (some generation_mismatch))
        else if not (state_eq (state_of i) running) || not (is_some i.process)
        then emit_in s (report (some unavailable))
        else case_option (serialize_core_message (action_message message))
            (emit_in s (report (some serialization_failed)))
            (λ bytes. put s key (delivered_with (focus s i) report (push i.writes bytes) now)))
