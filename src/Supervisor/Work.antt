-- ===== src/Supervisor/Work.antt =====
-- The private methods of the supervisor that work on one instance. They also emit events and count
-- the generations of the processes: `Work` is what they may change.
use gisland.Prelude.{
  ltb, leb, if◌then◌else◌, length, Expected, value, unexpected, ℕ, ◌+◌, String, Bool, true, false,
  not, ◌&&◌, ◌||◌, Option, none, some, List, [], ◌∷◌, ◌++◌,
}
use gisland.Lifecycle.Types.{
  ModuleState, starting, running, stopping, failed, StopCause, requested, protocol_violation,
  StateTransition, LifecycleError, state_eq,
}
use gisland.Lifecycle.State.{ModuleLifecycle}
use gisland.Runtime.Types.{
  ViewLanguage, ProtocolError, SupervisorEvent, state_changed, violation, contexts_removed,
  supervisor_error, restart_completed,
}
use gisland.Supervisor.Types.{Instance}
use gisland.Supervisor.Queue.{emit}
use gisland.Lifecycle

abbrev pub violation_limit : ℕ
violation_limit = 10

abbrev pub consecutive_violation_limit : ℕ
consecutive_violation_limit = 3

-- 60 s and 20 ms in the unit of the monotonic clock, the nanosecond.
abbrev pub violation_window : ℕ
violation_window = 60_000_000_000

abbrev pub twenty_milliseconds : ℕ
twenty_milliseconds = 20_000_000

-- The loop drops the violations at the front that are older than the window.
unfoldable pub drop_before : ℕ → List ℕ → List ℕ
drop_before now [] = []
drop_before now (first ∷ rest) =
    if ltb (first + violation_window) now then drop_before now rest else first ∷ rest

abbrev pub is_live : ModuleState → Bool
is_live state = state_eq state starting || state_eq state running

abbrev pub is_requested : StopCause → Bool
is_requested requested = true
is_requested _ = false

module _ (V : ViewLanguage) where
  pub record Work : Type 0 where
    pub inst : Instance V
    pub next_process_generation : ℕ
    pub events : List (SupervisorEvent V)

module _ {V : ViewLanguage} where
  abbrev pub state_of : Instance V → ModuleState
  state_of i = i.lifecycle.state

  abbrev pub id_of : Work V → String
  id_of w = w.inst.request.instance_id

  -- Nothing is done for an instance that has no process.
  unfoldable pub with_process : Work V → Option ℕ → (ℕ → Work V) → Work V
  with_process w none serve = w
  with_process w (some pid) serve = serve pid

  abbrev pub emit_event : Work V → SupervisorEvent V → Work V
  emit_event w event = record w { events = emit w.events event }

  abbrev pub emit_error : Work V → ℕ → Work V
  emit_error w now = emit_event w (supervisor_error (record { instance_id = id_of w; at = now }))

  abbrev pub with_lifecycle : Work V → ModuleLifecycle → Work V
  with_lifecycle w lifecycle = record w { inst = record w.inst { lifecycle = lifecycle } }

  unfoldable pub emit_context_removal : Work V → Work V
  emit_context_removal w =
      if w.inst.contexts_removed
      then w
      else emit_event (record w { inst = record w.inst { contexts_removed = true } })
          (contexts_removed (id_of w) w.inst.generation)

  unfoldable pub complete_restart : Work V → Bool → ModuleState → ℕ → Work V
  complete_restart w succeeded state now = elim w.inst.restart_generation [
    | none ↦ w
    | some generation ↦
        emit_event (record w { inst = record w.inst { restart_generation = none } })
          (restart_completed (record {
            instance_id = id_of w;
            generation = generation;
            succeeded = succeeded;
            state = state;
            at = now;
          }))
  ]

  unfoldable pub emit_transition : Work V → StateTransition → Work V
  unfolding complete_restart
  emit_transition w transition =
      let w' = emit_event w (state_changed (id_of w) transition) in
      if state_eq transition.to running
      then complete_restart w' true transition.to transition.at
      else if state_eq transition.to failed
          || state_eq transition.from starting && not (is_requested transition.cause)
      then complete_restart w' false transition.to transition.at
      else w'

  unfoldable pub emit_transitions : Work V → List StateTransition → Work V
  emit_transitions w [] = w
  emit_transitions w (transition ∷ transitions) =
      emit_transitions (emit_transition w transition) transitions

  -- What `begin_failure` does with the answer of the lifecycle.
  unfoldable pub failed_with :
      Work V → ModuleLifecycle × Expected StateTransition LifecycleError → ℕ → Work V
  failed_with w (lifecycle, value transition) now =
      emit_transition (with_lifecycle w lifecycle) transition
  failed_with w (lifecycle, unexpected error) now = emit_error (with_lifecycle w lifecycle) now

  unfoldable pub begin_failure : Work V → StopCause → ℕ → Work V
  unfolding failed_with
  begin_failure w cause now =
      if not (is_live (state_of w.inst))
      then w
      else (let w' = emit_context_removal w in
          failed_with w' (gisland.Lifecycle.fail w'.inst.lifecycle cause now) now)

  -- The violation is counted before the limits are compared.
  abbrev pub count_violation : Instance V → ℕ → Instance V
  count_violation i now = record i {
    violation_times = drop_before now i.violation_times ++ now ∷ [];
    consecutive_violations = i.consecutive_violations + 1;
  }

  abbrev pub violates_limit : Instance V → Bool
  violates_limit i =
      state_eq (state_of i) starting
      || leb consecutive_violation_limit i.consecutive_violations
      || leb violation_limit (length i.violation_times)

  -- The violation with its counts, as the client hears of it.
  abbrev pub tell_violation : Work V → ProtocolError → ℕ → Work V
  tell_violation w error now =
      let i = count_violation w.inst now in
      emit_event (record w { inst = i })
        (violation (record {
          instance_id = id_of w;
          error = error;
          consecutive = i.consecutive_violations;
          rolling = length i.violation_times;
          at = now;
        }))

  unfoldable pub record_violation : Work V → ProtocolError → ℕ → Work V
  record_violation w error now =
      if state_eq (state_of w.inst) stopping
      then w
      else (let w' = tell_violation w error now in
          if violates_limit w'.inst then begin_failure w' protocol_violation now else w')
