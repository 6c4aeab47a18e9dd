-- ===== src/Supervisor/Fleet.antt =====
-- The supervisor's instances together: how many are active, and how one is started.
use gisland.Prelude.{
  ltb, if◌then◌else◌, case_option, String_discrete, Expected, value, unexpected, ℕ, ◌+◌, String,
  Bool, false, not, ◌||◌, Option, List, [], ◌∷◌,
}
use gisland.Prelude.Maps.{find, erase}
use gisland.Lifecycle.Types.{
  ModuleState, stopped, starting, running, backoff, stopping, failed, StateTransition,
  LifecycleError, state_eq,
}
use gisland.Lifecycle.State.{ModuleLifecycle}
use gisland.Context.Store.{string_eq}
use gisland.Runtime.Types.{ViewLanguage, SupervisorEvent, supervisor_error}
use gisland.Supervisor.Types.{
  ModuleStartRequest, ModuleProtocol, Instance, Supervisor, ProcessBackend, make_instance,
}
use gisland.Supervisor.Queue.{emit}
use gisland.Supervisor.Work.{
  Work, state_of, emit_error, with_lifecycle, complete_restart, emit_transition,
}
use gisland.Supervisor.Outbound.{spawn_instance}
use gisland.Lifecycle
use gisland.Lifecycle.State

abbrev pub maximum_instances : ℕ
maximum_instances = 32

unfoldable pub is_active : ModuleState → Bool
is_active state =
    state_eq state starting
    || state_eq state running
    || state_eq state backoff
    || state_eq state stopping

-- A process, or none, and an instance that nothing more can happen to by itself.
abbrev pub is_at_rest : ModuleState → Bool
is_at_rest state = state_eq state stopped || state_eq state failed

-- The entry of a key gets another value and keeps its place.
unfoldable pub assign {ℓ} : {V : Type ℓ} → String → V → List (String × V) → List (String × V)
assign key v [] = []
assign key v ((k, u) ∷ m) =
    let rest = assign key v m in if string_eq k key then (k, v) ∷ m else (k, u) ∷ rest

module _ {V : ViewLanguage} where
  -- 1 for an active instance.
  abbrev pub activity : Instance V → ℕ
  activity i = if is_active (state_of i) then 1 else 0

  unfoldable pub count_active : List (String × Instance V) → ℕ
  count_active [] = 0
  count_active ((key, i) ∷ instances) = activity i + count_active instances

  abbrev pub active_instance_count : Supervisor V → ℕ
  active_instance_count s = count_active s.instances

  abbrev pub has_room : Supervisor V → Bool
  has_room s = ltb (active_instance_count s) maximum_instances

  abbrev pub keys : List (String × Instance V) → List String
  keys [] = []
  keys ((key, i) ∷ instances) = key ∷ keys instances

  abbrev pub find_instance : Supervisor V → String → Option (Instance V)
  find_instance s key = find String_discrete key s.instances

  abbrev pub erase_instance : Supervisor V → String → Supervisor V
  erase_instance s key = record s { instances = erase String_discrete key s.instances }

  -- What a method on one instance may change.
  abbrev pub focus : Supervisor V → Instance V → Work V
  focus s i = record {
    inst = i;
    next_process_generation = s.next_process_generation;
    events = s.events;
  }

  abbrev pub with_instances : Supervisor V → Work V → List (String × Instance V) → Supervisor V
  with_instances s w instances = record s {
    instances = instances;
    next_process_generation = w.next_process_generation;
    events = w.events;
  }

  abbrev pub put : Supervisor V → String → Work V → Supervisor V
  put s key w = with_instances s w (assign key w.inst s.instances)

  abbrev pub emit_in : Supervisor V → SupervisorEvent V → Supervisor V
  emit_in s event = record s { events = emit s.events event }

  abbrev pub error_in : Supervisor V → String → ℕ → Supervisor V
  error_in s key now = emit_in s (supervisor_error (record { instance_id = key; at = now }))

  abbrev pub fail_restart : Work V → ℕ → Work V
  fail_restart w now = complete_restart w false (state_of w.inst) now

  module _ (P : ModuleProtocol V) where
    -- What `start_existing` does with the answer of the lifecycle.
    unfoldable pub restarted_with :
        ProcessBackend
        → Work V
        → ModuleLifecycle × Expected StateTransition LifecycleError
        → ℕ
        → Work V
    restarted_with B w (lifecycle, unexpected error) now =
        fail_restart (emit_error (with_lifecycle w lifecycle) now) now
    restarted_with B w (lifecycle, value transition) now =
        spawn_instance P B (emit_transition (with_lifecycle w lifecycle) transition) now

    unfoldable pub start_existing : ProcessBackend → Supervisor V → Instance V → ℕ → Work V
    unfolding restarted_with
    start_existing B s i now =
        let w = focus s i in
        if s.global_shutdown
        then fail_restart w now
        else if not (has_room s)
        then fail_restart (emit_error w now) now
        else restarted_with B w (gisland.Lifecycle.start i.lifecycle now) now

    -- `start_existing` on the instance of a key, as it was left.
    unfoldable pub start_existing_at :
        ProcessBackend → Supervisor V → String → Work V → ℕ → Supervisor V
    start_existing_at B s key w now =
        let s' = put s key w in put s' key (start_existing B s' w.inst now)

    -- The end of `handle_start`, with the answer of the lifecycle of the new instance.
    unfoldable pub started_with :
        ProcessBackend
        → Supervisor V
        → ModuleStartRequest V
        → ModuleLifecycle × Expected StateTransition LifecycleError
        → ℕ
        → Supervisor V
    started_with B s request (lifecycle, unexpected error) now = error_in s request.instance_id now
    started_with B s request (lifecycle, value transition) now =
        let i = record (make_instance V request) { lifecycle = lifecycle } in
        let w = spawn_instance P B (emit_transition (focus s i) transition) now in
        with_instances s w ((request.instance_id, w.inst) ∷ s.instances)

    -- `handle_start` once no instance has the identifier of the request.
    unfoldable pub start_new :
        ProcessBackend → Supervisor V → ModuleStartRequest V → ℕ → Supervisor V
    unfolding started_with
    start_new B s request now =
        if not (has_room s)
        then error_in s request.instance_id now
        else started_with B s request
            (gisland.Lifecycle.start (gisland.Lifecycle.State.make request.restart request.timings)
              now)
            now

    unfoldable pub handle_start :
        ProcessBackend → Supervisor V → ModuleStartRequest V → ℕ → Supervisor V
    unfolding start_new
    handle_start B s request now =
        if s.global_shutdown
        then error_in s request.instance_id now
        else case_option (find_instance s request.instance_id) (start_new B s request now) (λ i.
          if is_active (state_of i)
          then error_in s request.instance_id now
          else start_new B (erase_instance s request.instance_id) request now)
