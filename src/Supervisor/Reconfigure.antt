-- ===== src/Supervisor/Reconfigure.antt =====
-- A reconfiguration stops, starts and replaces instances. A start that finds no room waits for it.
use gisland.Prelude.{
  if◌then◌else◌, is_some, case_option, length, ℕ, zero, suc, String, false, not, ◌||◌, Option, none,
  some, List, [], ◌∷◌, ◌++◌,
}
use gisland.Runtime.Types.{ViewLanguage}
use gisland.Supervisor.Types.{
  ModuleStartRequest, SupervisorReconfiguration, ModuleProtocol, Supervisor, ProcessBackend,
}
use gisland.Supervisor.Work.{Work, state_of}
use gisland.Supervisor.Fleet.{
  is_at_rest, has_room, keys, find_instance, erase_instance, focus, put, fail_restart, handle_start,
}
use gisland.Supervisor.Commands.{handle_stop}
use gisland.Context.Store.{string_eq}

module _ {V : ViewLanguage} where
  abbrev pub reset_replacement : Work V → Work V
  reset_replacement w = record w { inst = record w.inst { replacement_request = none } }

  abbrev pub with_replacement : Work V → ModuleStartRequest V → Work V
  with_replacement w request = record w {
    inst = record w.inst { replacement_request = some request };
  }

  unfoldable pub cancel_restart : Work V → ℕ → Work V
  cancel_restart w now =
      fail_restart (record w { inst = record w.inst { restart_after_stop = false } }) now

  unfoldable pub without_request :
      String → List (ModuleStartRequest V) → List (ModuleStartRequest V)
  without_request key [] = []
  without_request key (request ∷ pending) =
      let rest = without_request key pending in
      if string_eq request.instance_id key then rest else request ∷ rest

  abbrev pub erase_pending_reconfiguration_start : Supervisor V → String → Supervisor V
  erase_pending_reconfiguration_start s key = record s {
    pending_reconfiguration_starts = without_request key s.pending_reconfiguration_starts;
  }

  -- The pending starts with the first one of an instance exchanged, if it has one.
  unfoldable pub replace_pending :
      ModuleStartRequest V → List (ModuleStartRequest V) → Option (List (ModuleStartRequest V))
  replace_pending request [] = none
  replace_pending request (first ∷ pending) =
      let rest = replace_pending request pending in
      if string_eq first.instance_id request.instance_id
      then some (request ∷ pending)
      else elim rest [ none ↦ none | some replaced ↦ some (first ∷ replaced) ]

  abbrev pub add_pending : Supervisor V → ModuleStartRequest V → Supervisor V
  add_pending s request = record s {
    pending_reconfiguration_starts = s.pending_reconfiguration_starts ++ request ∷ [];
  }

  abbrev pub with_pending : Supervisor V → List (ModuleStartRequest V) → Supervisor V
  with_pending s pending = record s { pending_reconfiguration_starts = pending }

  module _ (P : ModuleProtocol V) where
    -- The instance that has to go, once it is there without a process and at rest.
    unfoldable pub start_replacement_if_quiescent :
        ProcessBackend → Supervisor V → String → ℕ → Supervisor V
    start_replacement_if_quiescent B s key now = case_option (find_instance s key) s (λ i.
        case_option i.replacement_request s (λ request.
          if is_some i.process || not (is_at_rest (state_of i))
          then s
          else handle_start P B (erase_instance s key) request now))

    unfoldable pub queue_or_start_reconfiguration :
        ProcessBackend → Supervisor V → ModuleStartRequest V → ℕ → Supervisor V
    queue_or_start_reconfiguration B s request now =
        case_option (replace_pending request s.pending_reconfiguration_starts)
          (if not (has_room s) then add_pending s request else handle_start P B s request now)
          (λ pending. with_pending s pending)

    -- The loop of `start_pending_reconfiguration`, which reads what is pending at each turn, with
    -- a number of turns that it takes at most.
    unfoldable pub start_while : ProcessBackend → ℕ → Supervisor V → ℕ → Supervisor V
    start_while B zero s now = s
    start_while B (suc turns) s now = elim s.pending_reconfiguration_starts [
      | [] ↦ s
      | request ∷ pending ↦
          let rest =
            start_while B turns (handle_start P B (with_pending s pending) request now) now in
          if s.global_shutdown || not (has_room s) then s else rest
    ]

    -- There are as many turns as there are pending starts, which is enough (`Pending`).
    unfoldable pub start_pending_reconfiguration : ProcessBackend → Supervisor V → ℕ → Supervisor V
    start_pending_reconfiguration B s now =
        start_while B (length s.pending_reconfiguration_starts) s now

    -- One turn of the first loop of `handle_reconfigure`.
    unfoldable pub stop_for_reconfiguration :
        ProcessBackend → Supervisor V → String → ℕ → Supervisor V
    stop_for_reconfiguration B s key now =
        let s' = erase_pending_reconfiguration_start s key in
        case_option (find_instance s' key) s' (λ i.
          handle_stop P B (put s' key (reset_replacement (cancel_restart (focus s' i) now))) key now
            false)

    unfoldable pub stop_instances : ProcessBackend → Supervisor V → List String → ℕ → Supervisor V
    stop_instances B s [] now = s
    stop_instances B s (key ∷ keys) now =
        stop_instances B (stop_for_reconfiguration B s key now) keys now

    -- One turn of the second loop.
    unfoldable pub start_or_replace_one :
        ProcessBackend → Supervisor V → ModuleStartRequest V → ℕ → Supervisor V
    start_or_replace_one B s request now =
        let key = request.instance_id in
        case_option (find_instance s key) (queue_or_start_reconfiguration B s request now) (λ i.
          start_replacement_if_quiescent B
            (handle_stop P B (put s key (with_replacement (cancel_restart (focus s i) now) request))
              key now false)
            key now)

    unfoldable pub start_or_replace :
        ProcessBackend → Supervisor V → List (ModuleStartRequest V) → ℕ → Supervisor V
    start_or_replace B s [] now = s
    start_or_replace B s (request ∷ requests) now =
        start_or_replace B (start_or_replace_one B s request now) requests now

    unfoldable pub handle_reconfigure :
        ProcessBackend → Supervisor V → SupervisorReconfiguration V → ℕ → Supervisor V
    handle_reconfigure B s reconfiguration now =
        start_or_replace B (stop_instances B s reconfiguration.stop_instances now)
          reconfiguration.start_or_replace now
