-- ===== src/Runtime/Waiting.antt =====
-- What the coordinator believes of an instance whose process has started but is not ready.
use gisland.Prelude.{
  Bool-cases, String_discrete, All, value, unexpected, ℕ, String, ◌≡◌, refl, sym, ap, ◌∙◌, ◌≢◌, inl,
  inr, true, false, Option, none, some, List, [], ◌∷◌, arith,
}
use gisland.Prelude.Maps.{find, find-erase, find-insert_or_assign}
use gisland.Runtime.Types.{
  ProtocolVersion, ViewLanguage, unavailable_instance, ready_message, SupervisorEvent,
  state_changed, process_started, module_message, stderr_log, violation, contexts_removed,
  process_exited, supervisor_error, restart_completed, action_delivery,
}
use gisland.Runtime.State.{RuntimeCoordinator}
use gisland.Runtime.Messages.{is_stale, consume_message, remove_contexts, consume}
use gisland.Runtime.Results.{configured_find, ready_target}
use gisland.Runtime.{action_target}
use gisland.Runtime.Unready.{says_ready, IsWaiting, consume_message-IsWaiting}

ready_target-unnegotiated :
    (instance_id : String) (ready : Option (Unit {0})) (generation : Option ℕ)
    → ready_target instance_id ready generation none
      ≡ unexpected (record { code = unavailable_instance; instance_id = instance_id })
ready_target-unnegotiated instance_id none generation = refl
ready_target-unnegotiated instance_id (some _) none = refl
ready_target-unnegotiated instance_id (some _) (some _) = refl

module _ {V : ViewLanguage} where
  -- An event by which a process of an instance neither starts, says that it is ready, nor goes.
  -- Another process of the instance, of another generation, may say that it is ready or go.
  abbrev pub LeavesWaiting : String → ℕ → SupervisorEvent V → Type 0
  LeavesWaiting instance_id generation (process_started started _) = started ≢ instance_id
  LeavesWaiting instance_id generation (module_message event) =
      event.instance_id ≡ instance_id
      → event.generation ≡ generation
      → says_ready event.message ≡ false
  LeavesWaiting instance_id generation (contexts_removed removed removed_generation) =
      removed ≡ instance_id → removed_generation ≢ generation
  LeavesWaiting instance_id generation _ = Unit {0}

  consume-IsWaiting :
      (instance_id : String) (generation : ℕ) (r : RuntimeCoordinator V) (event : SupervisorEvent V)
      → LeavesWaiting instance_id generation event
      → IsWaiting instance_id generation r
      → IsWaiting instance_id generation (consume r event).0
  unfolding consume
  consume-IsWaiting instance_id generation r (module_message event) h waits =
      elim (Bool-cases (
        is_stale (find String_discrete event.instance_id r.process_generations) event.generation)) [
          | inl stale ↦ rw (consume, stale) waits
          | inr known ↦
              rw (consume, known)
                (consume_message-IsWaiting instance_id generation r event
                  (λ same. h same (same_generation event.instance_id event.generation same known))
                  waits)
        ]
    where
      same_generation :
          (other : String) (sent : ℕ)
          → other ≡ instance_id
          → is_stale (find String_discrete other r.process_generations) sent ≡ false
          → sent ≡ generation
      same_generation other sent same fresh =
          let here : find String_discrete other r.process_generations ≡ some generation =
            ap (λ k. find String_discrete k r.process_generations) same ∙ waits.1 in
          let tested : is_stale (some generation) sent ≡ false =
            ap (λ o. is_stale o sent) (sym here) ∙ fresh in
          ground (arith, tested)
  consume-IsWaiting instance_id generation r (process_started started n) h waits = (
    waits.0,
    ground (
      arith,
      h,
      waits,
      find-insert_or_assign String_discrete started instance_id n r.process_generations,
    ),
    ground (arith, h, waits, find-erase String_discrete started instance_id r.negotiated_protocols),
  )
  consume-IsWaiting instance_id generation r (contexts_removed removed n) h waits =
      elim (Bool-cases (is_stale (find String_discrete removed r.process_generations) n)) [
        | inl stale ↦ rw (consume, stale) waits
        | inr known ↦
            let other : removed ≢ instance_id = λ same. h same (
              let here : find String_discrete removed r.process_generations ≡ some generation =
                ap (λ k. find String_discrete k r.process_generations) same ∙ waits.1 in
              let tested : is_stale (some generation) n ≡ false =
                ap (λ o. is_stale o n) (sym here) ∙ known in
              ground (arith, tested)) in
            rw (consume, known)
              (unfold remove_contexts in
                (
                  waits.0,
                  ground (
                    arith,
                    other,
                    waits,
                    find-erase String_discrete removed instance_id r.process_generations,
                  ),
                  ground (
                    arith,
                    other,
                    waits,
                    find-erase String_discrete removed instance_id r.negotiated_protocols,
                  ),
                ))
      ]
  consume-IsWaiting instance_id generation r (state_changed _ _) h waits = waits
  consume-IsWaiting instance_id generation r (stderr_log _) h waits = waits
  consume-IsWaiting instance_id generation r (violation _) h waits = waits
  consume-IsWaiting instance_id generation r (process_exited _) h waits = waits
  consume-IsWaiting instance_id generation r (supervisor_error _) h waits = waits
  consume-IsWaiting instance_id generation r (restart_completed _) h waits = waits
  consume-IsWaiting instance_id generation r (action_delivery _) h waits = waits

  -- The events one after another.
  abbrev pub consume_each : RuntimeCoordinator V → List (SupervisorEvent V) → RuntimeCoordinator V
  consume_each r [] = r
  consume_each r (event ∷ events) = consume_each (consume r event).0 events

  consume_each-IsWaiting :
      (instance_id : String) (generation : ℕ) (r : RuntimeCoordinator V)
      (events : List (SupervisorEvent V))
      → All (LeavesWaiting instance_id generation) events
      → IsWaiting instance_id generation r
      → IsWaiting instance_id generation (consume_each r events)
  consume_each-IsWaiting instance_id generation r [] h waits = waits
  consume_each-IsWaiting instance_id generation r (event ∷ events) h waits =
      consume_each-IsWaiting instance_id generation (consume r event).0 events h.1
        (consume-IsWaiting instance_id generation r event h.0 waits)

  started-IsWaiting :
      (r : RuntimeCoordinator V) (instance_id : String) (generation : ℕ)
      → configured_find instance_id r.configured_instances ≡ some true
      → IsWaiting instance_id generation (consume r (process_started instance_id generation)).0
  unfolding consume
  started-IsWaiting r instance_id generation h = (
    h,
    ground (
      arith,
      find-insert_or_assign String_discrete instance_id instance_id generation
          r.process_generations,
    ),
    ground (arith, find-erase String_discrete instance_id instance_id r.negotiated_protocols),
  )

  waiting-action_target :
      (r : RuntimeCoordinator V) (instance_id : String) (generation : ℕ)
      → IsWaiting instance_id generation r
      → action_target r instance_id
        ≡ unexpected (record { code = unavailable_instance; instance_id = instance_id })
  unfolding action_target
  waiting-action_target r instance_id generation waits = ground (
    arith,
    waits,
    ready_target-unnegotiated instance_id (find String_discrete instance_id r.ready_instances)
        (some generation),
  )

  says_ready-action_target :
      (r : RuntimeCoordinator V) (instance_id : String) (generation at : ℕ)
      (protocol : ProtocolVersion) (capabilities : List String)
      → IsWaiting instance_id generation r
      → action_target
          (consume r (
            module_message (record {
              instance_id = instance_id;
              message = ready_message protocol capabilities;
              at = at;
              generation = generation;
            }))).0
          instance_id
        ≡ value (record { generation = generation; protocol = protocol })
  unfolding consume consume_message action_target
  says_ready-action_target r instance_id generation at protocol capabilities waits = ground (
    arith,
    waits,
    find-insert_or_assign String_discrete instance_id instance_id tt r.ready_instances,
    find-insert_or_assign String_discrete instance_id instance_id generation r.process_generations,
    find-insert_or_assign String_discrete instance_id instance_id protocol r.negotiated_protocols,
  )

  -- A known and enabled instance can not be acted on from the start of its process until that
  -- process says that it is ready, whatever events come in between but another start of a process
  -- of the instance and the removal of that process; a process of another generation that says it
  -- is ready does not count. Then the target of an action is that process with the protocol it
  -- named.
  pub ready-action_target :
      (r : RuntimeCoordinator V) (instance_id : String) (generation at : ℕ)
      (protocol : ProtocolVersion) (capabilities : List String) (events : List (SupervisorEvent V))
      → configured_find instance_id r.configured_instances ≡ some true
      → All (LeavesWaiting instance_id generation) events
      → let waiting = consume_each (consume r (process_started instance_id generation)).0 events in
        let ready =
          (consume waiting (
            module_message (record {
              instance_id = instance_id;
              message = ready_message protocol capabilities;
              at = at;
              generation = generation;
            }))).0 in
        (action_target waiting instance_id
          ≡ unexpected (record { code = unavailable_instance; instance_id = instance_id }))
        × (action_target ready instance_id
            ≡ value (record { generation = generation; protocol = protocol }))
  ready-action_target r instance_id generation at protocol capabilities events h between = (
    waiting-action_target _ instance_id generation waits,
    says_ready-action_target _ instance_id generation at protocol capabilities waits,
  )
    where
      waits :
          IsWaiting instance_id generation
            (consume_each (consume r (process_started instance_id generation)).0 events)
      waits =
          consume_each-IsWaiting instance_id generation _ events between
            (started-IsWaiting r instance_id generation h)
