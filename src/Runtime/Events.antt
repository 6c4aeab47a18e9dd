-- ===== src/Runtime/Events.antt =====
-- What `RuntimeCoordinator::consume` keeps, for each event.
use gisland.Prelude.{
  Bool-cases, String_discrete, ◌+◌, ◌^◌, ◌<◌, String, ◌≡◌, refl, inl, inr, Option, none, some,
}
use gisland.Prelude.Maps.{Entries-keep_if, find, Entries-erase}
use gisland.Context.Types.{ViewTransitions, ContextKey_discrete}
use gisland.Context.Invariant.{dismiss-IsValid, dismiss_instance-IsValid}
use gisland.Runtime.Types.{
  ViewLanguage, ModuleViewState, ModuleMessage, ready_message, publish_message, dismiss_message,
  action_result_message, log_message, data_message, ModuleMessageEvent, SupervisorEvent,
  state_changed, process_started, module_message, stderr_log, violation, contexts_removed,
  process_exited, supervisor_error, restart_completed, action_delivery,
}
use gisland.Runtime.State.{RuntimeCoordinator, apply}
use gisland.Runtime.Messages.{is_stale, published, consume_message, remove_contexts, consume}
use gisland.Runtime.Consistency.{
  IsConsistent, Remembered, replace-IsConsistent, consume_data-IsConsistent,
}

module _ {V : ViewLanguage} where
  consume_message-IsConsistent :
      (r : RuntimeCoordinator V) (event : ModuleMessageEvent V)
      → r.arbiter.sequence + 1 < 2 ^ 64
      → IsConsistent r
      → IsConsistent (consume_message r event).0
  unfolding consume_message
  consume_message-IsConsistent r event n h = by_message event.message
    where
      sent : ModuleMessage V → ModuleMessageEvent V
      sent message = record event { message = message }

      by_view :
          (snapshot : V.Json) (transitions : ViewTransitions) (o : Option (ModuleViewState V))
          → find String_discrete event.instance_id r.views ≡ o
          → IsConsistent (consume_message r (sent (data_message snapshot transitions))).0
      by_view snapshot transitions none e = rw (consume_message, e) h
      by_view snapshot transitions (some view) e =
          rw (consume_message, e)
            (consume_data-IsConsistent r event.instance_id event.at transitions
              (apply view snapshot) n h)

      by_message : (message : ModuleMessage V) → IsConsistent (consume_message r (sent message)).0
      by_message (ready_message protocol capabilities) = record {
        valid = h.valid;
        remembered = h.remembered;
      }
      by_message (publish_message message) =
          replace-IsConsistent r (published r event.instance_id message event.at) event.at n h
      by_message (dismiss_message context_id) = record {
        valid =
            dismiss-IsValid r.arbiter
              (record { instance_id = event.instance_id; context_id = context_id }) h.valid;
        remembered =
            Entries-erase ContextKey_discrete Remembered _ r.pending_replacements h.remembered;
      }
      by_message action_result_message = h
      by_message log_message = h
      by_message (data_message snapshot transitions) =
          by_view snapshot transitions (find String_discrete event.instance_id r.views) refl

  remove_contexts-IsConsistent :
      (r : RuntimeCoordinator V) (instance_id : String)
      → IsConsistent r
      → IsConsistent (remove_contexts r instance_id)
  unfolding remove_contexts
  remove_contexts-IsConsistent r instance_id h = record {
    valid = dismiss_instance-IsValid r.arbiter instance_id h.valid;
    remembered = Entries-keep_if Remembered _ r.pending_replacements h.remembered;
  }

  pub consume-IsConsistent :
      (r : RuntimeCoordinator V) (event : SupervisorEvent V)
      → r.arbiter.sequence + 1 < 2 ^ 64
      → IsConsistent r
      → IsConsistent (consume r event).0
  unfolding consume
  consume-IsConsistent r (module_message event) n h =
      elim (Bool-cases (
        is_stale (find String_discrete event.instance_id r.process_generations) event.generation)) [
          | inl e ↦ rw e h
          | inr e ↦ rw e (consume_message-IsConsistent r event n h)
        ]
  consume-IsConsistent r (process_started instance_id generation) n h = record {
    valid = h.valid;
    remembered = h.remembered;
  }
  consume-IsConsistent r (state_changed instance_id transition) n h = record {
    valid = h.valid;
    remembered = h.remembered;
  }
  consume-IsConsistent r (contexts_removed instance_id generation) n h =
      elim (Bool-cases
        (is_stale (find String_discrete instance_id r.process_generations) generation)) [
          | inl e ↦ rw e h
          | inr e ↦ rw e (remove_contexts-IsConsistent r instance_id h)
        ]
  consume-IsConsistent r (stderr_log event) n h = h
  consume-IsConsistent r (violation event) n h = h
  consume-IsConsistent r (process_exited event) n h = h
  consume-IsConsistent r (supervisor_error event) n h = h
  consume-IsConsistent r (restart_completed event) n h = h
  consume-IsConsistent r (action_delivery event) n h = h
