-- ===== src/Runtime/Messages.antt =====
-- src/runtime.cpp: what the coordinator does on an event of the supervisor.
use gisland.Prelude.{
  ◌==◌, if◌then◌else◌, String_discrete, Expected, value, unexpected, ℕ, String, Bool, true, false,
  not, Option, none, some, [],
}
use gisland.Prelude.Maps.{keep_if, find, contains, erase, insert_or_assign, emplace}
use gisland.Prelude.Int.{pos}
use gisland.Lifecycle.State.{after}
use gisland.Context.Types.{ContextKey, ViewTransitions, PublishedContext, ContextKey_discrete}
use gisland.Context.Store.{string_eq, dismiss, publish, dismiss_instance}
use gisland.Context.{find_context}
use gisland.Runtime.Types.{
  TemplateError, ViewLanguage, missing_view, invalid_snapshot, RuntimeError, InstantiatedViews,
  ModuleViewState, PublishMessage, ready_message, publish_message, dismiss_message,
  action_result_message, log_message, data_message, ModuleMessageEvent, SupervisorEvent,
  state_changed, process_started, module_message, contexts_removed,
}
use gisland.Runtime.State.{RuntimeCoordinator, configured_context_id, next_revision, apply}

-- `now + duration` where a duration is given.
abbrev pub deadline_after : ℕ → Option ℕ → Option ℕ
deadline_after now none = none
deadline_after now (some duration) = some (after now duration)

-- Whether an event comes from another process than the one that is known.
abbrev pub is_stale : Option ℕ → ℕ → Bool
is_stale none generation = false
is_stale (some known) generation = not (known == generation)

abbrev pub configured_key : String → ContextKey
configured_key instance_id = record {
  instance_id = instance_id;
  context_id = configured_context_id;
}

module _ {V : ViewLanguage} where
  open V use {Scene, Json}

  -- What stood under a key before the module replaced it; the first time counts.
  unfoldable pub remember_replacement : RuntimeCoordinator V → ContextKey → ℕ → RuntimeCoordinator V
  remember_replacement r key now =
      if contains ContextKey_discrete key r.pending_replacements
      then r
      else (let (arbiter, previous) = find_context r.arbiter key now in
          record r {
            arbiter = arbiter;
            pending_replacements = emplace ContextKey_discrete key previous r.pending_replacements;
          })

  -- Remembers what is replaced, publishes, and counts the revision.
  unfoldable pub replace : RuntimeCoordinator V → PublishedContext Scene → ℕ → RuntimeCoordinator V
  unfolding remember_replacement
  replace r context now =
      let remembered = remember_replacement r context.key now in
      record remembered {
        arbiter = publish remembered.arbiter context now;
        revision = next_revision r.revision;
      }

  abbrev pub published :
      RuntimeCoordinator V → String → PublishMessage V → ℕ → PublishedContext Scene
  published r instance_id message now = record {
    key = record { instance_id = instance_id; context_id = message.context_id };
    priority = message.priority;
    expires_at = deadline_after now message.expires_in;
    compact = message.compact;
    expanded = message.expanded;
    resources = message.resources;
    presentation = message.presentation;
    revision = next_revision r.revision;
    fallback_only = message.activation_only;
    transitions = message.transitions;
  }

  abbrev pub configured_context :
      RuntimeCoordinator V → String → InstantiatedViews V → ViewTransitions → PublishedContext Scene
  configured_context r instance_id views transitions = record {
    key = configured_key instance_id;
    priority = pos 0;
    expires_at = none;
    compact = some views.compact;
    expanded = views.expanded;
    resources = [];
    presentation = none;
    revision = next_revision r.revision;
    fallback_only = true;
    transitions = transitions;
  }

  -- A data message, once its view is found; `apply` sets the views where it succeeds.
  unfoldable pub consume_data :
      RuntimeCoordinator V
      → String
      → ℕ
      → ViewTransitions
      → ModuleViewState V × Expected (Unit {0}) TemplateError
      → RuntimeCoordinator V × Expected (Unit {0}) RuntimeError
  consume_data r instance_id now transitions (view, unexpected error) =
      (r, unexpected (record { code = invalid_snapshot; instance_id = instance_id }))
  consume_data r instance_id now transitions (view, value _) =
      let applied = record r {
        views = insert_or_assign String_discrete instance_id view r.views;
      } in
      elim view.views [
        | none ↦ (applied, value tt)
        | some views ↦
            (replace applied (configured_context r instance_id views transitions) now, value tt)
      ]

  -- A message of a module, whose generation was checked.
  unfoldable pub consume_message :
      RuntimeCoordinator V
      → ModuleMessageEvent V
      → RuntimeCoordinator V × Expected (Unit {0}) RuntimeError
  unfolding replace apply consume_data
  consume_message r event = elim event.message [
    | ready_message protocol capabilities ↦ (
      record r {
        ready_instances = insert_or_assign String_discrete event.instance_id tt r.ready_instances;
        process_generations =
            insert_or_assign String_discrete event.instance_id event.generation
              r.process_generations;
        negotiated_protocols =
            insert_or_assign String_discrete event.instance_id protocol r.negotiated_protocols;
      },
      value tt,
    )
    | publish_message message ↦
        (replace r (published r event.instance_id message event.at) event.at, value tt)
    | dismiss_message context_id ↦
        let key : ContextKey = record {
          instance_id = event.instance_id;
          context_id = context_id;
        } in
        (
          record r {
            pending_replacements = erase ContextKey_discrete key r.pending_replacements;
            arbiter = dismiss r.arbiter key;
            revision = next_revision r.revision;
          },
          value tt,
        )
    | action_result_message ↦ (r, value tt)
    | log_message ↦ (r, value tt)
    | data_message snapshot transitions ↦ elim (find String_discrete event.instance_id r.views) [
      | none ↦ (r, unexpected (record { code = missing_view; instance_id = event.instance_id }))
      | some view ↦ consume_data r event.instance_id event.at transitions (apply view snapshot)
    ]
  ]

  -- All that is known of an instance whose process is gone.
  unfoldable pub remove_contexts : RuntimeCoordinator V → String → RuntimeCoordinator V
  remove_contexts r instance_id = record r {
    arbiter = dismiss_instance r.arbiter instance_id;
    pending_replacements =
        keep_if (λ key _. not (string_eq key.instance_id instance_id)) r.pending_replacements;
    ready_instances = erase String_discrete instance_id r.ready_instances;
    process_generations = erase String_discrete instance_id r.process_generations;
    negotiated_protocols = erase String_discrete instance_id r.negotiated_protocols;
    visibility = erase String_discrete instance_id r.visibility;
    revision = next_revision r.revision;
  }

  unfoldable pub consume :
      RuntimeCoordinator V
      → SupervisorEvent V
      → RuntimeCoordinator V × Expected (Unit {0}) RuntimeError
  unfolding remove_contexts
  consume r (module_message event) =
      if is_stale (find String_discrete event.instance_id r.process_generations) event.generation
      then (r, value tt)
      else consume_message r event
  consume r (process_started instance_id generation) = (
    record r {
      process_generations =
          insert_or_assign String_discrete instance_id generation r.process_generations;
      negotiated_protocols = erase String_discrete instance_id r.negotiated_protocols;
    },
    value tt,
  )
  consume r (state_changed instance_id transition) = (
    record r {
      module_states = insert_or_assign String_discrete instance_id transition.to r.module_states;
    },
    value tt,
  )
  consume r (contexts_removed instance_id generation) =
      if is_stale (find String_discrete instance_id r.process_generations) generation
      then (r, value tt)
      else (remove_contexts r instance_id, value tt)
  consume r _ = (r, value tt)
