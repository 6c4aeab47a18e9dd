-- ===== src/Runtime/Tests.antt =====
-- The coordinator on a configuration of two modules, one of them disabled, and the theorems at it.
-- A scene, a template and a value are numbers; a template adds its number to the value.
use gisland.Prelude.{
  if◌then◌else◌, String_discrete, All, value, unexpected, ℕ, ◌+◌, ◌≡◌, refl, ◌≢◌, true, false, none,
  some, [], ◌∷◌, arith,
}
use gisland.Prelude.Maps.{keep_if, find, erase, insert_or_assign, emplace}
use gisland.Prelude.Int.{pos}
use gisland.Context.Types.{ContextKey, ViewSlot, ViewTransitions, ContextKey_discrete}
use gisland.Context.Store.{string_eq, make_defaults, publish, expire}
use gisland.Context.Choice.{precedes, select, best_in_slot, chosen}
use gisland.Context.{find_context}
use gisland.Context.Lookup.{visible}
use gisland.Runtime.Types.{
  ProtocolVersion, ViewLanguage, IslandMode, unavailable_instance, RuntimeActionTarget,
  PublishMessage, ModuleMessage, ready_message, publish_message, data_message, SupervisorEvent,
  process_started, module_message, contexts_removed, AppConfig,
}
use gisland.Runtime.State.{
  RuntimeCoordinator, instantiate_expanded, new_view_state, add_view, add_instance, add_instances,
  apply,
}
use gisland.Runtime.Messages.{remember_replacement, replace, consume_data, consume_message, consume}
use gisland.Runtime.Results.{configured_find}
use gisland.Runtime.{action_target, reject}
use gisland.Runtime.Updates.{changes, visibility_updates}
use gisland.Runtime.Told.{IsRecorded, shown_to_modules, visibility_updates-Told}
use gisland.Runtime.Sessions.{process_started-ignores, contexts_removed-isolates}
use gisland.Runtime.Rejection.{reject-publish}
use gisland.Runtime.Consistency.{IsConsistent}
use gisland.Runtime.Operations.{consumed, perform, perform-IsConsistent}
use gisland.Runtime.Waiting.{consume_each, ready-action_target}
use gisland.Runtime.Notices.{recorded, IsNews}
use gisland.Runtime.State
use gisland.Context
use gisland.Runtime

abbrev numbers : ViewLanguage
numbers = record {
  Scene = ℕ;
  Json = ℕ;
  Template = ℕ;
  instantiate_template = λ template snapshot. value (template + snapshot);
}

abbrev config : AppConfig numbers
config = record {
  default_module = "clock";
  compact_default = "";
  expanded_default = "";
  modules =
      record {
        id = "clock";
        enabled = true;
        view = some (record { compact = 10; expanded = none });
      }
      ∷ record { id = "mail"; enabled = false; view = none }
      ∷ [];
}

abbrev runtime : RuntimeCoordinator numbers
runtime = gisland.Runtime.State.make config

abbrev quiet_transitions : ViewTransitions
quiet_transitions = record { compact = none; expanded = none }

abbrev main_message : PublishMessage numbers
main_message = record {
  context_id = "main";
  priority = pos 3;
  expires_in = some 60;
  compact = some 1;
  expanded = none;
  resources = [];
  presentation = none;
  independent_views = false;
  transitions = quiet_transitions;
  activation_only = false;
}

abbrev main_key : ContextKey
main_key = record { instance_id = "clock"; context_id = "main" }

abbrev mail_key : ContextKey
mail_key = record { instance_id = "mail"; context_id = "main" }

-- An event of the first process of the clock.
abbrev sent : ModuleMessage numbers → SupervisorEvent numbers
sent message =
    module_message (record { instance_id = "clock"; message = message; at = 5; generation = 1 })

abbrev version : ProtocolVersion
version = record { major = pos 1; minor = pos 2 }

abbrev started : RuntimeCoordinator numbers
started = (consume runtime (process_started "clock" 1)).0

abbrev said_by_another : SupervisorEvent numbers
said_by_another =
    module_message
      (record { instance_id = "clock"; message = ready_message version []; at = 4; generation = 2 })

abbrev ready_runtime : RuntimeCoordinator numbers
ready_runtime = (consume started (sent (ready_message version []))).0

abbrev shown : RuntimeCoordinator numbers
shown = (consume ready_runtime (sent (publish_message main_message))).0

-- A snapshot fills the view of the configuration, which is shown as the fallback.
shows_snapshot :
    (gisland.Runtime.active
      (consume ready_runtime (sent (data_message 7 quiet_transitions))).0
      ViewSlot.compact
      6).1.scene
    ≡ some 17
unfolding gisland.Runtime.State.make make_defaults add_instances add_instance add_view emplace
    consume consume_message find insert_or_assign erase String_discrete ContextKey_discrete
    configured_find apply instantiate_expanded consume_data replace remember_replacement
    find_context publish expire keep_if gisland.Runtime.active gisland.Context.active chosen
    best_in_slot select precedes new_view_state
shows_snapshot = refl

process_started-ignores_example :
    (consume started (
        module_message (record {
          instance_id = "clock";
          message = ready_message version [];
          at = 9;
          generation = 2;
        }))
      ≡ (started, value tt))
    × (consume started (contexts_removed "clock" 2) ≡ (started, value tt))
process_started-ignores_example =
    process_started-ignores runtime "clock" 1 2 9 (ready_message version []) (λ e. omega (arith, e))

-- An older process of the instance says that it is ready too.
ready-action_target_example :
    let waiting = consume_each started (process_started "mail" 4 ∷ said_by_another ∷ []) in
    (action_target waiting "clock"
      ≡ unexpected (record { code = unavailable_instance; instance_id = "clock" }))
    × (action_target (consume waiting (sent (ready_message version []))).0 "clock"
        ≡ value (record { generation = 1; protocol = version }))
unfolding gisland.Runtime.State.make make_defaults add_instances add_instance add_view emplace
    configured_find String_discrete
ready-action_target_example =
    ready-action_target runtime "clock" 1 5 version []
      (process_started "mail" 4 ∷ said_by_another ∷ []) refl
      ((λ e. cc), ((λ same_id same. absurd (omega (arith, same))), tt))

runtime-IsConsistent : IsConsistent runtime
unfolding gisland.Runtime.State.make make_defaults add_instances add_instance
runtime-IsConsistent = record {
  valid = record { distinct = tt; keyed = tt; sequenced = tt; numbered = tt };
  remembered = tt;
}

ready-IsConsistent : IsConsistent ready_runtime
unfolding gisland.Runtime.State.make make_defaults add_instances add_instance add_view emplace
    consume consume_message find insert_or_assign erase String_discrete
ready-IsConsistent = record {
  valid = runtime-IsConsistent.valid;
  remembered = runtime-IsConsistent.remembered;
}

perform-IsConsistent_example :
    IsConsistent (perform ready_runtime (consumed (sent (publish_message main_message))))
unfolding gisland.Runtime.State.make make_defaults add_instances add_instance add_view emplace
    consume consume_message find insert_or_assign erase String_discrete
perform-IsConsistent_example =
    perform-IsConsistent ready_runtime (consumed (sent (publish_message main_message)))
      (omega arith) ready-IsConsistent

contexts_removed-isolates_example :
    (visible (consume ready_runtime (contexts_removed "clock" 1)).0.arbiter mail_key 6
      ≡ (if string_eq "mail" "clock" then none else visible ready_runtime.arbiter mail_key 6))
    × ((target : RuntimeActionTarget)
        → action_target (consume ready_runtime (contexts_removed "clock" 1)).0 "clock"
          ≢ value target)
    × (mail_key.instance_id ≢ "clock"
        → action_target (consume ready_runtime (contexts_removed "clock" 1)).0 "mail"
          ≡ action_target ready_runtime "mail")
unfolding gisland.Runtime.State.make make_defaults add_instances add_instance add_view emplace
    consume consume_message find insert_or_assign erase String_discrete
contexts_removed-isolates_example =
    contexts_removed-isolates ready_runtime "clock" 1 mail_key 6 ready-IsConsistent.valid refl

reject-publish_example :
    visible (reject shown main_key 8).arbiter main_key 8 ≡ visible ready_runtime.arbiter main_key 8
unfolding gisland.Runtime.State.make make_defaults add_instances add_instance add_view emplace
    consume consume_message find insert_or_assign erase String_discrete ContextKey_discrete
reject-publish_example =
    reject-publish ready_runtime "clock" 1 5 8 main_message main_key ready-IsConsistent.valid
      (omega arith) (omega arith) refl refl

visibility_updates-Told_example :
    let seen = shown_to_modules shown.arbiter 6 IslandMode.compact true in
    let (after, changes) = visibility_updates shown 6 IslandMode.compact true in
    All
      (IsRecorded seen IslandMode.compact shown.ready_instances after.visibility)
      shown.enabled_instances
    × (after.visibility ≡ recorded shown.visibility changes)
    × All (IsNews shown.visibility) changes
    × ((visibility_updates after 6 IslandMode.compact true).1 ≡ [])
visibility_updates-Told_example = visibility_updates-Told shown 6 IslandMode.compact true
