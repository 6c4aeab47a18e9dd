-- ===== src/Runtime/Sessions.antt =====
-- What the coordinator believes of the process behind an instance, and what it ignores.
use gisland.Prelude.{if◌then◌else◌, String_discrete, value, ℕ, String, ◌≡◌, ◌≢◌, false, none, arith}
use gisland.Prelude.Maps.{find, insert_or_assign, find-erase}
use gisland.Context.Types.{ContextKey}
use gisland.Context.Store.{string_eq}
use gisland.Context.Invariant.{IsValid}
use gisland.Context.Lookup.{visible, visible-dismiss_instance}
use gisland.Runtime.Types.{
  ViewLanguage, RuntimeActionTarget, ModuleMessage, process_started, module_message,
  contexts_removed,
}
use gisland.Runtime.State.{RuntimeCoordinator}
use gisland.Runtime.Messages.{is_stale, remove_contexts, consume}
use gisland.Runtime.{action_target}

module _ {V : ViewLanguage} where
  -- Once the process of an instance was started with a generation, a message and a removal that
  -- come from another generation change nothing, and are no error.
  pub process_started-ignores :
      (r : RuntimeCoordinator V) (instance_id : String) (generation other at : ℕ)
      (message : ModuleMessage V)
      → generation ≢ other
      → let started = (consume r (process_started instance_id generation)).0 in
        (consume started (
            module_message (record {
              instance_id = instance_id;
              message = message;
              at = at;
              generation = other;
            }))
          ≡ (started, value tt))
        × (consume started (contexts_removed instance_id other) ≡ (started, value tt))
  unfolding consume find insert_or_assign
  process_started-ignores r instance_id generation other at message h = (ground arith, ground arith)

  remove_contexts-target :
      (r : RuntimeCoordinator V) (instance_id : String) (target : RuntimeActionTarget)
      → action_target (remove_contexts r instance_id) instance_id ≢ value target
  unfolding remove_contexts action_target
  remove_contexts-target r instance_id target e =
      ground (arith, e, find-erase String_discrete instance_id instance_id r.ready_instances)

  remove_contexts-others :
      (r : RuntimeCoordinator V) (instance_id other : String)
      → other ≢ instance_id
      → action_target (remove_contexts r instance_id) other ≡ action_target r other
  unfolding remove_contexts action_target
  remove_contexts-others r instance_id other h = ground (
    arith,
    find-erase String_discrete instance_id other r.ready_instances,
    find-erase String_discrete instance_id other r.process_generations,
    find-erase String_discrete instance_id other r.negotiated_protocols,
  )

  remove_contexts-visible :
      (r : RuntimeCoordinator V) (instance_id : String) (key : ContextKey) (now : ℕ)
      → IsValid r.arbiter
      → visible (remove_contexts r instance_id).arbiter key now
        ≡ (if string_eq key.instance_id instance_id then none else visible r.arbiter key now)
  unfolding remove_contexts
  remove_contexts-visible r instance_id key now v =
      visible-dismiss_instance r.arbiter instance_id key now v

  -- After the contexts of an instance are removed, by its known process, no context of it is
  -- visible at any time and it can not be acted on, while every other instance has its contexts
  -- and its target as before.
  pub contexts_removed-isolates :
      (r : RuntimeCoordinator V) (instance_id : String) (generation : ℕ) (key : ContextKey)
      (now : ℕ)
      → IsValid r.arbiter
      → is_stale (find String_discrete instance_id r.process_generations) generation ≡ false
      → let removed = (consume r (contexts_removed instance_id generation)).0 in
        (visible removed.arbiter key now
          ≡ (if string_eq key.instance_id instance_id then none else visible r.arbiter key now))
        × ((target : RuntimeActionTarget) → action_target removed instance_id ≢ value target)
        × (key.instance_id ≢ instance_id
            → action_target removed key.instance_id ≡ action_target r key.instance_id)
  unfolding consume
  contexts_removed-isolates r instance_id generation key now v h = rw h (
    remove_contexts-visible r instance_id key now v,
    remove_contexts-target r instance_id,
    remove_contexts-others r instance_id key.instance_id,
  )
