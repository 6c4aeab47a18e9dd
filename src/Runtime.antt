-- ===== src/Runtime.antt =====
-- src/runtime.cpp and include/gisland/runtime.hpp: the coordinator between the supervisor of the
-- modules and the arbiter of their contexts. Events of the modules change what may be shown, the
-- application accepts or rejects what is new, and the modules learn whether they are seen.
-- Reload (`prepare_reload`, `commit_reload`) and `make_module_start_request` are not modelled.
-- A method that changes the coordinator returns the new one beside its result.
pub mod Types
pub mod State
pub mod Messages
pub mod Results
pub mod Updates
pub mod Sessions
pub mod Unready
pub mod Waiting
pub mod Rejection
pub mod Consistency
pub mod Events
pub mod Operations
pub mod Notices
pub mod Told
mod Tests
use gisland.Prelude.{
  if◌then◌else◌, is_some, String_discrete, Expected, value, unexpected, ℕ, String, Bool, false,
  Option, none, some, List, [], ◌∷◌,
}
use gisland.Prelude.Maps.{keep_if, find, erase}
use gisland.Context.Types.{ContextKey, ViewSlot, PublishedContext, ContextKey_discrete}
use gisland.Context.Store.{ContextArbiter, string_eq, dismiss}
use gisland.Context.{available, find_context}
use gisland.Runtime.Types.{
  ViewLanguage, unavailable_instance, RuntimeError, RuntimeActionTarget, RuntimeModuleStatus,
}
use gisland.Runtime.State.{RuntimeCoordinator, next_revision}
use gisland.Runtime.Messages.{deadline_after}
use gisland.Runtime.Results.{
  RuntimeSelection, configured_find, configured_error, contribution, unknown_active,
  state_or_stopped, ready_target, restored,
}
use gisland.Context

module _ {V : ViewLanguage} where
  open V use {Scene}

  abbrev pub selection : ℕ → ViewSlot → Option (PublishedContext Scene) → RuntimeSelection V
  selection revision slot none = record { context = none; revision = revision; scene = none }
  selection revision slot (some context) = record {
    context = some context;
    revision = context.revision;
    scene = contribution slot context;
  }

  -- What was to be replaced is forgotten where nothing stands under the key any more.
  unfoldable pub active :
      RuntimeCoordinator V → ViewSlot → ℕ → RuntimeCoordinator V × RuntimeSelection V
  active r slot now =
      let (arbiter, selected) = gisland.Context.active r.arbiter slot now in
      (
        record r {
          arbiter = arbiter;
          pending_replacements =
              keep_if (λ key _. is_some (find_context arbiter key now).1) r.pending_replacements;
        },
        selection r.revision slot selected,
      )

  unfoldable pub selections :
      RuntimeCoordinator V → ℕ → RuntimeCoordinator V × RuntimeSelection V × RuntimeSelection V
  selections r now =
      let (r1, compact) = active r ViewSlot.compact now in
      let (r2, expanded) = active r1 ViewSlot.expanded now in (r2, compact, expanded)

  unfoldable pub activated_with :
      RuntimeCoordinator V
      → String
      → ContextArbiter Scene × Expected ContextKey (Unit {0})
      → RuntimeCoordinator V × Expected ContextKey RuntimeError
  activated_with r instance_id (arbiter, unexpected _) = (
    record r { arbiter = arbiter },
    unexpected (record { code = unavailable_instance; instance_id = instance_id }),
  )
  activated_with r instance_id (arbiter, value key) =
      (record r { arbiter = arbiter; revision = next_revision r.revision }, value key)

  unfoldable pub activate :
      RuntimeCoordinator V
      → String
      → Option ℕ
      → ℕ
      → RuntimeCoordinator V × Expected ContextKey RuntimeError
  unfolding activated_with
  activate r instance_id duration now =
      elim (configured_error instance_id (configured_find instance_id r.configured_instances)) [
        | some error ↦ (r, unexpected error)
        | none ↦
            activated_with r instance_id
              (gisland.Context.activate r.arbiter instance_id (deadline_after now duration) now)
      ]

  -- Both overloads: without an expected key, any activation is cleared.
  unfoldable pub clear_activation : RuntimeCoordinator V → Option ContextKey → RuntimeCoordinator V
  clear_activation r expected_key =
      let (arbiter, cleared) = gisland.Context.clear_activation r.arbiter expected_key in
      record r {
        arbiter = arbiter;
        revision = if cleared then next_revision r.revision else r.revision;
      }

  unfoldable pub set_activation_held : RuntimeCoordinator V → Bool → RuntimeCoordinator V
  set_activation_held r held = record r {
    arbiter = gisland.Context.set_activation_held r.arbiter held;
  }

  unfoldable pub dismiss_selected :
      RuntimeCoordinator V
      → String
      → Option (PublishedContext Scene)
      → RuntimeCoordinator V × Expected ContextKey RuntimeError
  dismiss_selected r context_id none = (r, unexpected unknown_active)
  dismiss_selected r context_id (some selected) =
      if string_eq selected.key.context_id context_id
      then (
        record r { arbiter = dismiss r.arbiter selected.key; revision = next_revision r.revision },
        value selected.key,
      )
      else (r, unexpected unknown_active)

  unfoldable pub dismiss_active :
      RuntimeCoordinator V
      → String
      → ViewSlot
      → ℕ
      → RuntimeCoordinator V × Expected ContextKey RuntimeError
  unfolding dismiss_selected
  dismiss_active r context_id slot now =
      let (arbiter, selected) = gisland.Context.active r.arbiter slot now in
      dismiss_selected (record r { arbiter = arbiter }) context_id selected

  -- `available` is asked of an enabled instance only, since it is a test that changes the arbiter.
  unfoldable pub module_statuses :
      RuntimeCoordinator V
      → List (String × Bool)
      → ℕ
      → RuntimeCoordinator V × List RuntimeModuleStatus
  module_statuses r [] now = (r, [])
  module_statuses r ((instance_id, enabled) ∷ items) now =
      let (arbiter, is_available) =
        if enabled then available r.arbiter instance_id now else (r.arbiter, false) in
      let (r', statuses) = module_statuses (record r { arbiter = arbiter }) items now in
      (
        r',
        record {
          id = instance_id;
          enabled = enabled;
          state = state_or_stopped (find String_discrete instance_id r.module_states);
          available = is_available;
        }
            ∷ statuses,
      )

  unfoldable pub action_target :
      RuntimeCoordinator V → String → Expected RuntimeActionTarget RuntimeError
  action_target r instance_id =
      elim (configured_error instance_id (configured_find instance_id r.configured_instances)) [
        | some error ↦ unexpected error
        | none ↦
            ready_target instance_id (find String_discrete instance_id r.ready_instances)
              (find String_discrete instance_id r.process_generations)
              (find String_discrete instance_id r.negotiated_protocols)
      ]

  unfoldable pub accept : RuntimeCoordinator V → ContextKey → RuntimeCoordinator V
  accept r key = record r {
    pending_replacements = erase ContextKey_discrete key r.pending_replacements;
  }

  unfoldable pub reject : RuntimeCoordinator V → ContextKey → ℕ → RuntimeCoordinator V
  reject r key now = record r {
    arbiter = restored r.arbiter key now (find ContextKey_discrete key r.pending_replacements);
    pending_replacements = erase ContextKey_discrete key r.pending_replacements;
    revision = next_revision r.revision;
  }
