-- ===== src/Context.antt =====
-- src/context.cpp and include/gisland/context.hpp: the arbiter, which keeps the contexts that the
-- modules publish and chooses the one that each view shows.
-- `contexts_` is an association list with distinct keys. A method that changes the arbiter returns
-- the new one beside its result; `active`, `find` and `available` change it too, since they drop
-- what has expired. A pointer to a context is the context, a null pointer `none`.
pub mod Types
pub mod Store
pub mod Choice
pub mod Selection
pub mod Invariant
pub mod Active
pub mod Kinds
pub mod Best
pub mod Lookup
pub mod Shown
mod Tests
use gisland.Prelude.{
  if◌then◌else◌, is_some, Expected, value, unexpected, ℕ, String, Bool, true, false, Option, none,
  some,
}
use gisland.Prelude.Maps.{find}
use gisland.Context.Types.{ContextKey, ViewSlot, compact, PublishedContext, ContextKey_discrete}
use gisland.Context.Store.{Entry, ContextArbiter, string_eq, is_expected, holds, dismiss, expire}
use gisland.Context.Choice.{best_for_instance, chosen}

module _ {S : Type 0} where
  abbrev pub context_of : Option (Entry S) → Option (PublishedContext S)
  context_of none = none
  context_of (some entry) = some entry.context

  unfoldable pub activated :
      ContextArbiter S
      → Option ℕ
      → Option (Entry S)
      → ContextArbiter S × Expected ContextKey (Unit {0})
  activated a deadline none = (a, unexpected tt)
  activated a deadline (some best) = (
    record a { activation = some (record { key = best.context.key; deadline = deadline }) },
    value best.context.key,
  )

  -- `unavailable_instance` is the only error.
  unfoldable pub activate :
      ContextArbiter S → String → Option ℕ → ℕ → ContextArbiter S × Expected ContextKey (Unit {0})
  unfolding activated
  activate a instance_id deadline now =
      let a' = expire a now in activated a' deadline (best_for_instance a' instance_id)

  unfoldable pub clear_activation : ContextArbiter S → Option ContextKey → ContextArbiter S × Bool
  clear_activation a expected_key =
      let a' = record a { activation_held = false } in
      if holds (is_expected expected_key) a.activation
      then (record a' { activation = none }, true)
      else (a', false)

  unfoldable pub set_activation_held : ContextArbiter S → Bool → ContextArbiter S
  set_activation_held a held = record a { activation_held = held }

  unfoldable pub available : ContextArbiter S → String → ℕ → ContextArbiter S × Bool
  available a instance_id now =
      let a' = expire a now in (a', is_some (best_for_instance a' instance_id))

  unfoldable pub find_context :
      ContextArbiter S → ContextKey → ℕ → ContextArbiter S × Option (PublishedContext S)
  find_context a key now =
      let a' = expire a now in (a', context_of (find ContextKey_discrete key a'.contexts))

  unfoldable pub active :
      ContextArbiter S → ViewSlot → ℕ → ContextArbiter S × Option (PublishedContext S)
  active a slot now = let a' = expire a now in (a', context_of (chosen a' slot))

  dismiss_selected :
      ContextArbiter S → String → Option (PublishedContext S) → ContextArbiter S × Bool
  dismiss_selected a context_id none = (a, false)
  dismiss_selected a context_id (some selected) =
      if string_eq selected.key.context_id context_id
      then (dismiss a selected.key, true)
      else (a, false)

  unfoldable pub dismiss_active : ContextArbiter S → String → ℕ → ContextArbiter S × Bool
  unfolding dismiss_selected
  dismiss_active a context_id now =
      let (a', selected) = active a compact now in dismiss_selected a' context_id selected
