-- ===== src/Runtime/Results.antt =====
-- src/runtime.cpp and include/gisland/runtime.hpp: what the methods of the coordinator return, and
-- the choices that they make on what they look up.
-- `RuntimeSelection`; a pointer to a context is the context.
use gisland.Prelude.{
  if◌then◌else◌, Expected, value, unexpected, ℕ, String, Bool, true, false, Option, none, some,
  List, [], ◌∷◌,
}
use gisland.Lifecycle.Types.{ModuleState, stopped}
use gisland.Context.Types.{ContextKey, ViewSlot, PublishedContext}
use gisland.Context.Store.{ContextArbiter, string_eq, dismiss, publish}
use gisland.Runtime.Types.{
  ProtocolVersion, ViewLanguage, Visibility, compact_active, expanded_active, IslandMode,
  unknown_instance, disabled_instance, unavailable_instance, unknown_context, RuntimeError,
  RuntimeActionTarget,
}

module _ (V : ViewLanguage) where
  open V use {Scene}

  pub record RuntimeSelection : Type 0 where
    pub context : Option (PublishedContext Scene)
    pub revision : ℕ
    pub scene : Option Scene

-- `std::ranges::find_if` over the configured instances: the first one counts.
unfoldable pub configured_find : String → List (String × Bool) → Option Bool
configured_find instance_id [] = none
configured_find instance_id ((id, enabled) ∷ items) =
    if string_eq id instance_id then some enabled else configured_find instance_id items

-- The checks that `activate` and `action_target` share: a known and enabled instance, or an error.
abbrev pub configured_error : String → Option Bool → Option RuntimeError
configured_error instance_id none =
    some (record { code = unknown_instance; instance_id = instance_id })
configured_error instance_id (some false) =
    some (record { code = disabled_instance; instance_id = instance_id })
configured_error instance_id (some true) = none

abbrev pub slot_of : IslandMode → ViewSlot
slot_of IslandMode.expanded = ViewSlot.expanded
slot_of IslandMode.compact = ViewSlot.compact

abbrev pub active_as : IslandMode → Visibility
active_as IslandMode.expanded = expanded_active
active_as IslandMode.compact = compact_active

abbrev pub contribution : {S : Type 0} → ViewSlot → PublishedContext S → Option S
contribution ViewSlot.compact context = context.compact
contribution ViewSlot.expanded context = context.expanded

abbrev pub unknown_active : RuntimeError
unknown_active = record { code = unknown_context; instance_id = "" }

abbrev pub state_or_stopped : Option ModuleState → ModuleState
state_or_stopped none = stopped
state_or_stopped (some state) = state

abbrev pub ready_target :
    String
    → Option (Unit {0})
    → Option ℕ
    → Option ProtocolVersion
    → Expected RuntimeActionTarget RuntimeError
ready_target instance_id (some _) (some generation) (some protocol) =
    value (record { generation = generation; protocol = protocol })
ready_target instance_id ready generation protocol =
    unexpected (record { code = unavailable_instance; instance_id = instance_id })

-- Puts back what was replaced, or dismisses where nothing was.
abbrev pub restored :
    {S : Type 0}
    → ContextArbiter S
    → ContextKey
    → ℕ
    → Option (Option (PublishedContext S))
    → ContextArbiter S
restored arbiter key now (some (some previous)) = publish arbiter previous now
restored arbiter key now (some none) = dismiss arbiter key
restored arbiter key now none = dismiss arbiter key
