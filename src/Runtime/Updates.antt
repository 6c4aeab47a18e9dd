-- ===== src/Runtime/Updates.antt =====
-- src/runtime.cpp: `RuntimeCoordinator::visibility_updates`, which tells each module that is ready
-- whether it is seen.
use gisland.Prelude.{
  if◌then◌else◌, String_discrete, ℕ, String, Bool, true, false, not, ◌&&◌, Option, none, some, List,
  [], ◌∷◌,
}
use gisland.Prelude.Maps.{find, contains, insert_or_assign}
use gisland.Context.Types.{PublishedContext}
use gisland.Context.Store.{ContextArbiter, string_eq}
use gisland.Context.{active}
use gisland.Runtime.Types.{
  ViewLanguage, Visibility, hidden, compact_active, expanded_active, IslandMode, VisibilityUpdate,
}
use gisland.Runtime.State.{RuntimeCoordinator}
use gisland.Runtime.Results.{slot_of, active_as}

module _ {S : Type 0} where
  -- Whether an instance has the selected context.
  abbrev pub is_selected : Option (PublishedContext S) → String → Bool
  is_selected none instance_id = false
  is_selected (some selected) instance_id = string_eq selected.key.instance_id instance_id

  abbrev pub next_visibility : Option (PublishedContext S) → IslandMode → String → Visibility
  next_visibility selected mode instance_id =
      if is_selected selected instance_id then active_as mode else hidden

  abbrev pub presented_context :
      ContextArbiter S → ℕ → IslandMode → Bool → ContextArbiter S × Option (PublishedContext S)
  presented_context arbiter now mode presented =
      if presented then active arbiter (slot_of mode) now else (arbiter, none)

abbrev pub visibility_eq : Visibility → Visibility → Bool
visibility_eq hidden hidden = true
visibility_eq compact_active compact_active = true
visibility_eq expanded_active expanded_active = true
visibility_eq a b = false

abbrev pub is_visibility : Visibility → Option Visibility → Bool
is_visibility next none = false
is_visibility next (some previous) = visibility_eq previous next

abbrev pub changes : Visibility → Bool → Option Visibility → Bool
changes next is_ready previous = is_ready && not (is_visibility next previous)

-- The loop over the enabled instances: the new visibilities, and the updates in order.
unfoldable pub visibility_loop :
    (String → Visibility)
    → List (String × Unit {0})
    → List String
    → List (String × Visibility)
    → List (String × Visibility) × List VisibilityUpdate
visibility_loop next ready [] visibility = (visibility, [])
visibility_loop next ready (instance_id ∷ instances) visibility =
    elim (changes (next instance_id) (contains String_discrete instance_id ready)
      (find String_discrete instance_id visibility)) [
        | false ↦ visibility_loop next ready instances visibility
        | true ↦
            let (changed, updates) =
              visibility_loop next ready instances
                (insert_or_assign String_discrete instance_id (next instance_id) visibility) in
            (changed, record { instance_id = instance_id; visibility = next instance_id } ∷ updates)
      ]

module _ {V : ViewLanguage} where
  open V use {Scene}

  unfoldable pub visibility_updates :
      RuntimeCoordinator V → ℕ → IslandMode → Bool → RuntimeCoordinator V × List VisibilityUpdate
  visibility_updates r now mode presented =
      let (arbiter, selected) = presented_context r.arbiter now mode presented in
      let (visibility, updates) =
        visibility_loop (next_visibility selected mode) r.ready_instances r.enabled_instances
          r.visibility in
      (record r { arbiter = arbiter; visibility = visibility }, updates)
