-- ===== src/Context/Choice.antt =====
-- How the arbiter chooses among the contexts that it holds.
use gisland.Prelude.{
  ltb, if◌then◌else◌, is_some, String, Bool, not, ◌&&◌, ◌||◌, Option, none, some, List, [], ◌∷◌,
}
use gisland.Prelude.Maps.{find}
use gisland.Prelude.Int.{ltb_ℤ, eqb_ℤ}
use gisland.Context.Types.{
  ContextKey, ViewSlot, compact, expanded, PublishedContext, ContextKey_discrete,
}
use gisland.Context.Store.{Entry, ContextArbiter, string_eq}

module _ {S : Type 0} where
  abbrev pub contributes : PublishedContext S → ViewSlot → Bool
  contributes context compact = is_some context.compact
  contributes context expanded = is_some context.expanded

  -- The test of the selecting loops: a higher priority, or an equal one and a later publication.
  unfoldable pub precedes : Entry S → Entry S → Bool
  precedes entry best =
      ltb_ℤ best.context.priority entry.context.priority
      || eqb_ℤ entry.context.priority best.context.priority && ltb best.sequence entry.sequence

  abbrev pub better : Option (Entry S) → Entry S → Option (Entry S)
  better none entry = some entry
  better (some best) entry = if precedes entry best then some entry else some best

  -- The loops of `best_for_instance`, of its overload for a slot and of `active`, which differ in
  -- the entries that they pass over.
  unfoldable pub select :
      (ContextKey → Entry S → Bool)
      → Option (Entry S)
      → List (ContextKey × Entry S)
      → Option (Entry S)
  select accepts best [] = best
  select accepts best ((key, entry) ∷ contexts) =
      select accepts (if accepts key entry then better best entry else best) contexts

  abbrev pub of_instance : String → ContextKey → Entry S → Bool
  of_instance instance_id key entry = string_eq key.instance_id instance_id

  abbrev pub of_instance_in : String → ViewSlot → ContextKey → Entry S → Bool
  of_instance_in instance_id slot key entry =
      string_eq key.instance_id instance_id && contributes entry.context slot

  abbrev pub is_temporary : String → ViewSlot → ContextKey → Entry S → Bool
  is_temporary fallback slot key entry =
      contributes entry.context slot
      && not (string_eq key.instance_id fallback)
      && not entry.context.fallback_only

  unfoldable pub best_for_instance : ContextArbiter S → String → Option (Entry S)
  best_for_instance a instance_id = select (of_instance instance_id) none a.contexts

  unfoldable pub best_in_slot : ContextArbiter S → String → ViewSlot → Option (Entry S)
  best_in_slot a instance_id slot = select (of_instance_in instance_id slot) none a.contexts

  -- The context of an activation. `contexts_.at` throws where the key is missing, which does not
  -- happen after `expire` (`Active`).
  abbrev pub activation_entry : ContextArbiter S → Option (Entry S)
  activation_entry a = elim a.activation [
    | none ↦ none
    | some active ↦ find ContextKey_discrete active.key a.contexts
  ]

  abbrev pub if_contributes : ViewSlot → Option (Entry S) → Option (Entry S)
  if_contributes slot none = none
  if_contributes slot (some entry) = if contributes entry.context slot then some entry else none

  abbrev pub or_else : Option (Entry S) → Option (Entry S) → Option (Entry S)
  or_else none entry = entry
  or_else (some entry) _ = some entry

  abbrev pub fallback : ContextArbiter S → ViewSlot → String
  fallback a compact = a.compact_default
  fallback a expanded = a.expanded_default

  -- The choice among the contexts that are left: the activated one, else the best temporary one,
  -- else the best of the default instance.
  unfoldable pub chosen : ContextArbiter S → ViewSlot → Option (Entry S)
  unfolding best_in_slot
  chosen a slot =
      let instance_id = fallback a slot in
      or_else (if_contributes slot (activation_entry a)) (
        or_else (select (is_temporary instance_id slot) none a.contexts)
          (best_in_slot a instance_id slot))
