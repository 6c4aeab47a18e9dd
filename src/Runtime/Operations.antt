-- ===== src/Runtime/Operations.antt =====
-- The methods of src/runtime.cpp that change the coordinator, one after another.
use gisland.Prelude.{
  Bool-cases, Expected, value, unexpected, ℕ, ◌+◌, ◌^◌, ◌<◌, String, ◌≡◌, refl, inl, inr, Bool,
  true, false, Option, none, some, List, [], ◌∷◌,
}
use gisland.Prelude.Maps.{Entries-keep_if, find, Entries-erase}
use gisland.Context.Types.{ContextKey, ViewSlot, PublishedContext, ContextKey_discrete}
use gisland.Context.Store.{ContextArbiter, string_eq, expire}
use gisland.Context.{context_of, available}
use gisland.Context.Choice.{chosen}
use gisland.Context.Invariant.{IsValid, dismiss-IsValid, expire-IsValid}
use gisland.Runtime.Types.{ViewLanguage, IslandMode, RuntimeError, SupervisorEvent}
use gisland.Runtime.State.{RuntimeCoordinator}
use gisland.Runtime.Messages.{deadline_after, consume}
use gisland.Runtime.Results.{configured_find, configured_error}
use gisland.Runtime.{
  selections, module_statuses, activated_with, dismiss_selected, active, activate, clear_activation,
  set_activation_held, dismiss_active, accept, reject,
}
use gisland.Runtime.Updates.{visibility_updates}
use gisland.Runtime.Events.{consume-IsConsistent}
use gisland.Runtime.Consistency.{
  IsConsistent, Remembered, activation-IsValid, activate-IsValid, clear_activation-IsValid,
  restored-IsValid,
}
use gisland.Context

module _ (V : ViewLanguage) where
  pub data Operation : Type 0 where
    consumed : SupervisorEvent V → Operation
    looked_at : ViewSlot → ℕ → Operation
    looked_at_both : ℕ → Operation
    activated : String → Option ℕ → ℕ → Operation
    cleared : Option ContextKey → Operation
    held : Bool → Operation
    listed : ℕ → Operation
    dismissed : String → ViewSlot → ℕ → Operation
    accepted : ContextKey → Operation
    rejected : ContextKey → ℕ → Operation
    updated : ℕ → IslandMode → Bool → Operation

module _ {V : ViewLanguage} where
  open V use {Scene}

  unfoldable pub perform : RuntimeCoordinator V → Operation V → RuntimeCoordinator V
  perform r (consumed event) = (consume r event).0
  perform r (looked_at slot now) = (active r slot now).0
  perform r (looked_at_both now) = (selections r now).0
  perform r (listed now) = (module_statuses r r.configured_instances now).0
  perform r (activated instance_id duration now) = (activate r instance_id duration now).0
  perform r (cleared expected_key) = clear_activation r expected_key
  perform r (held is_held) = set_activation_held r is_held
  perform r (dismissed context_id slot now) = (dismiss_active r context_id slot now).0
  perform r (accepted key) = accept r key
  perform r (rejected key now) = reject r key now
  perform r (updated now mode presented) = (visibility_updates r now mode presented).0

  active-IsConsistent :
      (r : RuntimeCoordinator V) (slot : ViewSlot) (now : ℕ)
      → IsConsistent r
      → IsConsistent (active r slot now).0
  unfolding active gisland.Context.active
  active-IsConsistent r slot now h = record {
    valid = expire-IsValid r.arbiter now h.valid;
    remembered = Entries-keep_if Remembered _ r.pending_replacements h.remembered;
  }

  activate-IsConsistent :
      (r : RuntimeCoordinator V) (instance_id : String) (duration : Option ℕ) (now : ℕ)
      → IsConsistent r
      → IsConsistent (activate r instance_id duration now).0
  unfolding activate
  activate-IsConsistent r instance_id duration now h =
      by_check (configured_error instance_id (configured_find instance_id r.configured_instances))
        refl
    where
      arbiter' : ContextArbiter Scene × Expected ContextKey (Unit {0})
      arbiter' = gisland.Context.activate r.arbiter instance_id (deadline_after now duration) now

      by_result :
          (p : ContextArbiter Scene × Expected ContextKey (Unit {0}))
          → IsValid p.0
          → IsConsistent (activated_with r instance_id p).0
      by_result (arbiter, unexpected _) v =
          unfold activated_with in (record { valid = v; remembered = h.remembered })
      by_result (arbiter, value key) v =
          unfold activated_with in (record { valid = v; remembered = h.remembered })

      by_check :
          (o : Option RuntimeError)
          → configured_error instance_id (configured_find instance_id r.configured_instances) ≡ o
          → IsConsistent (activate r instance_id duration now).0
      by_check (some error) e = rw (activate, e) h
      by_check none e =
          rw (activate, e)
            (by_result arbiter'
              (activate-IsValid r.arbiter instance_id (deadline_after now duration) now h.valid))

  dismiss_selected-IsConsistent :
      (r : RuntimeCoordinator V) (context_id : String) (o : Option (PublishedContext Scene))
      → IsConsistent r
      → IsConsistent (dismiss_selected r context_id o).0
  unfolding dismiss_selected
  dismiss_selected-IsConsistent r context_id none h = h
  dismiss_selected-IsConsistent r context_id (some c) h =
      elim (Bool-cases (string_eq c.key.context_id context_id)) [
        | inl e ↦
            rw e (record {
              valid = dismiss-IsValid r.arbiter c.key h.valid;
              remembered = h.remembered;
            })
        | inr e ↦ rw e h
      ]

  module_statuses-IsConsistent :
      (r : RuntimeCoordinator V) (items : List (String × Bool)) (now : ℕ)
      → IsConsistent r
      → IsConsistent (module_statuses r items now).0
  unfolding module_statuses available
  module_statuses-IsConsistent r [] now h = h
  module_statuses-IsConsistent r ((instance_id, true) ∷ items) now h =
      module_statuses-IsConsistent (record r { arbiter = expire r.arbiter now }) items now
        (record { valid = expire-IsValid r.arbiter now h.valid; remembered = h.remembered })
  module_statuses-IsConsistent r ((instance_id, false) ∷ items) now h =
      module_statuses-IsConsistent (record r { arbiter = r.arbiter }) items now
        (record { valid = h.valid; remembered = h.remembered })

  -- Every method but `commit_reload` keeps the coordinator consistent while the sequence number of the arbiter does
  -- not wrap: the arbiter stays valid, and what is remembered for the case of a rejection stands
  -- under its own key.
  pub perform-IsConsistent :
      (r : RuntimeCoordinator V) (operation : Operation V)
      → r.arbiter.sequence + 1 < 2 ^ 64
      → IsConsistent r
      → IsConsistent (perform r operation)
  unfolding perform
  perform-IsConsistent r (consumed event) n h = consume-IsConsistent r event n h
  perform-IsConsistent r (looked_at slot now) n h = active-IsConsistent r slot now h
  perform-IsConsistent r (looked_at_both now) n h =
      unfold selections in
      active-IsConsistent (active r ViewSlot.compact now).0 ViewSlot.expanded now
        (active-IsConsistent r ViewSlot.compact now h)
  perform-IsConsistent r (listed now) n h =
      module_statuses-IsConsistent r r.configured_instances now h
  perform-IsConsistent r (activated instance_id duration now) n h =
      activate-IsConsistent r instance_id duration now h
  perform-IsConsistent r (cleared expected) n h =
      unfold clear_activation in
      (record {
        valid = clear_activation-IsValid r.arbiter expected h.valid;
        remembered = h.remembered;
      })
  perform-IsConsistent r (held is_held) n h =
      unfold set_activation_held gisland.Context.set_activation_held in
      (record {
        valid = activation-IsValid r.arbiter r.arbiter.activation is_held h.valid;
        remembered = h.remembered;
      })
  perform-IsConsistent r (dismissed context_id slot now) n h =
      unfold dismiss_active gisland.Context.active in
      dismiss_selected-IsConsistent (record r { arbiter = expire r.arbiter now }) context_id
        (context_of (chosen (expire r.arbiter now) slot))
        (record { valid = expire-IsValid r.arbiter now h.valid; remembered = h.remembered })
  perform-IsConsistent r (accepted key) n h =
      unfold accept in
      (record {
        valid = h.valid;
        remembered =
            Entries-erase ContextKey_discrete Remembered key r.pending_replacements h.remembered;
      })
  perform-IsConsistent r (rejected key now) n h =
      unfold reject in
      (record {
        valid =
            restored-IsValid r.arbiter key now (find ContextKey_discrete key r.pending_replacements)
              n h.valid;
        remembered =
            Entries-erase ContextKey_discrete Remembered key r.pending_replacements h.remembered;
      })
  perform-IsConsistent r (updated now mode true) n h =
      unfold visibility_updates gisland.Context.active in
      (record { valid = expire-IsValid r.arbiter now h.valid; remembered = h.remembered })
  perform-IsConsistent r (updated now mode false) n h =
      unfold visibility_updates in (record { valid = h.valid; remembered = h.remembered })
