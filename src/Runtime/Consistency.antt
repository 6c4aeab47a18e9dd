-- ===== src/Runtime/Consistency.antt =====
-- The coordinator as a whole: what all its methods keep.
use gisland.Prelude.{
  Bool-cases, String_discrete, Expected, value, unexpected, ℕ, ◌+◌, ◌^◌, ◌<◌, String, ◌≡◌, inl, inr,
  Bool, false, Option, none, some,
}
use gisland.Prelude.Maps.{Entries, contains, insert_or_assign, emplace}
use gisland.Context.Types.{ContextKey, ViewTransitions, PublishedContext, ContextKey_discrete}
use gisland.Context.Store.{Entry, Activation, ContextArbiter, is_expected, holds, expire}
use gisland.Context.Choice.{best_for_instance}
use gisland.Context.{activated, find_context}
use gisland.Context.Invariant.{IsValid, dismiss-IsValid, expire-IsValid, publish-IsValid}
use gisland.Runtime.Types.{
  TemplateError, ViewLanguage, RuntimeError, InstantiatedViews, ModuleViewState,
}
use gisland.Runtime.State.{RuntimeCoordinator}
use gisland.Runtime.Messages.{remember_replacement, replace, configured_context, consume_data}
use gisland.Runtime.Results.{restored}
use gisland.Runtime.Rejection.{visible-key}

module _ {S : Type 0} where
  -- What is remembered under a key is a context of that key.
  abbrev pub Remembered : ContextKey → Option (PublishedContext S) → Type 0
  Remembered key previous = (c : PublishedContext S) → previous ≡ some c → c.key ≡ key

  pub activation-IsValid :
      (a : ContextArbiter S) (activation : Option Activation) (held : Bool)
      → IsValid a
      → IsValid (record a { activation = activation; activation_held = held })
  activation-IsValid a activation held v = record {
    distinct = v.distinct;
    keyed = v.keyed;
    sequenced = v.sequenced;
    numbered = v.numbered;
  }

  pub activate-IsValid :
      (a : ContextArbiter S) (instance_id : String) (deadline : Option ℕ) (now : ℕ)
      → IsValid a
      → IsValid (gisland.Context.activate a instance_id deadline now).0
  unfolding gisland.Context.activate activated
  activate-IsValid a instance_id deadline now v =
      activated-IsValid (best_for_instance (expire a now) instance_id)
    where
      activated-IsValid :
          (best : Option (Entry S)) → IsValid (activated (expire a now) deadline best).0
      activated-IsValid none = expire-IsValid a now v
      activated-IsValid (some best) =
          activation-IsValid (expire a now) _ (expire a now).activation_held
            (expire-IsValid a now v)

  pub clear_activation-IsValid :
      (a : ContextArbiter S) (expected : Option ContextKey)
      → IsValid a
      → IsValid (gisland.Context.clear_activation a expected).0
  unfolding gisland.Context.clear_activation
  clear_activation-IsValid a expected v =
      elim (Bool-cases (holds (is_expected expected) a.activation)) [
        | inl e ↦ rw e (activation-IsValid a none false v)
        | inr e ↦ rw e (activation-IsValid a a.activation false v)
      ]

  pub restored-IsValid :
      (a : ContextArbiter S) (key : ContextKey) (now : ℕ)
      (previous : Option (Option (PublishedContext S)))
      → a.sequence + 1 < 2 ^ 64
      → IsValid a
      → IsValid (restored a key now previous)
  restored-IsValid a key now none n v = dismiss-IsValid a key v
  restored-IsValid a key now (some none) n v = dismiss-IsValid a key v
  restored-IsValid a key now (some (some c)) n v = publish-IsValid a c now n v

module _ {V : ViewLanguage} where
  open V use {Scene}

  pub record IsConsistent (r : RuntimeCoordinator V) : Type 0 where
    pub valid : IsValid r.arbiter
    pub remembered : Entries Remembered r.pending_replacements

  pub replace-IsConsistent :
      (r : RuntimeCoordinator V) (c : PublishedContext Scene) (now : ℕ)
      → r.arbiter.sequence + 1 < 2 ^ 64
      → IsConsistent r
      → IsConsistent (replace r c now)
  unfolding replace remember_replacement
  replace-IsConsistent r c now n h =
      elim (Bool-cases (contains ContextKey_discrete c.key r.pending_replacements)) [
        | inl e ↦ rw e (record {
          valid = publish-IsValid r.arbiter c now n h.valid;
          remembered = h.remembered;
        })
        | inr e ↦ rw e (record {
          valid =
              unfold find_context in
              publish-IsValid (expire r.arbiter now) c now (unfold expire in n)
                (expire-IsValid r.arbiter now h.valid);
          remembered =
              unfold emplace in
              rw e ((λ p s. visible-key r.arbiter c.key now p h.valid s), h.remembered);
        })
      ]

  pub consume_data-IsConsistent :
      (r : RuntimeCoordinator V) (instance_id : String) (now : ℕ) (transitions : ViewTransitions)
      (applied : ModuleViewState V × Expected (Unit {0}) TemplateError)
      → r.arbiter.sequence + 1 < 2 ^ 64
      → IsConsistent r
      → IsConsistent (consume_data r instance_id now transitions applied).0
  unfolding consume_data
  consume_data-IsConsistent r instance_id now transitions (view, unexpected error) n h = h
  consume_data-IsConsistent r instance_id now transitions (view, value x) n h = shown view.views
    where
      known : RuntimeCoordinator V
      known = record r { views = insert_or_assign String_discrete instance_id view r.views }

      shown :
          (o : Option (InstantiatedViews V))
          → IsConsistent
              (elim o as (λ x. RuntimeCoordinator V × Expected (Unit {0}) RuntimeError) [
                | none ↦ (known, value tt)
                | some views ↦ (
                  replace known (configured_context r instance_id views transitions) now,
                  value tt,
                )
              ]).0
      shown none = record { valid = h.valid; remembered = h.remembered }
      shown (some views) =
          replace-IsConsistent known (configured_context r instance_id views transitions) now n
            (record { valid = h.valid; remembered = h.remembered })
