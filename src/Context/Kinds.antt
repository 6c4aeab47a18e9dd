-- ===== src/Context/Kinds.antt =====
-- What a view shows, said without the tests of the code: which contexts may be shown, and which of
-- them comes first.
-- The time, if there is one, is yet to come.
use gisland.Prelude.{
  if◌then◌else◌, Bool-cases, is_some, ℕ, ◌<◌, String, ◌≡◌, refl, sym, ap, ◌∙◌, ◌≢◌, ◌↔◌, ◌⊎◌, inl,
  inr, Bool, true, false, Option, none, some, List, arith,
}
use gisland.Prelude.Maps.{
  Entries, Distinct, Entries-unkeep_if, Entries-map, find, when, find-keep_if,
}
use gisland.Prelude.Int.{◌<ℤ◌, ◌≤ℤ◌}
use gisland.Context.Types.{ContextKey, ViewSlot, compact, expanded, ContextKey_discrete}
use gisland.Context.Store.{Entry, Activation, ContextArbiter, passed, is_live, live}
use gisland.Context.Choice.{contributes, precedes, of_instance_in, is_temporary}
use gisland.Context.Selection.{IsUpper, Accepted}

abbrev pub Ahead : Option ℕ → ℕ → Type 0
Ahead none now = Unit {0}
Ahead (some time) now = now < time

pub passed_iff : (time : Option ℕ) (now : ℕ) → (passed time now ≡ false) ↔ Ahead time now
passed_iff none now = ground arith
passed_iff (some time) now = ground arith

module _ {S : Type 0} where
  abbrev pub IsFresh : ℕ → Entry S → Type 0
  IsFresh now e = Ahead e.context.expires_at now

  abbrev pub HasView : ViewSlot → Entry S → Type 0
  HasView compact e = e.context.compact ≢ none
  HasView expanded e = e.context.expanded ≢ none

  -- A higher priority, or the same one and a later publication.
  abbrev pub Outranks : Entry S → Entry S → Type 0
  Outranks e r =
      (r.context.priority <ℤ e.context.priority)
      ⊎ ((e.context.priority ≤ℤ r.context.priority)
          × (r.context.priority ≤ℤ e.context.priority)
          × (r.sequence < e.sequence))

  -- A context with the view that is not of the default instance and not only for an activation.
  abbrev pub IsTemporary : String → ViewSlot → ContextKey → Entry S → Type 0
  IsTemporary default slot k e =
      HasView slot e × (k.instance_id ≢ default) × (e.context.fallback_only ≡ false)

  abbrev pub IsOfDefault : String → ViewSlot → ContextKey → Entry S → Type 0
  IsOfDefault default slot k e = HasView slot e × (k.instance_id ≡ default)

  abbrev pub default_of : ContextArbiter S → ViewSlot → String
  default_of a compact = a.compact_default
  default_of a expanded = a.expanded_default

  -- The context of an activation that is held or not over, with the view.
  abbrev pub IsActivated : ContextArbiter S → ViewSlot → ℕ → Entry S → Type 0
  IsActivated a slot now r =
      (x : Activation) × (a.activation ≡ some x)
      × ((a.activation_held ≡ true) ⊎ Ahead x.deadline now)
      × (find ContextKey_discrete x.key a.contexts ≡ some r)
      × IsFresh now r
      × HasView slot r

  -- A fresh context of a kind that no fresh context of the kind outranks.
  abbrev pub IsBest :
      (ContextKey → Entry S → Type 0) → List (ContextKey × Entry S) → ℕ → Entry S → Type 0
  IsBest Kind contexts now r =
      (k : ContextKey) × (find ContextKey_discrete k contexts ≡ some r)
      × IsFresh now r
      × Kind k r
      × Entries (λ j e. IsFresh now e → Kind j e → ¬ Outranks e r) contexts

  abbrev pub HasNone : (ContextKey → Entry S → Type 0) → List (ContextKey × Entry S) → ℕ → Type 0
  HasNone Kind contexts now = Entries (λ j e. IsFresh now e → ¬ Kind j e) contexts

  abbrev pub NotActivated : ContextArbiter S → ViewSlot → ℕ → Type 0
  NotActivated a slot now = (e : Entry S) → ¬ IsActivated a slot now e

  -- What is to be shown: the context of the activation; without one the best temporary context;
  -- without one the best context of the default instance; without one nothing.
  abbrev pub IsShown : ContextArbiter S → ViewSlot → ℕ → Option (Entry S) → Type 0
  IsShown a slot now (some r) =
      IsActivated a slot now r
      ⊎ (NotActivated a slot now × IsBest (IsTemporary (default_of a slot) slot) a.contexts now r)
      ⊎ (NotActivated a slot now
          × HasNone (IsTemporary (default_of a slot) slot) a.contexts now
          × IsBest (IsOfDefault (default_of a slot) slot) a.contexts now r)
  IsShown a slot now none =
      NotActivated a slot now
      × HasNone (IsTemporary (default_of a slot) slot) a.contexts now
      × HasNone (IsOfDefault (default_of a slot) slot) a.contexts now

  pub is_live_iff :
      (now : ℕ) (k : ContextKey) (e : Entry S) → (is_live now k e ≡ true) ↔ IsFresh now e
  is_live_iff now k e = ground (arith, passed_iff e.context.expires_at now)

  is_some_iff : (o : Option S) → (is_some o ≡ true) ↔ (o ≢ none)
  is_some_iff none = (λ h. cc, λ h. absurd (h refl))
  is_some_iff (some s) = (λ h k. cc, λ h. refl)

  pub contributes_iff :
      (slot : ViewSlot) (e : Entry S) → (contributes e.context slot ≡ true) ↔ HasView slot e
  contributes_iff compact e = is_some_iff e.context.compact
  contributes_iff expanded e = is_some_iff e.context.expanded

  pub is_temporary_iff :
      (default : String) (slot : ViewSlot) (k : ContextKey) (e : Entry S)
      → (is_temporary default slot k e ≡ true) ↔ IsTemporary default slot k e
  is_temporary_iff default slot k e = (
    λ h. ((contributes_iff slot e).0 (ground (arith, h)), ground (arith, h), ground (arith, h)),
    λ h. ground (arith, (contributes_iff slot e).1 h.0, h.1, h.2),
  )

  pub of_instance_in_iff :
      (default : String) (slot : ViewSlot) (k : ContextKey) (e : Entry S)
      → (of_instance_in default slot k e ≡ true) ↔ IsOfDefault default slot k e
  of_instance_in_iff default slot k e = (
    λ h. ((contributes_iff slot e).0 (ground (arith, h)), ground (arith, h)),
    λ h. ground (arith, (contributes_iff slot e).1 h.0, h.1),
  )

  precedes_iff : (e r : Entry S) → (precedes e r ≡ true) ↔ Outranks e r
  unfolding precedes
  precedes_iff e r = ground arith

  -- A test and the kind of contexts that it is for.
  abbrev pub Decides : (ContextKey → Entry S → Bool) → (ContextKey → Entry S → Type 0) → Type 0
  Decides accepts Kind = (k : ContextKey) (e : Entry S) → (accepts k e ≡ true) ↔ Kind k e

  pub live-HasNone :
      (accepts : ContextKey → Entry S → Bool) (Kind : ContextKey → Entry S → Type 0)
      (m : List (ContextKey × Entry S)) (now : ℕ)
      → Decides accepts Kind
      → Entries (λ k e. accepts k e ≡ false) (live m now)
      → HasNone Kind m now
  live-HasNone accepts Kind m now d h =
      Entries-map (λ k e. is_live now k e ≡ true → accepts k e ≡ false)
        (λ k e. IsFresh now e → ¬ Kind k e) m
        (λ k e refused fresh kind.
          absurd (ground (arith, refused ((is_live_iff now k e).1 fresh), (d k e).1 kind)))
        (Entries-unkeep_if (λ k e. accepts k e ≡ false) (is_live now) m h)

  -- An entry that is left once the expired ones are dropped is one of the entries, and fresh.
  pub find-IsFresh :
      (key : ContextKey) (m : List (ContextKey × Entry S)) (now : ℕ) (r : Entry S)
      → Distinct m
      → find ContextKey_discrete key (live m now) ≡ some r
      → (find ContextKey_discrete key m ≡ some r) × IsFresh now r
  find-IsFresh key m now r d h =
      kept (find ContextKey_discrete key m)
        (sym (find-keep_if ContextKey_discrete (is_live now) key m d) ∙ h)
    where
      kept :
          (o : Option (Entry S))
          → when ContextKey_discrete (is_live now) key o ≡ some r
          → (o ≡ some r) × IsFresh now r
      kept none e = cc
      kept (some x) e = elim (Bool-cases (is_live now key x)) [
        | inl fresh ↦
            let same : some x ≡ some r = sym (ap (λ b. if b then some x else none) fresh) ∙ e in
            (same, (is_live_iff now key r).0 (ground (arith, fresh, same)))
        | inr stale ↦ absurd (ground (arith, stale, e))
      ]

  pub live-IsBest :
      (accepts : ContextKey → Entry S → Bool) (Kind : ContextKey → Entry S → Type 0)
      (m : List (ContextKey × Entry S)) (now : ℕ) (r : Entry S)
      → Decides accepts Kind
      → Distinct m
      → Accepted accepts (live m now) r
      → IsUpper accepts r (live m now)
      → IsBest Kind m now r
  live-IsBest accepts Kind m now r d distinct (k, found, accepted) upper =
      let (there, fresh) = find-IsFresh k m now r distinct found in
      (
        k,
        there,
        fresh,
        (d k r).0 accepted,
        Entries-map (λ j e. is_live now j e ≡ true → accepts j e ≡ true → precedes e r ≡ false)
            (λ j e. IsFresh now e → Kind j e → ¬ Outranks e r) m
            (λ j e lower fresh' kind outranks. absurd (
              ground (
                arith,
                lower ((is_live_iff now j e).1 fresh') ((d j e).1 kind),
                (precedes_iff e r).1 outranks,
              )))
            (Entries-unkeep_if (λ j e. accepts j e ≡ true → precedes e r ≡ false) (is_live now) m
              upper),
      )
