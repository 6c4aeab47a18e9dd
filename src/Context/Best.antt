-- ===== src/Context/Best.antt =====
-- The context that `active` shows is the one to be shown.
use gisland.Prelude.{
  if◌then◌else◌, Bool-cases, ℕ, ◌≡◌, refl, sym, ap, ◌∙◌, ◌⊎◌, inl, inr, Bool, true, false, not,
  ◌&&◌, ◌||◌, Option, none, some, arith,
}
use gisland.Prelude.Maps.{Distinct, find, contains, when, find-keep_if}
use gisland.Context.Types.{ViewSlot, compact, expanded, ContextKey_discrete}
use gisland.Context.Store.{
  Entry, Activation, ContextArbiter, passed, reset_if, is_live, live, expire,
}
use gisland.Context.Choice.{contributes, if_contributes}
use gisland.Context.{context_of, active}
use gisland.Context.Invariant.{IsValid}
use gisland.Context.Active.{IsChoice, active-IsChoice}
use gisland.Context.Kinds.{
  Ahead, passed_iff, HasView, IsActivated, NotActivated, IsShown, is_live_iff, contributes_iff,
  is_temporary_iff, of_instance_in_iff, live-HasNone, find-IsFresh, live-IsBest,
}

module _ {S : Type 0} where
  if_contributes-some :
      (slot : ViewSlot) (o : Option (Entry S)) (r : Entry S)
      → if_contributes slot o ≡ some r
      → (o ≡ some r) × HasView slot r
  if_contributes-some slot none r h = cc
  if_contributes-some slot (some e) r h = elim (Bool-cases (contributes e.context slot)) [
    | inl there ↦
        let same : some e ≡ some r = sym (ap (λ b. if b then some e else none) there) ∙ h in
        (same, (contributes_iff slot r).0 (ground (arith, there, same)))
    | inr missing ↦ absurd (ground (arith, missing, h))
  ]

  -- The test of `expire` for an activation that is over.
  abbrev is_over : ContextArbiter S → ℕ → Activation → Bool
  is_over a now x =
      not a.activation_held && passed x.deadline now
      || not (contains ContextKey_discrete x.key (live a.contexts now))

  is_over-timely :
      (a : ContextArbiter S) (now : ℕ) (x : Activation)
      → is_over a now x ≡ false
      → (a.activation_held ≡ true) ⊎ Ahead x.deadline now
  is_over-timely a now x h = elim (Bool-cases a.activation_held) [
    | inl held ↦ inl held
    | inr free ↦ inr ((passed_iff x.deadline now).0 (ground (arith, free, h)))
  ]

  -- The entry that an activation stands for, once what is over is dropped.
  abbrev entry_of : ContextArbiter S → ViewSlot → ℕ → Option Activation → Option (Entry S)
  entry_of a slot now o = if_contributes slot (elim (reset_if (is_over a now) o) [
    | none ↦ none
    | some x ↦ find ContextKey_discrete x.key (live a.contexts now)
  ])

  entry_of-IsActivated :
      (a : ContextArbiter S) (slot : ViewSlot) (now : ℕ) (o : Option Activation) (r : Entry S)
      → Distinct a.contexts
      → a.activation ≡ o
      → entry_of a slot now o ≡ some r
      → IsActivated a slot now r
  entry_of-IsActivated a slot now none r d e h = cc
  entry_of-IsActivated a slot now (some x) r d e h = elim (Bool-cases (is_over a now x)) [
    | inl over ↦ absurd (ground (arith, over, h))
    | inr lasting ↦
        let (found, view) =
          if_contributes-some slot (find ContextKey_discrete x.key (live a.contexts now)) r
            (ground (arith, lasting, h)) in
        let (there, fresh) = find-IsFresh x.key a.contexts now r d found in
        (x, e, is_over-timely a now x lasting, there, fresh, view)
  ]

  IsActivated-entry_of :
      (a : ContextArbiter S) (slot : ViewSlot) (now : ℕ) (r : Entry S)
      → Distinct a.contexts
      → IsActivated a slot now r
      → entry_of a slot now a.activation ≡ some r
  IsActivated-entry_of a slot now r d (x, e, timely, there, fresh, view) =
      ap (entry_of a slot now) e ∙ ground (arith, found, lasting, (contributes_iff slot r).1 view)
    where
      found : find ContextKey_discrete x.key (live a.contexts now) ≡ some r
      found =
          find-keep_if ContextKey_discrete (is_live now) x.key a.contexts d
          ∙ ap (when ContextKey_discrete (is_live now) x.key) there
          ∙ ap (λ b. if b then some r else none) ((is_live_iff now x.key r).1 fresh)

      lasting : is_over a now x ≡ false
      lasting = elim timely [
        | inl held ↦ ground (arith, held, found)
        | inr ahead ↦ ground (arith, (passed_iff x.deadline now).1 ahead, found)
      ]

  IsChoice-IsShown :
      (a : ContextArbiter S) (slot : ViewSlot) (now : ℕ) (o : Option (Entry S))
      → Distinct a.contexts
      → IsChoice (expire a now) slot o
      → IsShown a slot now o
  unfolding expire
  IsChoice-IsShown a slot now o d h = by_slot slot o h
    where
      activated :
          (slot : ViewSlot) (r : Entry S)
          → entry_of a slot now a.activation ≡ some r
          → IsActivated a slot now r
      activated slot r e = entry_of-IsActivated a slot now a.activation r d refl e

      not_activated :
          (slot : ViewSlot) → entry_of a slot now a.activation ≡ none → NotActivated a slot now
      not_activated slot e r is_activated =
          absurd (ground (arith, e, IsActivated-entry_of a slot now r d is_activated))

      by_slot :
          (slot : ViewSlot) (o : Option (Entry S))
          → IsChoice (expire a now) slot o
          → IsShown a slot now o
      by_slot compact none (p, t, f) = (
        not_activated compact p,
        live-HasNone _ _ a.contexts now (is_temporary_iff a.compact_default compact) t,
        live-HasNone _ _ a.contexts now (of_instance_in_iff a.compact_default compact) f,
      )
      by_slot expanded none (p, t, f) = (
        not_activated expanded p,
        live-HasNone _ _ a.contexts now (is_temporary_iff a.expanded_default expanded) t,
        live-HasNone _ _ a.contexts now (of_instance_in_iff a.expanded_default expanded) f,
      )
      by_slot slot (some r) (inl p) = inl (activated slot r p)
      by_slot compact (some r) (inr (inl (p, found, upper))) = inr (
          inl (
            not_activated compact p,
            live-IsBest _ _ a.contexts now r (is_temporary_iff a.compact_default compact) d found
                upper,
          ))
      by_slot expanded (some r) (inr (inl (p, found, upper))) = inr (
          inl (
            not_activated expanded p,
            live-IsBest _ _ a.contexts now r (is_temporary_iff a.expanded_default expanded) d found
                upper,
          ))
      by_slot compact (some r) (inr (inr (p, t, found, upper))) = inr (
          inr (
            not_activated compact p,
            live-HasNone _ _ a.contexts now (is_temporary_iff a.compact_default compact) t,
            live-IsBest _ _ a.contexts now r (of_instance_in_iff a.compact_default compact) d found
                upper,
          ))
      by_slot expanded (some r) (inr (inr (p, t, found, upper))) = inr (
          inr (
            not_activated expanded p,
            live-HasNone _ _ a.contexts now (is_temporary_iff a.expanded_default expanded) t,
            live-IsBest _ _ a.contexts now r (of_instance_in_iff a.expanded_default expanded) d
                found upper,
          ))

  -- What `active` shows of a valid arbiter is the context of the activation that is held or not
  -- over, if the context has not expired and has the view; without one, among the contexts that
  -- have not expired and have the view, are of no default instance and not only for an activation,
  -- one of the highest priority and of those the latest; without one, such a one among those of
  -- the default instance; without one, nothing.
  pub active-IsShown :
      (a : ContextArbiter S) (slot : ViewSlot) (now : ℕ)
      → IsValid a
      → (r : Option (Entry S)) × ((active a slot now).1 ≡ context_of r) × IsShown a slot now r
  active-IsShown a slot now v =
      let (r, shows, choice) = active-IsChoice a slot now v in
      (r, shows, IsChoice-IsShown a slot now r v.distinct choice)
