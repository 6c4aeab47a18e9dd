-- ===== src/Context/Active.antt =====
-- What a view shows: a choice among the entries by the tests of the code.
use gisland.Prelude.{
  ℕ, ◌≡◌, refl, ◌⊎◌, inl, inr, Bool, true, false, not, ◌&&◌, ◌||◌, Option, none, some, List, arith,
}
use gisland.Prelude.Maps.{Entries, Distinct, contains}
use gisland.Context.Types.{ContextKey, ViewSlot, ContextKey_discrete}
use gisland.Context.Store.{Entry, Activation, ContextArbiter, passed, reset_if, live, expire}
use gisland.Context.Choice.{
  select, of_instance_in, is_temporary, activation_entry, if_contributes, or_else, fallback, chosen,
}
use gisland.Context.{context_of, active}
use gisland.Context.Selection.{IsUpper, select-none, Accepted, select-Accepted}
use gisland.Context.Invariant.{IsValid, expire-IsValid}

module _ {S : Type 0} where
  -- After `expire`, an activation is one of a context that is there: `contexts_.at` does not throw.
  pub expire-activation :
      (a : ContextArbiter S) (now : ℕ) (active : Activation)
      → (expire a now).activation ≡ some active
      → contains ContextKey_discrete active.key (expire a now).contexts ≡ true
  unfolding expire
  expire-activation a now active h = reset a.activation h
    where
      kept : List (ContextKey × Entry S)
      kept = live a.contexts now

      gone : Activation → Bool
      gone x =
          not a.activation_held && passed x.deadline now
          || not (contains ContextKey_discrete x.key kept)

      reset :
          (o : Option Activation)
          → reset_if gone o ≡ some active
          → contains ContextKey_discrete active.key kept ≡ true
      reset none e = cc
      reset (some x) e = ground arith

  -- The entry that the activation stands for, if it contributes to the slot.
  abbrev pub pinned : ContextArbiter S → ViewSlot → Option (Entry S)
  pinned a slot = if_contributes slot (activation_entry a)

  abbrev pub temporary : ContextArbiter S → ViewSlot → ContextKey → Entry S → Bool
  temporary a slot = is_temporary (fallback a slot) slot

  abbrev pub default_entry : ContextArbiter S → ViewSlot → ContextKey → Entry S → Bool
  default_entry a slot = of_instance_in (fallback a slot) slot

  abbrev pub Refused : (ContextKey → Entry S → Bool) → List (ContextKey × Entry S) → Type 0
  Refused accepts = Entries (λ k e. accepts k e ≡ false)

  -- A right choice of an entry to show: what is pinned; or, nothing
  -- being pinned, a temporary context that no other precedes; or, there being none either, such a
  -- context of the default instance; or nothing, where none of these is there.
  abbrev pub IsChoice : ContextArbiter S → ViewSlot → Option (Entry S) → Type 0
  IsChoice a slot (some r) =
      (pinned a slot ≡ some r)
      ⊎ ((pinned a slot ≡ none)
          × Accepted (temporary a slot) a.contexts r
          × IsUpper (temporary a slot) r a.contexts)
      ⊎ ((pinned a slot ≡ none)
          × Refused (temporary a slot) a.contexts
          × Accepted (default_entry a slot) a.contexts r
          × IsUpper (default_entry a slot) r a.contexts)
  IsChoice a slot none =
      (pinned a slot ≡ none)
      × Refused (temporary a slot) a.contexts
      × Refused (default_entry a slot) a.contexts

  chosen_from :
      (a : ContextArbiter S) (slot : ViewSlot) (p t d : Option (Entry S))
      → Distinct a.contexts
      → pinned a slot ≡ p
      → select (temporary a slot) none a.contexts ≡ t
      → select (default_entry a slot) none a.contexts ≡ d
      → IsChoice a slot (or_else p (or_else t d))
  chosen_from a slot (some r) t d v p s f = inl p
  chosen_from a slot none (some r) d v p s f =
      let (found, upper) = select-Accepted (temporary a slot) a.contexts r v s in
      inr (inl (p, found, upper))
  chosen_from a slot none none (some r) v p s f =
      let (found, upper) = select-Accepted (default_entry a slot) a.contexts r v f in
      inr (inr (p, select-none (temporary a slot) a.contexts s, found, upper))
  chosen_from a slot none none none v p s f = (
    p,
    select-none (temporary a slot) a.contexts s,
    select-none (default_entry a slot) a.contexts f,
  )

  chosen-IsChoice :
      (a : ContextArbiter S) (slot : ViewSlot)
      → Distinct a.contexts
      → IsChoice a slot (chosen a slot)
  unfolding chosen
  chosen-IsChoice a slot v = chosen_from a slot _ _ _ v refl refl refl

  -- What `active` shows of a valid arbiter is a right choice among the contexts that are left once
  -- the expired ones are dropped.
  pub active-IsChoice :
      (a : ContextArbiter S) (slot : ViewSlot) (now : ℕ)
      → IsValid a
      → (r : Option (Entry S)) × ((active a slot now).1 ≡ context_of r)
        × IsChoice (expire a now) slot r
  unfolding active
  active-IsChoice a slot now v = (
    chosen (expire a now) slot,
    refl,
    chosen-IsChoice (expire a now) slot (expire-IsValid a now v).distinct,
  )
