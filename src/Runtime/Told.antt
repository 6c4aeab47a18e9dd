-- ===== src/Runtime/Told.antt =====
-- All modules that are ready know whether they are seen.
use gisland.Prelude.{
  if◌then◌else◌, String_discrete, All, ℕ, String, ◌≡◌, refl, ap, ◌∙◌, subst, ◌≢◌, Bool, true, false,
  Option, none, some, List, [], ◌∷◌, arith,
}
use gisland.Prelude.Maps.{find, contains}
use gisland.Context.Types.{ViewSlot, PublishedContext}
use gisland.Context.Store.{ContextArbiter}
use gisland.Context.Choice.{chosen}
use gisland.Context.{context_of, active}
use gisland.Context.Lookup.{expire-expire}
use gisland.Runtime.Types.{
  ViewLanguage, Visibility, hidden, compact_active, expanded_active, IslandMode,
}
use gisland.Runtime.State.{RuntimeCoordinator}
use gisland.Runtime.Results.{slot_of}
use gisland.Runtime.Updates.{
  next_visibility, presented_context, visibility_loop, visibility_updates,
}
use gisland.Runtime.Notices.{
  Told, visibility_loop-Told, visibility_loop-quiet, recorded, visibility_loop-recorded, IsNews,
  visibility_loop-NextNews,
}

All-map :
    {A : Type 0} {P Q : A → Type 0} (xs : List A) → ((x : A) → P x → Q x) → All P xs → All Q xs
All-map [] f h = tt
All-map (x ∷ xs) f h = (f x h.0, All-map xs f h.1)

-- How an instance is seen that has the context shown in a mode.
abbrev pub seen_in : IslandMode → Visibility
seen_in IslandMode.compact = compact_active
seen_in IslandMode.expanded = expanded_active

abbrev pub view_of : IslandMode → ViewSlot
view_of IslandMode.compact = ViewSlot.compact
view_of IslandMode.expanded = ViewSlot.expanded

module _ {S : Type 0} where
  -- An instance is seen in the mode if it has the context that is shown, and hidden if another
  -- instance has it or nothing is shown.
  abbrev pub IsRight : Option (PublishedContext S) → IslandMode → String → Visibility → Type 0
  IsRight none mode instance_id visibility = visibility ≡ hidden
  IsRight (some shown) mode instance_id visibility =
      (shown.key.instance_id ≡ instance_id → visibility ≡ seen_in mode)
      × (shown.key.instance_id ≢ instance_id → visibility ≡ hidden)

  -- Something right is recorded of an instance that is ready.
  abbrev pub IsRecorded :
      Option (PublishedContext S)
      → IslandMode
      → List (String × Unit {0})
      → List (String × Visibility)
      → String
      → Type 0
  IsRecorded shown mode ready visibility instance_id =
      contains String_discrete instance_id ready ≡ true
      → (v : Visibility) × (find String_discrete instance_id visibility ≡ some v)
        × IsRight shown mode instance_id v

  next_visibility-IsRight :
      (shown : Option (PublishedContext S)) (mode : IslandMode) (instance_id : String)
      → IsRight shown mode instance_id (next_visibility shown mode instance_id)
  next_visibility-IsRight none mode instance_id = refl
  next_visibility-IsRight (some shown) IslandMode.compact instance_id =
      (λ same. ground (arith, same), λ other. ground (arith, other))
  next_visibility-IsRight (some shown) IslandMode.expanded instance_id =
      (λ same. ground (arith, same), λ other. ground (arith, other))

  -- What the modules see of an arbiter: nothing while the island is not presented.
  abbrev pub shown_to_modules :
      ContextArbiter S → ℕ → IslandMode → Bool → Option (PublishedContext S)
  shown_to_modules arbiter now mode presented =
      if presented then (active arbiter (view_of mode) now).1 else none

  presented_context-shown :
      (arbiter : ContextArbiter S) (now : ℕ) (mode : IslandMode) (presented : Bool)
      → (presented_context arbiter now mode presented).1
        ≡ shown_to_modules arbiter now mode presented
  presented_context-shown arbiter now IslandMode.compact true = refl
  presented_context-shown arbiter now IslandMode.compact false = refl
  presented_context-shown arbiter now IslandMode.expanded true = refl
  presented_context-shown arbiter now IslandMode.expanded false = refl

module _ {V : ViewLanguage} where
  visibility_updates-settled :
      (r : RuntimeCoordinator V) (now : ℕ) (mode : IslandMode) (presented : Bool)
      → let selected = (presented_context r.arbiter now mode presented).1 in
        let updated = (visibility_updates r now mode presented).0 in
        All
          (λ instance_id.
            Told (next_visibility selected mode) r.ready_instances instance_id updated.visibility)
          r.enabled_instances
        × ((visibility_updates updated now mode presented).1 ≡ [])
  unfolding visibility_updates active
  visibility_updates-settled r now mode presented = (
    visibility_loop-Told (next_visibility (presented_context r.arbiter now mode presented).1 mode)
        r.ready_instances r.enabled_instances r.visibility,
    ap
          (λ s.
            (visibility_loop (next_visibility s mode) r.ready_instances r.enabled_instances
              (visibility_loop
                (next_visibility (presented_context r.arbiter now mode presented).1 mode)
                r.ready_instances r.enabled_instances r.visibility).0).1)
          (presented-presented presented)
        ∙ visibility_loop-quiet
            (next_visibility (presented_context r.arbiter now mode presented).1 mode)
            r.ready_instances r.enabled_instances _
            (visibility_loop-Told
              (next_visibility (presented_context r.arbiter now mode presented).1 mode)
              r.ready_instances r.enabled_instances r.visibility),
  )
    where
      presented-presented :
          (b : Bool)
          → (presented_context (presented_context r.arbiter now mode b).0 now mode b).1
            ≡ (presented_context r.arbiter now mode b).1
      presented-presented false = refl
      presented-presented true =
          ap (λ a. context_of (chosen a (slot_of mode))) (expire-expire r.arbiter now)

  -- After the updates every enabled instance that is ready is recorded as seen in the presented
  -- mode if it has the context that the mode's view shows, and as hidden if it has not or nothing
  -- is presented. The updates are what makes this record out of the one before, in order, and each
  -- of them says something that was not recorded; a second call at the same time has no update.
  pub visibility_updates-Told :
      (r : RuntimeCoordinator V) (now : ℕ) (mode : IslandMode) (presented : Bool)
      → let shown = shown_to_modules r.arbiter now mode presented in
        let (updated, updates) = visibility_updates r now mode presented in
        All (IsRecorded shown mode r.ready_instances updated.visibility) r.enabled_instances
        × (updated.visibility ≡ recorded r.visibility updates)
        × All (IsNews r.visibility) updates
        × ((visibility_updates updated now mode presented).1 ≡ [])
  visibility_updates-Told r now mode presented = (
    All-map r.enabled_instances right settled.0,
    unfold visibility_updates in
        (visibility_loop-recorded (next_visibility selected mode) r.ready_instances
          r.enabled_instances r.visibility),
    unfold visibility_updates in
        (All-map _ (λ update h. h.1)
          (visibility_loop-NextNews (next_visibility selected mode) r.ready_instances
            r.enabled_instances r.visibility)),
    settled.1,
  )
    where
      selected : Option (PublishedContext V.Scene)
      selected = (presented_context r.arbiter now mode presented).1

      settled :
          All
            (λ instance_id.
              Told
                (next_visibility selected mode)
                r.ready_instances
                instance_id
                (visibility_updates r now mode presented).0.visibility)
            r.enabled_instances
          × ((visibility_updates (visibility_updates r now mode presented).0 now mode presented).1
              ≡ [])
      settled = visibility_updates-settled r now mode presented

      right :
          (instance_id : String)
          → Told
              (next_visibility selected mode)
              r.ready_instances
              instance_id
              (visibility_updates r now mode presented).0.visibility
          → IsRecorded
              (shown_to_modules r.arbiter now mode presented)
              mode
              r.ready_instances
              (visibility_updates r now mode presented).0.visibility
              instance_id
      right instance_id told is_ready = (
        next_visibility selected mode instance_id,
        told is_ready,
        subst (λ c. IsRight c mode instance_id (next_visibility selected mode instance_id))
            (presented_context-shown r.arbiter now mode presented)
            (next_visibility-IsRight selected mode instance_id),
      )
