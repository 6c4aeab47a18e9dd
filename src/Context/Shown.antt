-- ===== src/Context/Shown.antt =====
-- What is shown is there to be shown, and what is activated is shown.
use gisland.Prelude.{
  Option-cases, value, ℕ, ◌≤◌, String, ◌≡◌, refl, sym, ap, ◌∙◌, subst, ◌⊎◌, inl, inr, true, false,
  Option, none, some, List, arith,
}
use gisland.Prelude.Maps.{Distinct, Distinct-keep_if, find, Entries-find, when, find-keep_if}
use gisland.Context.Types.{ContextKey, ViewSlot, PublishedContext, ContextKey_discrete}
use gisland.Context.Store.{Entry, Activation, ContextArbiter, passed, is_live, live, expire}
use gisland.Context.Choice.{contributes, best_for_instance, if_contributes, chosen}
use gisland.Context.{context_of, activated, activate, find_context, active}
use gisland.Context.Invariant.{IsValid, expire-IsValid}
use gisland.Context.Active.{pinned, IsChoice, active-IsChoice}
use gisland.Context.Lookup.{passed_later, visible, unexpired, find-live, visible_lem}

module _ {S : Type 0} where
  -- Every entry under a key that contributes, however it was chosen.
  abbrev Contributing : ViewSlot → List (ContextKey × Entry S) → Entry S → Type 0
  Contributing slot m r =
      (k : ContextKey) × (find ContextKey_discrete k m ≡ some r)
      × (contributes r.context slot ≡ true)

  pinned-Contributing :
      (a : ContextArbiter S) (slot : ViewSlot) (r : Entry S)
      → pinned a slot ≡ some r
      → Contributing slot a.contexts r
  pinned-Contributing a slot r h = from a.activation h
    where
      entry : Option Activation → Option (Entry S)
      entry o = elim o [ none ↦ none | some x ↦ find ContextKey_discrete x.key a.contexts ]

      from :
          (o : Option Activation)
          → if_contributes slot (entry o) ≡ some r
          → Contributing slot a.contexts r
      from none e = cc
      from (some x) e = (x.key, ground arith, ground arith)

  choice-Contributing :
      (a : ContextArbiter S) (slot : ViewSlot) (r : Entry S)
      → IsChoice a slot (some r)
      → Contributing slot a.contexts r
  choice-Contributing a slot r (inl p) = pinned-Contributing a slot r p
  choice-Contributing a slot r (inr (inl (_, (k, f, t), _))) = (k, f, ground arith)
  choice-Contributing a slot r (inr (inr (_, _, (k, f, t), _))) = (k, f, ground arith)

  -- A context that a valid arbiter shows in a view is one that it holds under the context's own
  -- key, that has not expired, and that contributes to the view.
  pub active-visible :
      (a : ContextArbiter S) (slot : ViewSlot) (now : ℕ) (c : PublishedContext S)
      → IsValid a
      → (active a slot now).1 ≡ some c
      → (visible a c.key now ≡ some c) × (contributes c slot ≡ true)
  active-visible a slot now c v h =
      let (r, shown, choice) = active-IsChoice a slot now v in held r choice (sym shown ∙ h)
    where
      kept : IsValid (expire a now)
      kept = expire-IsValid a now v

      held :
          (o : Option (Entry S))
          → IsChoice (expire a now) slot o
          → context_of o ≡ some c
          → (visible a c.key now ≡ some c) × (contributes c slot ≡ true)
      held none choice e = cc
      held (some r) choice e =
          let (k, found, there) = choice-Contributing (expire a now) slot r choice in
          let own : r.context.key ≡ k =
            Entries-find ContextKey_discrete (λ key x. x.context.key ≡ key) k r
              (expire a now).contexts kept.keyed found in
          let same : r.context ≡ c = ground (arith, e) in
          (
            unfold find_context in
                (ap (λ key. context_of (find ContextKey_discrete key (expire a now).contexts))
                    (ap (λ x. x.key) (sym same) ∙ own)
                  ∙ ap context_of found
                  ∙ e),
            subst (λ x. contributes x slot ≡ true) same there,
          )

  -- The deadline of an activation counts only while the activation is not held.
  abbrev pub Lasts : ContextArbiter S → Option ℕ → ℕ → Type 0
  Lasts a deadline now = (a.activation_held ≡ true) ⊎ (passed deadline now ≡ false)

  activated-activation :
      (a : ContextArbiter S) (deadline : Option ℕ) (best : Option (Entry S)) (key : ContextKey)
      → (activated a deadline best).1 ≡ value key
      → (activated a deadline best).0
        ≡ record a { activation = some (record { key = key; deadline = deadline }) }
  unfolding activated
  activated-activation a deadline none key h = cc
  activated-activation a deadline (some best) key h = ground arith

  live-live :
      (key : ContextKey) (m : List (ContextKey × Entry S)) (now later : ℕ)
      → Distinct m
      → now ≤ later
      → context_of (find ContextKey_discrete key (live (live m now) later))
        ≡ unexpired later (find ContextKey_discrete key m)
  live-live key m now later d h =
      find-live key (live m now) later (Distinct-keep_if (is_live now) m d)
      ∙ ap (unexpired later) (find-keep_if ContextKey_discrete (is_live now) key m d)
      ∙ sooner (find ContextKey_discrete key m)
    where
      sooner :
          (o : Option (Entry S))
          → unexpired later (when ContextKey_discrete (is_live now) key o) ≡ unexpired later o
      sooner none = refl
      sooner (some e) = ground (arith, passed_later e.context.expires_at now later h)

  -- What expires on its own is not missed: a later look sees the same.
  pub visible-expire :
      (a : ContextArbiter S) (key : ContextKey) (now later : ℕ)
      → IsValid a
      → now ≤ later
      → visible (expire a now) key later ≡ visible a key later
  unfolding find_context expire
  visible-expire a key now later v h =
      live-live key a.contexts now later v.distinct h ∙ sym (visible_lem a key later v)

  expire-keeps :
      (a : ContextArbiter S) (key : ContextKey) (deadline : Option ℕ) (later : ℕ) (r : Entry S)
      → a.activation ≡ some (record { key = key; deadline = deadline })
      → find ContextKey_discrete key (live a.contexts later) ≡ some r
      → Lasts a deadline later
      → (expire a later).activation ≡ some (record { key = key; deadline = deadline })
  unfolding expire
  expire-keeps a key deadline later r e f h = rw e (ground arith)

  pinned-chosen :
      (a : ContextArbiter S) (key : ContextKey) (deadline : Option ℕ) (slot : ViewSlot)
      (r : Entry S)
      → a.activation ≡ some (record { key = key; deadline = deadline })
      → find ContextKey_discrete key a.contexts ≡ some r
      → contributes r.context slot ≡ true
      → chosen a slot ≡ some r
  unfolding chosen
  pinned-chosen a key deadline slot r e f t = ground arith

  activated_shown :
      (a : ContextArbiter S) (key : ContextKey) (deadline : Option ℕ) (slot : ViewSlot) (later : ℕ)
      (c : PublishedContext S)
      → a.activation ≡ some (record { key = key; deadline = deadline })
      → context_of (find ContextKey_discrete key (live a.contexts later)) ≡ some c
      → contributes c slot ≡ true
      → Lasts a deadline later
      → (active a slot later).1 ≡ some c
  activated_shown a key deadline slot later c e f t h =
      elim (Option-cases (find ContextKey_discrete key (live a.contexts later))) [
        | inl gone ↦ absurd (missing (sym (ap context_of gone) ∙ f))
        | inr (r, there) ↦
            let same : r.context ≡ c = ground (arith, sym (ap context_of there) ∙ f) in
            unfold active in
            (ap context_of (
                pinned-chosen (expire a later) key deadline slot r
                  (expire-keeps a key deadline later r e there h) (unfold expire in there)
                  (subst (λ x. contributes x slot ≡ true) (sym same) t))
              ∙ ap some same)
      ]
    where
      missing : context_of {S = S} none ≡ some c → ⊥
      missing p = cc

  -- A context that was activated is what a view shows to which it contributes, before any
  -- temporary context of whatever priority, as long as it does not expire and the deadline of the
  -- activation has not passed, or the activation is held.
  pub activate-active :
      (a : ContextArbiter S) (instance_id : String) (deadline : Option ℕ) (now later : ℕ)
      (key : ContextKey) (slot : ViewSlot) (c : PublishedContext S)
      → IsValid a
      → (activate a instance_id deadline now).1 ≡ value key
      → now ≤ later
      → visible a key later ≡ some c
      → contributes c slot ≡ true
      → Lasts a deadline later
      → (active (activate a instance_id deadline now).0 slot later).1 ≡ some c
  unfolding expire
  activate-active a instance_id deadline now later key slot c v ok h s t l =
      subst (λ x. (active x slot later).1 ≡ some c) (sym known)
        (activated_shown
          (record expired { activation = some (record { key = key; deadline = deadline }) }) key
          deadline slot later c refl found t l)
    where
      expired : ContextArbiter S
      expired = expire a now

      known :
          (activate a instance_id deadline now).0
          ≡ record expired { activation = some (record { key = key; deadline = deadline }) }
      known =
          unfold activate in
          activated-activation expired deadline (best_for_instance expired instance_id) key ok

      found : context_of (find ContextKey_discrete key (live expired.contexts later)) ≡ some c
      found = live-live key a.contexts now later v.distinct h ∙ sym (visible_lem a key later v) ∙ s
