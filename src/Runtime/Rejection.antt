-- ===== src/Runtime/Rejection.antt =====
-- What the application rejects leaves no trace: what stood there before is shown again.
use gisland.Prelude.{
  if◌then◌else◌, String_discrete, ℕ, ◌+◌, ◌^◌, ◌≤◌, ◌<◌, String, ◌≡◌, refl, sym, ap, ◌∙◌, ◌≢◌,
  false, Option, none, some, arith,
}
use gisland.Prelude.Maps.{find, emplace, Entries-find}
use gisland.Context.Types.{ContextKey, PublishedContext, ContextKey_discrete}
use gisland.Context.Store.{Entry, ContextArbiter, passed, dismiss, publish, expire}
use gisland.Context.{find_context}
use gisland.Context.Invariant.{IsValid, expire-IsValid, publish-IsValid}
use gisland.Context.Lookup.{
  passed_later, visible, unexpired, visible_lem, visible-publish, visible-dismiss,
}
use gisland.Context.Shown.{visible-expire}
use gisland.Runtime.Types.{ViewLanguage, PublishMessage, publish_message, module_message}
use gisland.Runtime.State.{RuntimeCoordinator}
use gisland.Runtime.Messages.{
  is_stale, remember_replacement, replace, published, consume_message, consume,
}
use gisland.Runtime.Results.{restored}
use gisland.Runtime.{reject}

module _ {S : Type 0} where
  abbrev faded : ℕ → Option (PublishedContext S) → Option (PublishedContext S)
  faded later none = none
  faded later (some context) = if passed context.expires_at later then none else some context

  unexpired-faded :
      (now later : ℕ) (o : Option (Entry S))
      → now ≤ later
      → unexpired later o ≡ faded later (unexpired now o)
  unexpired-faded now later none h = refl
  unexpired-faded now later (some e) h =
      ground (arith, passed_later e.context.expires_at now later h)

  visible-faded :
      (a : ContextArbiter S) (key : ContextKey) (now later : ℕ)
      → IsValid a
      → now ≤ later
      → visible a key later ≡ faded later (visible a key now)
  visible-faded a key now later v h =
      visible_lem a key later v
      ∙ unexpired-faded now later (find ContextKey_discrete key a.contexts) h
      ∙ ap (faded later) (sym (visible_lem a key now v))

  sequence-publish :
      (a : ContextArbiter S) (context : PublishedContext S) (now : ℕ)
      → a.sequence + 2 < 2 ^ 64
      → (publish a context now).sequence + 1 < 2 ^ 64
  unfolding publish dismiss
  sequence-publish a context now h = ground arith

  pub visible-key :
      (a : ContextArbiter S) (key : ContextKey) (now : ℕ) (c : PublishedContext S)
      → IsValid a
      → visible a key now ≡ some c
      → c.key ≡ key
  visible-key a key now c v h =
      shown (find ContextKey_discrete key a.contexts)
        (λ e. Entries-find ContextKey_discrete (λ k x. x.context.key ≡ k) key e a.contexts v.keyed)
        (sym (visible_lem a key now v) ∙ h)
    where
      shown :
          (o : Option (Entry S))
          → ((e : Entry S) → o ≡ some e → e.context.key ≡ key)
          → unexpired now o ≡ some c
          → c.key ≡ key
      shown none own e = cc
      shown (some x) own e = ground (arith, own x refl)

  -- Under the other keys all is as before.
  visible-published :
      (a : ContextArbiter S) (c : PublishedContext S) (key : ContextKey) (now later : ℕ)
      → IsValid a
      → a.sequence + 2 < 2 ^ 64
      → now ≤ later
      → c.key ≢ key
      → visible (publish (expire a now) c now) key later ≡ visible a key later
  visible-published a c key now later v n h other = ground (
    arith,
    visible-publish (expire a now) c key now later (expire-IsValid a now v)
        (unfold expire in omega arith) h,
    visible-expire a key now later v h,
  )

  published-IsValid :
      (a : ContextArbiter S) (c : PublishedContext S) (now : ℕ)
      → IsValid a
      → a.sequence + 2 < 2 ^ 64
      → IsValid (publish (expire a now) c now)
  published-IsValid a c now v n =
      publish-IsValid (expire a now) c now (unfold expire in omega arith) (expire-IsValid a now v)

  -- The arbiter after a publication and the return of what was visible under its key.
  restored-publish :
      (a : ContextArbiter S) (c : PublishedContext S) (key : ContextKey) (now later : ℕ)
      → IsValid a
      → a.sequence + 2 < 2 ^ 64
      → now ≤ later
      → (previous : Option (PublishedContext S)) → visible a c.key now ≡ previous
      → visible (restored (publish (expire a now) c now) c.key later (some previous)) key later
        ≡ visible a key later
  restored-publish a c key now later v n h none e =
      visible-dismiss (publish (expire a now) c now) c.key key later (published-IsValid a c now v n)
      ∙ ground (
        arith,
        visible-published a c key now later v n h,
        visible-faded a c.key now later v h ∙ ap (faded later) e,
      )
  restored-publish a c key now later v n h (some previous) e =
      visible-publish (publish (expire a now) c now) previous key later later
        (published-IsValid a c now v n) (sequence-publish (expire a now) c now (unfold expire in n))
        (omega arith)
      ∙ ground (
        arith,
        visible-key a c.key now previous v e,
        visible-published a c key now later v n h,
        visible-faded a c.key now later v h ∙ ap (faded later) e,
      )

module _ {V : ViewLanguage} where
  open V use {Scene}

  -- What is remembered of a publication under a key with nothing pending.
  replace-remembers :
      (r : RuntimeCoordinator V) (c : PublishedContext Scene) (now : ℕ)
      → find ContextKey_discrete c.key r.pending_replacements ≡ none
      → ((replace r c now).arbiter ≡ publish (expire r.arbiter now) c now)
        × (find ContextKey_discrete c.key (replace r c now).pending_replacements
            ≡ some (visible r.arbiter c.key now))
  unfolding replace remember_replacement find_context find emplace
  replace-remembers r c now p = (simp p, ground arith)

  reject-replace :
      (r : RuntimeCoordinator V) (c : PublishedContext Scene) (key : ContextKey) (now later : ℕ)
      → IsValid r.arbiter
      → r.arbiter.sequence + 2 < 2 ^ 64
      → now ≤ later
      → find ContextKey_discrete c.key r.pending_replacements ≡ none
      → visible (reject (replace r c now) c.key later).arbiter key later
        ≡ visible r.arbiter key later
  unfolding reject
  reject-replace r c key now later v n h p =
      let (arbiter, pending) = replace-remembers r c now p in
      ap (λ o. visible (restored (replace r c now).arbiter c.key later o) key later) pending
      ∙ ap (λ a. visible (restored a c.key later (some (visible r.arbiter c.key now))) key later)
          arbiter
      ∙ restored-publish r.arbiter c key now later v n h (visible r.arbiter c.key now) refl

  -- A publication that the application rejects, while nothing else was pending under its key,
  -- leaves every context visible that was visible before, with no more time to live than it had.
  -- Time does not run back, and the sequence number does not wrap.
  pub reject-publish :
      (r : RuntimeCoordinator V) (instance_id : String) (generation now later : ℕ)
      (message : PublishMessage V) (key : ContextKey)
      → IsValid r.arbiter
      → r.arbiter.sequence + 2 < 2 ^ 64
      → now ≤ later
      → is_stale (find String_discrete instance_id r.process_generations) generation ≡ false
      → find ContextKey_discrete
          (record { instance_id = instance_id; context_id = message.context_id })
          r.pending_replacements
        ≡ none
      → visible
          (reject
            (consume r (
              module_message (record {
                instance_id = instance_id;
                message = publish_message message;
                at = now;
                generation = generation;
              }))).0
            (record { instance_id = instance_id; context_id = message.context_id })
            later).arbiter
          key
          later
        ≡ visible r.arbiter key later
  unfolding consume consume_message
  reject-publish r instance_id generation now later message key v n h s p =
      rw s (reject-replace r (published r instance_id message now) key now later v n h p)
