-- ===== src/Context/Lookup.antt =====
-- The arbiter as a map of contexts that fades with time.
use gisland.Prelude.{
  if◌then◌else◌, ℕ, ◌+◌, ◌^◌, ◌≤◌, ◌<◌, String, ◌≡◌, refl, sym, ap, ◌∙◌, ite, true, not, Option,
  none, some, List, arith,
}
use gisland.Prelude.Maps.{
  Distinct, keep_if-keep_if, find, find-erase, find-insert_or_assign, when, find-keep_if,
}
use gisland.Context.Types.{ContextKey, PublishedContext, ContextKey_discrete}
use gisland.Context.Store.{
  Entry, ContextArbiter, next_sequence, string_eq, passed, dismiss, publish, dismiss_instance,
  is_live, live, expire,
}
use gisland.Context.{context_of, find_context}
use gisland.Context.Invariant.{IsValid, dismiss-IsValid, dismiss_instance-IsValid, publish-IsValid}

pub passed_later :
    (time : Option ℕ) (now later : ℕ)
    → now ≤ later
    → passed time now ≡ true
    → passed time later ≡ true
passed_later none now later h p = p
passed_later (some t) now later h p = ground arith

module _ {S : Type 0} where
  -- A second look at the same time finds nothing more to drop.
  pub expire-expire : (a : ContextArbiter S) (now : ℕ) → expire (expire a now) now ≡ expire a now
  unfolding expire
  expire-expire a now = ground (arith, keep_if-keep_if (is_live now) a.contexts)

  -- The context under a key, at a time.
  abbrev pub visible : ContextArbiter S → ContextKey → ℕ → Option (PublishedContext S)
  visible a key now = (find_context a key now).1

  -- A context while it has not expired.
  abbrev pub unexpired : ℕ → Option (Entry S) → Option (PublishedContext S)
  unexpired now none = none
  unexpired now (some entry) =
      if passed entry.context.expires_at now then none else some entry.context

  pub find-live :
      (key : ContextKey) (m : List (ContextKey × Entry S)) (now : ℕ)
      → Distinct m
      → context_of (find ContextKey_discrete key (live m now))
        ≡ unexpired now (find ContextKey_discrete key m)
  find-live key m now d =
      ap context_of (find-keep_if ContextKey_discrete (is_live now) key m d)
      ∙ when-unexpired (find ContextKey_discrete key m)
    where
      when-unexpired :
          (o : Option (Entry S))
          → context_of (when ContextKey_discrete (is_live now) key o) ≡ unexpired now o
      when-unexpired none = refl
      when-unexpired (some e) = ground arith

  pub visible_lem :
      (a : ContextArbiter S) (key : ContextKey) (now : ℕ)
      → IsValid a
      → visible a key now ≡ unexpired now (find ContextKey_discrete key a.contexts)
  unfolding find_context expire
  visible_lem a key now v = find-live key a.contexts now v.distinct

  -- After a publication its key shows the new context until that expires, and every other key what
  -- it showed. Time does not run back, and the sequence number does not wrap.
  pub visible-publish :
      (a : ContextArbiter S) (context : PublishedContext S) (key : ContextKey) (now later : ℕ)
      → IsValid a
      → a.sequence + 1 < 2 ^ 64
      → now ≤ later
      → visible (publish a context now) key later
        ≡ ite
            (ContextKey_discrete context.key key)
            (if passed context.expires_at later then none else some context)
            (visible a key later)
  visible-publish a context key now later v n h =
      visible_lem (publish a context now) key later (publish-IsValid a context now n v)
      ∙ found
      ∙ ap
          (λ o.
            ite (ContextKey_discrete context.key key)
              (if passed context.expires_at later then none else some context) o)
          (sym (visible_lem a key later v))
    where
      found :
          unexpired later (find ContextKey_discrete key (publish a context now).contexts)
          ≡ ite
              (ContextKey_discrete context.key key)
              (if passed context.expires_at later then none else some context)
              (unexpired later (find ContextKey_discrete key a.contexts))
      found =
          unfold publish in
          ground (
            arith,
            find-erase ContextKey_discrete context.key key a.contexts,
            find-insert_or_assign ContextKey_discrete context.key key
                (record { context = context; sequence = next_sequence a.sequence }) a.contexts,
            passed_later context.expires_at now later h,
          )

  -- After a dismissal its key shows nothing, and every other key what it showed.
  pub visible-dismiss :
      (a : ContextArbiter S) (dismissed key : ContextKey) (now : ℕ)
      → IsValid a
      → visible (dismiss a dismissed) key now
        ≡ ite (ContextKey_discrete dismissed key) none (visible a key now)
  visible-dismiss a dismissed key now v =
      visible_lem (dismiss a dismissed) key now (dismiss-IsValid a dismissed v)
      ∙ unfold dismiss in
        ground
          (arith, find-erase ContextKey_discrete dismissed key a.contexts, visible_lem a key now v)

  -- After the dismissal of an instance none of its keys shows anything, and every key of another
  -- instance what it showed.
  pub visible-dismiss_instance :
      (a : ContextArbiter S) (instance_id : String) (key : ContextKey) (now : ℕ)
      → IsValid a
      → visible (dismiss_instance a instance_id) key now
        ≡ (if string_eq key.instance_id instance_id then none else visible a key now)
  visible-dismiss_instance a instance_id key now v =
      visible_lem (dismiss_instance a instance_id) key now
        (dismiss_instance-IsValid a instance_id v)
      ∙ unfold dismiss_instance in
        ground (
          arith,
          find-keep_if ContextKey_discrete (λ k _. not (string_eq k.instance_id instance_id)) key
              a.contexts v.distinct,
          visible_lem a key now v,
        )
