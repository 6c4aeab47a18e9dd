-- ===== src/Context/Invariant.antt =====
-- What holds of the arbiter between two calls.
use gisland.Prelude.{
  Bool-cases, ℕ, suc, ◌+◌, ◌^◌, ◌≤◌, ◌<◌, String, ◌≡◌, refl, ◌≢◌, inl, inr, Bool, Option, List, [],
  ◌∷◌, arith,
}
use gisland.Prelude.Maps.{
  keep_if, Entries, Distinct, Entries-keep_if, Distinct-keep_if, erase, insert_or_assign,
  Entries-erase, Distinct-erase, Distinct-insert_or_assign,
}
use gisland.Context.Types.{ContextKey, PublishedContext, ContextKey_discrete}
use gisland.Context.Store.{
  Entry, Activation, ContextArbiter, next_sequence, passed, make, dismiss, publish,
  dismiss_instance, expire,
}

pub next_sequence-suc : (n : ℕ) → n + 1 < 2 ^ 64 → next_sequence n ≡ suc n
next_sequence-suc n h = omega arith

module _ {S : Type 0} where
  -- No two entries have one sequence number.
  abbrev pub Sequenced : List (ContextKey × Entry S) → Type 0
  Sequenced [] = Unit
  Sequenced ((_, e) ∷ m) = Entries (λ _ f. f.sequence ≢ e.sequence) m × Sequenced m

  pub record IsValid (a : ContextArbiter S) : Type 0 where
    pub distinct : Distinct a.contexts
    pub keyed : Entries (λ key e. e.context.key ≡ key) a.contexts
    pub sequenced : Sequenced a.contexts
    pub numbered : Entries (λ _ e. e.sequence ≤ a.sequence) a.contexts

  Sequenced-keep_if :
      (test : ContextKey → Entry S → Bool) (m : List (ContextKey × Entry S))
      → Sequenced m
      → Sequenced (keep_if test m)
  unfolding keep_if
  Sequenced-keep_if test [] h = h
  Sequenced-keep_if test ((k, e) ∷ m) h = ground (
    arith,
    Entries-keep_if (λ _ f. f.sequence ≢ e.sequence) test m h.0,
    Sequenced-keep_if test m h.1,
  )

  Sequenced-erase :
      (k : ContextKey) (m : List (ContextKey × Entry S))
      → Sequenced m
      → Sequenced (erase ContextKey_discrete k m)
  unfolding erase
  Sequenced-erase k [] h = h
  Sequenced-erase k ((j, e) ∷ m) h = ground (
    arith,
    Entries-erase ContextKey_discrete (λ _ f. f.sequence ≢ e.sequence) k m h.0,
    Sequenced-erase k m h.1,
  )

  Entries-mono :
      (P Q : ContextKey → Entry S → Type 0) (m : List (ContextKey × Entry S))
      → ((k : ContextKey) (e : Entry S) → P k e → Q k e)
      → Entries P m
      → Entries Q m
  Entries-mono P Q [] f h = h
  Entries-mono P Q ((k, e) ∷ m) f h = (f k e h.0, Entries-mono P Q m f h.1)

  pub make-IsValid : (key : ContextKey) → IsValid (make {S = S} key)
  unfolding make
  make-IsValid key = record { distinct = tt; keyed = tt; sequenced = tt; numbered = tt }

  pub dismiss-IsValid :
      (a : ContextArbiter S) (key : ContextKey) → IsValid a → IsValid (dismiss a key)
  unfolding dismiss
  dismiss-IsValid a key v = record {
    distinct = Distinct-erase ContextKey_discrete key a.contexts v.distinct;
    keyed = Entries-erase ContextKey_discrete _ key a.contexts v.keyed;
    sequenced = Sequenced-erase key a.contexts v.sequenced;
    numbered = Entries-erase ContextKey_discrete _ key a.contexts v.numbered;
  }

  kept-IsValid :
      (a : ContextArbiter S) (test : ContextKey → Entry S → Bool) (active : Option Activation)
      → IsValid a
      → IsValid (record a { contexts = keep_if test a.contexts; activation = active })
  kept-IsValid a test active v = record {
    distinct = Distinct-keep_if test a.contexts v.distinct;
    keyed = Entries-keep_if _ test a.contexts v.keyed;
    sequenced = Sequenced-keep_if test a.contexts v.sequenced;
    numbered = Entries-keep_if _ test a.contexts v.numbered;
  }

  pub dismiss_instance-IsValid :
      (a : ContextArbiter S) (instance_id : String)
      → IsValid a
      → IsValid (dismiss_instance a instance_id)
  unfolding dismiss_instance
  dismiss_instance-IsValid a instance_id v = kept-IsValid a _ _ v

  pub expire-IsValid : (a : ContextArbiter S) (now : ℕ) → IsValid a → IsValid (expire a now)
  unfolding expire
  expire-IsValid a now v = kept-IsValid a _ _ v

  inserted-IsValid :
      (a : ContextArbiter S) (context : PublishedContext S)
      → IsValid a
      → IsValid (record a {
        sequence = suc a.sequence;
        contexts =
            insert_or_assign ContextKey_discrete context.key
              (record { context = context; sequence = suc a.sequence })
              a.contexts;
      })
  unfolding insert_or_assign
  inserted-IsValid a context v = record {
    distinct =
        Distinct-insert_or_assign ContextKey_discrete context.key
          (record { context = context; sequence = suc a.sequence }) a.contexts v.distinct;
    keyed = (refl, Entries-erase ContextKey_discrete _ context.key a.contexts v.keyed);
    sequenced = (
      Entries-mono (λ _ e. e.sequence ≤ a.sequence) (λ _ e. e.sequence ≢ suc a.sequence)
          (erase ContextKey_discrete context.key a.contexts) (λ k e h p. omega arith)
          (Entries-erase ContextKey_discrete _ context.key a.contexts v.numbered),
      Sequenced-erase context.key a.contexts v.sequenced,
    );
    numbered = (
      omega arith,
      Entries-mono (λ _ e. e.sequence ≤ a.sequence) (λ _ e. e.sequence ≤ suc a.sequence)
          (erase ContextKey_discrete context.key a.contexts) (λ k e h. omega arith)
          (Entries-erase ContextKey_discrete _ context.key a.contexts v.numbered),
    );
  }

  -- While the sequence number does not wrap, a publication keeps the arbiter valid: keys and
  -- sequence numbers are distinct, and an entry's key is that of its context.
  pub publish-IsValid :
      (a : ContextArbiter S) (context : PublishedContext S) (now : ℕ)
      → a.sequence + 1 < 2 ^ 64
      → IsValid a
      → IsValid (publish a context now)
  unfolding publish
  publish-IsValid a context now h v = elim (Bool-cases (passed context.expires_at now)) [
    | inl old ↦ rw old (dismiss-IsValid a context.key v)
    | inr fresh ↦ rw (fresh, next_sequence-suc a.sequence h) (inserted-IsValid a context v)
  ]
