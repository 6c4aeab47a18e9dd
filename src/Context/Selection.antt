-- ===== src/Context/Selection.antt =====
-- The selecting loop finds a greatest entry among those that it accepts.
use gisland.Prelude.{
  if◌then◌else◌, Bool-cases, ◌≡◌, refl, sym, ◌∙◌, subst, ◌≢◌, ◌⊎◌, inl, inr, Bool, true, false,
  Option, none, some, List, [], ◌∷◌, arith,
}
use gisland.Prelude.Maps.{Entries, Distinct, find, Entries-find}
use gisland.Context.Types.{ContextKey, ContextKey_discrete}
use gisland.Context.Store.{Entry}
use gisland.Context.Choice.{precedes, better, select}

module _ {S : Type 0} where
  -- `precedes` is a strict order, and of two entries that do not precede one another any third is
  -- on the same side.
  pub precedes_irrefl : (e : Entry S) → precedes e e ≡ false
  unfolding precedes
  precedes_irrefl e = ground arith

  precedes_keeps :
      (e best r : Entry S) → precedes e best ≡ true → precedes e r ≡ false → precedes best r ≡ false
  unfolding precedes
  precedes_keeps e best r h k = ground arith

  precedes_below :
      (e best r : Entry S)
      → precedes e best ≡ false
      → precedes best r ≡ false
      → precedes e r ≡ false
  unfolding precedes
  precedes_below e best r h k = ground arith

  pub precedes_total :
      (e r : Entry S) → e.sequence ≢ r.sequence → (precedes e r ≡ true) ⊎ (precedes r e ≡ true)
  unfolding precedes
  precedes_total e r h = ground arith

  -- No accepted entry precedes `r`.
  abbrev pub IsUpper :
      (ContextKey → Entry S → Bool) → Entry S → List (ContextKey × Entry S) → Type 0
  IsUpper accepts r = Entries (λ k e. accepts k e ≡ true → precedes e r ≡ false)

  -- The best entry so far does not precede `r`.
  abbrev Below : Option (Entry S) → Entry S → Type 0
  Below none r = Unit
  Below (some best) r = precedes best r ≡ false

  better-Below :
      (best : Option (Entry S)) (e r : Entry S)
      → Below (better best e) r
      → Below best r × (precedes e r ≡ false)
  better-Below none e r h = (tt, h)
  better-Below (some b) e r h = elim (Bool-cases (precedes e b)) [
    | inl wins ↦
        let h' = subst (λ t. Below (if t then some e else some b) r) wins h in
        (precedes_keeps e b r wins h', h')
    | inr loses ↦
        let h' = subst (λ t. Below (if t then some e else some b) r) loses h in
        (h', precedes_below e b r loses h')
  ]

  select-IsUpper :
      (accepts : ContextKey → Entry S → Bool) (best : Option (Entry S))
      (m : List (ContextKey × Entry S)) (r : Entry S)
      → select accepts best m ≡ some r
      → Below best r × IsUpper accepts r m
  unfolding select
  select-IsUpper accepts none [] r h = cc
  select-IsUpper accepts (some b) [] r h = (ground (arith, precedes_irrefl r), tt)
  select-IsUpper accepts best ((k, e) ∷ m) r h = elim (Bool-cases (accepts k e)) [
    | inl taken ↦
        let rest =
          select-IsUpper accepts (better best e) m r
            (subst (λ t. select accepts (if t then better best e else best) m ≡ some r) taken h) in
        let (low, upper) = better-Below best e r rest.0 in (low, ((λ _. upper), rest.1))
    | inr passed_over ↦
        let rest = select-IsUpper accepts best m r (
          subst (λ t. select accepts (if t then better best e else best) m ≡ some r) passed_over
            h) in
        (rest.0, ((λ t. ground arith), rest.1))
  ]

  select-some :
      (accepts : ContextKey → Entry S → Bool) (b : Entry S) (m : List (ContextKey × Entry S))
      → select accepts (some b) m ≢ none
  unfolding select
  select-some accepts b [] h = cc
  select-some accepts b ((k, e) ∷ m) h =
      ground (arith, select-some accepts b m, select-some accepts e m)

  -- Nothing is selected only where nothing is accepted.
  pub select-none :
      (accepts : ContextKey → Entry S → Bool) (m : List (ContextKey × Entry S))
      → select accepts none m ≡ none
      → Entries (λ k e. accepts k e ≡ false) m
  unfolding select
  select-none accepts [] h = tt
  select-none accepts ((k, e) ∷ m) h =
      ground (arith, select-some accepts e m, select-none accepts m)

  -- An entry of the map that is accepted.
  abbrev pub Accepted :
      (ContextKey → Entry S → Bool) → List (ContextKey × Entry S) → Entry S → Type 0
  Accepted accepts m r =
      (k : ContextKey) × (find ContextKey_discrete k m ≡ some r) × (accepts k r ≡ true)

  Accepted-tail :
      (accepts : ContextKey → Entry S → Bool) (k : ContextKey) (e r : Entry S)
      (m : List (ContextKey × Entry S))
      → Distinct ((k, e) ∷ m)
      → Accepted accepts m r
      → Accepted accepts ((k, e) ∷ m) r
  unfolding find
  Accepted-tail accepts k e r m d (j, f, t) =
      let other = Entries-find ContextKey_discrete (λ i _. i ≢ k) j r m d.0 f in
      (j, ground arith, t)

  better_cases :
      (best : Option (Entry S)) (e : Entry S) → (better best e ≡ some e) ⊎ (better best e ≡ best)
  better_cases none e = inl refl
  better_cases (some b) e = ground arith

  select-Accepted_from :
      (accepts : ContextKey → Entry S → Bool) (best : Option (Entry S))
      (m : List (ContextKey × Entry S)) (r : Entry S)
      → Distinct m
      → select accepts best m ≡ some r
      → (best ≡ some r) ⊎ Accepted accepts m r
  unfolding select find
  select-Accepted_from accepts best [] r d h = inl h
  select-Accepted_from accepts best ((k, e) ∷ m) r d h = elim (Bool-cases (accepts k e)) [
    | inl taken ↦
        elim (select-Accepted_from accepts (better best e) m r d.1
          (subst (λ t. select accepts (if t then better best e else best) m ≡ some r) taken h)) [
            | inl kept ↦ elim (better_cases best e) [
              | inl new ↦
                  let same : some e ≡ some r = sym new ∙ kept in inr (k, ground arith, ground arith)
              | inr old ↦ inl (sym old ∙ kept)
            ]
            | inr found ↦ inr (Accepted-tail accepts k e r m d found)
          ]
    | inr passed_over ↦
        elim (select-Accepted_from accepts best m r d.1 (
          subst (λ t. select accepts (if t then better best e else best) m ≡ some r) passed_over
            h)) [ inl kept ↦ inl kept | inr found ↦ inr (Accepted-tail accepts k e r m d found) ]
  ]

  -- What is selected is an accepted entry that no accepted entry precedes.
  pub select-Accepted :
      (accepts : ContextKey → Entry S → Bool) (m : List (ContextKey × Entry S)) (r : Entry S)
      → Distinct m
      → select accepts none m ≡ some r
      → Accepted accepts m r × IsUpper accepts r m
  select-Accepted accepts m r d h = elim (select-Accepted_from accepts none m r d h) [
    | inl absurdly ↦ cc
    | inr found ↦ (found, (select-IsUpper accepts none m r h).1)
  ]
