-- ===== src/Supervisor/Orderly/Closing.antt =====
-- A shutdown on its way: the instances of some keys are yet to be stopped.
use gisland.Prelude.{
  Bool-cases, String_discrete, ◌≤◌, String, ◌≡◌, ap, ◌∙◌, subst, ◌≢◌, ◌⊎◌, inl, inr, true, false,
  some, List, [], ◌∷◌, arith,
}
use gisland.Prelude.Maps.{Entries, Distinct, Entries-find}
use gisland.Runtime.Types.{ViewLanguage}
use gisland.Supervisor.Types.{Instance, Supervisor}
use gisland.Supervisor.Work.{Work, state_of}
use gisland.Supervisor.Negotiation.{has}
use gisland.Supervisor.Fleet.{
  maximum_instances, assign, active_instance_count, keys, find_instance, put,
}
use gisland.Supervisor.Evolution.{Evolves, is_down}
use gisland.Supervisor.Orderly.{Entries-assign, Distinct-assign, count-assign, Stands}
use gisland.Context.Store.{string_eq}
use gisland.Supervisor.Fleet

string_eq-same : (a b : String) → string_eq a b ≡ true → a ≡ b
string_eq-same a b h = ground (arith, h)

module _ {V : ViewLanguage} where
  -- An instance is down, or is yet to be stopped.
  abbrev pub Closes : List String → String → Instance V → Type 0
  Closes todo key i = (has key todo ≡ true) ⊎ (is_down (state_of i) ≡ true)

  -- What `IsOrderly` says, while the instances of some keys are yet to be stopped.
  pub record IsClosing (todo : List String) (s : Supervisor V) : Type 0 where
    pub standing : Entries Stands s.instances
    pub distinct : Distinct s.instances
    pub limited : active_instance_count s ≤ maximum_instances
    pub shut : s.global_shutdown ≡ true
    pub closing : Entries (Closes todo) s.instances

  pub closing-skip :
      (key : String) (todo : List String) (m : List (String × Instance V))
      → Entries (λ j _. j ≢ key) m
      → Entries (Closes (key ∷ todo)) m
      → Entries (Closes todo) m
  unfolding has
  closing-skip key todo [] ne h = h
  closing-skip key todo ((k, i) ∷ m) ne h =
      ground (arith, ne.0, h.0, closing-skip key todo m ne.1 h.1)

  pub closed :
      (m : List (String × Instance V))
      → Entries (Closes []) m
      → Entries (λ key i. is_down (state_of i) ≡ true) m
  unfolding has
  closed [] h = h
  closed ((k, i) ∷ m) h = (ground (arith, h.0), closed m h.1)

  closing-more :
      (key : String) (todo : List String) (m : List (String × Instance V))
      → Entries (Closes todo) m
      → Entries (Closes (key ∷ todo)) m
  unfolding has
  closing-more key todo [] h = h
  closing-more key todo ((k, i) ∷ m) h = (ground (arith, h.0), closing-more key todo m h.1)

  pub all_keys : (m : List (String × Instance V)) → Entries (Closes (keys m)) m
  unfolding has
  all_keys [] = tt
  all_keys ((k, i) ∷ m) = (ground arith, closing-more k (keys m) m (all_keys m))

  Closes-other :
      (key : String) (todo : List String) (k : String) (i : Instance V)
      → string_eq k key ≡ false
      → Closes (key ∷ todo) k i
      → Closes todo k i
  unfolding has
  Closes-other key todo k i e h = ground (arith, e, h)

  closing-assign :
      (key : String) (todo : List String) (j : Instance V) (m : List (String × Instance V))
      → Distinct m
      → is_down (state_of j) ≡ true
      → Entries (Closes (key ∷ todo)) m
      → Entries (Closes todo) (assign key j m)
  unfolding gisland.Supervisor.Fleet.assign has
  closing-assign key todo j [] d down h = h
  closing-assign key todo j ((k, i) ∷ m) d down h = elim (Bool-cases (string_eq k key)) [
    | inl e ↦ rw e (
      inr down,
      closing-skip key todo m (subst (λ z. Entries (λ j _. j ≢ z) m) (string_eq-same k key e) d.0)
          h.1,
    )
    | inr e ↦ rw e (Closes-other key todo k i e h.0, closing-assign key todo j m d.1 down h.1)
  ]

  pub put-IsClosing :
      (key : String) (todo : List String) (s : Supervisor V) (i : Instance V) (w : Work V)
      → find_instance s key ≡ some i
      → Evolves i w.inst
      → is_down (state_of w.inst) ≡ true
      → IsClosing (key ∷ todo) s
      → IsClosing todo (put s key w)
  put-IsClosing key todo s i w found e down h =
      let stands = Entries-find String_discrete Stands key i s.instances h.standing found in
      record {
        standing =
            Entries-assign Stands key w.inst s.instances
              (ap (λ r. r.instance_id) e.same_request ∙ stands.0, e.keeps_sound stands.1)
              h.standing;
        distinct = Distinct-assign key w.inst s.instances h.distinct;
        limited =
            ground (arith, count-assign key i w.inst s.instances found, e.no_start, h.limited);
        shut = h.shut;
        closing = closing-assign key todo w.inst s.instances h.distinct down h.closing;
      }
