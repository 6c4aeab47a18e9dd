-- ===== src/Supervisor/Orderly.antt =====
-- What holds of the instances together between two methods, and what a changed instance has to be.
pub mod Starts
pub mod Stops
pub mod Commands
pub mod Reconfigure
pub mod Gone
pub mod Reaping
pub mod Closing
pub mod Shutdown
pub mod Loop
use gisland.Prelude.{
  String_discrete, ◌+◌, ◌≤◌, String, ◌≡◌, refl, ap, ◌∙◌, ◌≢◌, ◌⊎◌, inr, true, false, none, some,
  List, [], ◌∷◌, arith,
}
use gisland.Prelude.Maps.{
  Entries, Distinct, find, erase, Entries-erase, Distinct-erase, Entries-find,
}
use gisland.Runtime.Types.{ViewLanguage, SupervisorEvent}
use gisland.Supervisor.Types.{Instance, Supervisor}
use gisland.Supervisor.Work.{Work, state_of}
use gisland.Supervisor.Fleet.{
  maximum_instances, is_active, assign, activity, count_active, active_instance_count, has_room,
  find_instance, erase_instance, with_instances, put, emit_in,
}
use gisland.Supervisor.Evolution.{Evolves, is_down, is_sound}

pub Entries-assign {ℓ ι} :
    {V : Type ℓ} (P : String → V → Type ι) (key : String) (v : V) (m : List (String × V))
    → P key v
    → Entries P m
    → Entries P (assign key v m)
unfolding assign
Entries-assign P key v [] p h = h
Entries-assign P key v ((k, u) ∷ m) p h = ground (arith, Entries-assign P key v m p h.1)

Entries-ne-assign {ℓ} :
    {V : Type ℓ} (other key : String) (v : V) (m : List (String × V))
    → Entries (λ j _. j ≢ other) m
    → Entries (λ j _. j ≢ other) (assign key v m)
unfolding assign
Entries-ne-assign other key v [] h = h
Entries-ne-assign other key v ((k, u) ∷ m) h =
    ground (arith, h.0, h.1, Entries-ne-assign other key v m h.1)

pub Distinct-assign {ℓ} :
    {V : Type ℓ} (key : String) (v : V) (m : List (String × V))
    → Distinct m
    → Distinct (assign key v m)
unfolding assign
Distinct-assign key v [] h = h
Distinct-assign key v ((k, u) ∷ m) h =
    ground (arith, h.0, h.1, Entries-ne-assign k key v m h.0, Distinct-assign key v m h.1)

pub Entries-absent :
    {V : Type 0} (key : String) (m : List (String × V))
    → find String_discrete key m ≡ none
    → Entries (λ j _. j ≢ key) m
unfolding find
Entries-absent key [] e = tt
Entries-absent key ((k, u) ∷ m) e = ground (arith, Entries-absent key m)

module _ {V : ViewLanguage} where
  pub count-assign :
      (key : String) (i j : Instance V) (m : List (String × Instance V))
      → find String_discrete key m ≡ some i
      → count_active (assign key j m) + activity i ≡ count_active m + activity j
  unfolding assign find count_active
  count-assign key i j [] e = cc
  count-assign key i j ((k, u) ∷ m) e = ground (arith, count-assign key i j m)

  pub count-erase :
      (key : String) (m : List (String × Instance V))
      → count_active (erase String_discrete key m) ≤ count_active m
  unfolding erase count_active
  count-erase key [] = ground arith
  count-erase key ((k, i) ∷ m) = ground (arith, count-erase key m)

  -- An instance stands under its own identifier and is sound.
  abbrev pub Stands : String → Instance V → Type 0
  Stands key i = (i.request.instance_id ≡ key) × (is_sound i ≡ true)

  pub record IsOrderly (s : Supervisor V) : Type 0 where
    pub standing : Entries Stands s.instances
    pub distinct : Distinct s.instances
    pub limited : active_instance_count s ≤ maximum_instances
    pub winding_down :
        s.global_shutdown ≡ true → Entries (λ key i. is_down (state_of i) ≡ true) s.instances

  -- What an instance of a supervisor may become: it is active only if it was or if there is room.
  pub record MayBecome (s : Supervisor V) (i j : Instance V) : Type 0 where
    pub same_request : j.request ≡ i.request
    pub keeps_sound : is_sound i ≡ true → is_sound j ≡ true
    pub has_place :
        (has_room s ≡ true) ⊎ (is_active (state_of i) ≡ false → is_active (state_of j) ≡ false)
    pub no_return :
        s.global_shutdown ≡ true → is_down (state_of i) ≡ true → is_down (state_of j) ≡ true

  pub Evolves-MayBecome : (s : Supervisor V) {i j : Instance V} → Evolves i j → MayBecome s i j
  Evolves-MayBecome s e = record {
    same_request = e.same_request;
    keeps_sound = e.keeps_sound;
    has_place = inr e.no_start;
    no_return = λ h. e.no_return;
  }

  pub put-IsOrderly :
      (s : Supervisor V) (key : String) (i : Instance V) (w : Work V)
      → find_instance s key ≡ some i
      → MayBecome s i w.inst
      → IsOrderly s
      → IsOrderly (put s key w)
  put-IsOrderly s key i w e a h =
      let found = Entries-find String_discrete Stands key i s.instances h.standing e in
      record {
        standing =
            Entries-assign Stands key w.inst s.instances
              (ap (λ r. r.instance_id) a.same_request ∙ found.0, a.keeps_sound found.1) h.standing;
        distinct = Distinct-assign key w.inst s.instances h.distinct;
        limited = ground (arith, count-assign key i w.inst s.instances e, a.has_place, h.limited);
        winding_down = λ shut.
            Entries-assign (λ key i. is_down (state_of i) ≡ true) key w.inst s.instances
              (a.no_return shut (
                Entries-find String_discrete (λ key i. is_down (state_of i) ≡ true) key i
                  s.instances (h.winding_down shut) e))
              (h.winding_down shut);
      }

  pub find-assign :
      (key : String) (i j : Instance V) (m : List (String × Instance V))
      → find String_discrete key m ≡ some i
      → find String_discrete key (assign key j m) ≡ some j
  unfolding assign find
  find-assign key i j [] e = cc
  find-assign key i j ((k, u) ∷ m) e = ground (arith, find-assign key i j m)

  pub assign-assign :
      (key : String) (i j : Instance V) (m : List (String × Instance V))
      → assign key j (assign key i m) ≡ assign key j m
  unfolding assign
  assign-assign key i j [] = refl
  assign-assign key i j ((k, u) ∷ m) = ground (arith, assign-assign key i j m)

  pub emit_in-IsOrderly :
      (s : Supervisor V) (event : SupervisorEvent V) → IsOrderly s → IsOrderly (emit_in s event)
  emit_in-IsOrderly s event h = record {
    standing = h.standing;
    distinct = h.distinct;
    limited = h.limited;
    winding_down = h.winding_down;
  }

  pub erase-IsOrderly :
      (s : Supervisor V) (key : String) → IsOrderly s → IsOrderly (erase_instance s key)
  erase-IsOrderly s key h = record {
    standing = Entries-erase String_discrete Stands key s.instances h.standing;
    distinct = Distinct-erase String_discrete key s.instances h.distinct;
    limited = ground (arith, count-erase key s.instances, h.limited);
    winding_down = λ shut.
        Entries-erase String_discrete (λ key i. is_down (state_of i) ≡ true) key s.instances
          (h.winding_down shut);
  }

  -- A new instance, where there is room.
  pub insert-IsOrderly :
      (s : Supervisor V) (key : String) (w : Work V)
      → s.global_shutdown ≡ false
      → has_room s ≡ true
      → Stands key w.inst
      → find_instance s key ≡ none
      → IsOrderly s
      → IsOrderly (with_instances s w ((key, w.inst) ∷ s.instances))
  unfolding count_active
  insert-IsOrderly s key w going room stands absent h = record {
    standing = (stands, h.standing);
    distinct = (Entries-absent key s.instances absent, h.distinct);
    limited = ground arith;
    winding_down = λ shut. absurd (ground arith);
  }
