-- ===== src/Prelude/Maps.antt =====
-- `std::map` as an association list with distinct keys. The order of the list is no part of what
-- the source can see where it looks up, replaces or erases; where it iterates, the results that
-- are proved hold for every order.
use mathlib.Core.Path.{◌≡◌, refl}
use mathlib.Core.Logic.{◌≢◌, ite}
use mathlib.Core.Bool.{Bool, true}
use mathlib.Core.Option.{Option, none, some}
use mathlib.Core.List.{List, [], ◌∷◌}
use native.Mathlib.Omega.{arith}
use gisland.Prelude.Tests.{if◌then◌else◌, is_some}

-- The entries that pass a test; `std::erase_if` with the opposite test.
unfoldable pub keep_if {ℓ κ} :
    {K : Type ℓ} {V : Type κ} → (K → V → Bool) → List (K × V) → List (K × V)
keep_if test [] = []
keep_if test ((k, v) ∷ m) = let rest = keep_if test m in if test k v then (k, v) ∷ rest else rest

-- A predicate of every entry.
abbrev pub Entries {ℓ κ ι} : {K : Type ℓ} {V : Type κ} → (K → V → Type ι) → List (K × V) → Type ι
Entries P [] = Unit
Entries P ((k, v) ∷ m) = P k v × Entries P m

abbrev pub Distinct {ℓ κ} : {K : Type ℓ} {V : Type κ} → List (K × V) → Type ℓ
Distinct [] = Unit
Distinct ((k, v) ∷ m) = Entries (λ j _. j ≢ k) m × Distinct m

pub Entries-keep_if {ℓ κ ι} :
    {K : Type ℓ} {V : Type κ} (P : K → V → Type ι) (test : K → V → Bool) (m : List (K × V))
    → Entries P m
    → Entries P (keep_if test m)
unfolding keep_if
Entries-keep_if P test [] h = h
Entries-keep_if P test ((k, v) ∷ m) h = ground (arith, Entries-keep_if P test m h.1)

pub Entries-unkeep_if {ℓ κ ι} :
    {K : Type ℓ} {V : Type κ} (P : K → V → Type ι) (test : K → V → Bool) (m : List (K × V))
    → Entries P (keep_if test m)
    → Entries (λ k v. test k v ≡ true → P k v) m
unfolding keep_if
Entries-unkeep_if P test [] h = tt
Entries-unkeep_if P test ((k, v) ∷ m) h = ground (arith, Entries-unkeep_if P test m)

pub Entries-map {ℓ κ ι} :
    {K : Type ℓ} {V : Type κ} (P Q : K → V → Type ι) (m : List (K × V))
    → ((k : K) (v : V) → P k v → Q k v)
    → Entries P m
    → Entries Q m
Entries-map P Q [] f h = tt
Entries-map P Q ((k, v) ∷ m) f h = (f k v h.0, Entries-map P Q m f h.1)

pub Distinct-keep_if {ℓ κ} :
    {K : Type ℓ} {V : Type κ} (test : K → V → Bool) (m : List (K × V))
    → Distinct m
    → Distinct (keep_if test m)
unfolding keep_if
Distinct-keep_if test [] h = h
Distinct-keep_if test ((k, v) ∷ m) h =
    ground (arith, Entries-keep_if (λ j _. j ≢ k) test m h.0, Distinct-keep_if test m h.1)

-- What passed the test, and still has every property that it had.
pub Entries-passed {ℓ κ} :
    {K : Type ℓ} {V : Type κ} (test : K → V → Bool) (m : List (K × V))
    → Entries (λ k v. test k v ≡ true) (keep_if test m)
unfolding keep_if
Entries-passed test [] = tt
Entries-passed test ((k, v) ∷ m) = ground (arith, Entries-passed test m)

pub keep_if-keep_if {ℓ κ} :
    {K : Type ℓ} {V : Type κ} (test : K → V → Bool) (m : List (K × V))
    → keep_if test (keep_if test m) ≡ keep_if test m
unfolding keep_if
keep_if-keep_if test [] = refl
keep_if-keep_if test ((k, v) ∷ m) = ground (arith, keep_if-keep_if test m)

-- One level for keys and values: `ground` takes the tests on both at once.
module _ {ℓ} {K V : Type ℓ} (d : Discrete K) where
  unfoldable pub find : K → List (K × V) → Option V
  find k [] = none
  find k ((j, v) ∷ m) = ite (d j k) (some v) (find k m)

  abbrev pub contains : K → List (K × V) → Bool
  contains k m = is_some (find k m)

  unfoldable pub erase : K → List (K × V) → List (K × V)
  erase k [] = []
  erase k ((j, v) ∷ m) = let rest = erase k m in ite (d j k) rest ((j, v) ∷ rest)

  unfoldable pub insert_or_assign : K → V → List (K × V) → List (K × V)
  insert_or_assign k v m = (k, v) ∷ erase k m

  -- `emplace` leaves an entry that is there as it is.
  unfoldable pub emplace : K → V → List (K × V) → List (K × V)
  emplace k v m = if contains k m then m else (k, v) ∷ m

  pub find-erase : (k j : K) (m : List (K × V)) → find j (erase k m) ≡ ite (d k j) none (find j m)
  unfolding find erase
  find-erase k j [] = ground arith
  find-erase k j ((i, v) ∷ m) = ground (arith, find-erase k j m)

  pub find-insert_or_assign :
      (k j : K) (v : V) (m : List (K × V))
      → find j (insert_or_assign k v m) ≡ ite (d k j) (some v) (find j m)
  unfolding find insert_or_assign
  find-insert_or_assign k j v m = ground (arith, find-erase k j m)

  pub find-emplace :
      (k j : K) (v : V) (m : List (K × V))
      → find j (emplace k v m) ≡ ite (d k j) (if contains k m then find j m else some v) (find j m)
  unfolding find emplace
  find-emplace k j v m = ground arith

  pub Entries-erase {ι} :
      (P : K → V → Type ι) (k : K) (m : List (K × V)) → Entries P m → Entries P (erase k m)
  unfolding erase
  Entries-erase P k [] h = h
  Entries-erase P k ((j, v) ∷ m) h = ground (arith, Entries-erase P k m h.1)

  Entries-ne-erase : (k : K) (m : List (K × V)) → Entries (λ j _. j ≢ k) (erase k m)
  unfolding erase
  Entries-ne-erase k [] = tt
  Entries-ne-erase k ((j, v) ∷ m) = ground (arith, Entries-ne-erase k m)

  pub Distinct-erase : (k : K) (m : List (K × V)) → Distinct m → Distinct (erase k m)
  unfolding erase
  Distinct-erase k [] h = h
  Distinct-erase k ((j, v) ∷ m) h =
      ground (arith, Entries-erase (λ i _. i ≢ j) k m h.0, Distinct-erase k m h.1)

  pub Distinct-insert_or_assign :
      (k : K) (v : V) (m : List (K × V)) → Distinct m → Distinct (insert_or_assign k v m)
  unfolding insert_or_assign
  Distinct-insert_or_assign k v m h = (Entries-ne-erase k m, Distinct-erase k m h)

  pub Entries-find {ι} :
      (P : K → V → Type ι) (k : K) (v : V) (m : List (K × V))
      → Entries P m
      → find k m ≡ some v
      → P k v
  unfolding find
  Entries-find P k v [] h e = cc
  Entries-find P k v ((j, w) ∷ m) h e = ground (arith, Entries-find P k v m h.1)

  find-absent : (k : K) (m : List (K × V)) → Entries (λ j _. j ≢ k) m → find k m ≡ none
  unfolding find
  find-absent k [] h = refl
  find-absent k ((j, v) ∷ m) h = ground (arith, find-absent k m h.1)

  -- What a lookup finds once the entries that fail a test are gone.
  abbrev pub when : (K → V → Bool) → K → Option V → Option V
  when test k none = none
  when test k (some v) = if test k v then some v else none

  pub find-keep_if :
      (test : K → V → Bool) (k : K) (m : List (K × V))
      → Distinct m
      → find k (keep_if test m) ≡ when test k (find k m)
  unfolding find keep_if
  find-keep_if test k [] h = refl
  find-keep_if test k ((j, v) ∷ m) h =
      ground (arith, find-absent j m h.0, find-keep_if test k m h.1)
