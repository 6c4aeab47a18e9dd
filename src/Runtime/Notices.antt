-- ===== src/Runtime/Notices.antt =====
-- The loop of `visibility_updates`: what it records of the instances, and what it says is news.
use gisland.Prelude.{
  Bool-cases, String_discrete, All, String, ◌≡◌, refl, sym, ap, subst, ◌≢◌, inl, inr, Bool, true,
  false, Option, none, some, List, [], ◌∷◌, arith,
}
use gisland.Prelude.Maps.{find, contains, insert_or_assign, find-insert_or_assign}
use gisland.Runtime.Types.{Visibility, hidden, compact_active, expanded_active, VisibilityUpdate}
use gisland.Runtime.Updates.{is_visibility, changes, visibility_loop}

abbrev pub Told :
    (String → Visibility) → List (String × Unit {0}) → String → List (String × Visibility) → Type 0
Told next ready instance_id visibility =
    contains String_discrete instance_id ready ≡ true
    → find String_discrete instance_id visibility ≡ some (next instance_id)

is_visibility-same :
    (next previous : Visibility) → is_visibility next (some previous) ≡ true → next ≡ previous
is_visibility-same hidden hidden h = refl
is_visibility-same compact_active compact_active h = refl
is_visibility-same expanded_active expanded_active h = refl
is_visibility-same hidden compact_active h = cc
is_visibility-same hidden expanded_active h = cc
is_visibility-same compact_active hidden h = cc
is_visibility-same compact_active expanded_active h = cc
is_visibility-same expanded_active hidden h = cc
is_visibility-same expanded_active compact_active h = cc

same-is_visibility : (next : Visibility) → is_visibility next (some next) ≡ true
same-is_visibility hidden = refl
same-is_visibility compact_active = refl
same-is_visibility expanded_active = refl

Told-insert_or_assign :
    (next : String → Visibility) (ready : List (String × Unit {0})) (x instance_id : String)
    (visibility : List (String × Visibility))
    → (x ≢ instance_id → Told next ready instance_id visibility)
    → Told next ready instance_id (insert_or_assign String_discrete x (next x) visibility)
Told-insert_or_assign next ready x instance_id visibility h is_ready =
    ground (arith, find-insert_or_assign String_discrete x instance_id (next x) visibility, h)

-- An instance that is told is not told otherwise later.
visibility_loop-keeps :
    (next : String → Visibility) (ready : List (String × Unit {0})) (instances : List String)
    (visibility : List (String × Visibility)) (instance_id : String)
    → Told next ready instance_id visibility
    → Told next ready instance_id (visibility_loop next ready instances visibility).0
unfolding visibility_loop
visibility_loop-keeps next ready [] visibility instance_id h = h
visibility_loop-keeps next ready (x ∷ xs) visibility instance_id h =
    elim (Bool-cases
      (changes (next x) (contains String_discrete x ready) (find String_discrete x visibility))) [
        | inl e ↦
            rw (visibility_loop, e)
              (visibility_loop-keeps next ready xs
                (insert_or_assign String_discrete x (next x) visibility) instance_id
                (Told-insert_or_assign next ready x instance_id visibility (λ _. h)))
        | inr e ↦
            rw (visibility_loop, e) (visibility_loop-keeps next ready xs visibility instance_id h)
      ]

-- An instance for which nothing changes is told already.
unchanged-Told :
    (next : String → Visibility) (ready : List (String × Unit {0})) (instance_id : String)
    (visibility : List (String × Visibility))
    → changes
        (next instance_id)
        (contains String_discrete instance_id ready)
        (find String_discrete instance_id visibility)
      ≡ false
    → Told next ready instance_id visibility
unchanged-Told next ready instance_id visibility e is_ready =
    known (find String_discrete instance_id visibility) refl
  where
    known :
        (o : Option Visibility)
        → find String_discrete instance_id visibility ≡ o
        → o ≡ some (next instance_id)
    known none f = ground (arith, e, f, is_ready)
    known (some previous) f =
        ap some
          (sym (is_visibility-same (next instance_id) previous (ground (arith, e, f, is_ready))))

pub visibility_loop-Told :
    (next : String → Visibility) (ready : List (String × Unit {0})) (instances : List String)
    (visibility : List (String × Visibility))
    → All
        (λ instance_id.
          Told next ready instance_id (visibility_loop next ready instances visibility).0)
        instances
unfolding visibility_loop
visibility_loop-Told next ready [] visibility = tt
visibility_loop-Told next ready (x ∷ xs) visibility =
    by_change
      (changes (next x) (contains String_discrete x ready) (find String_discrete x visibility)) refl
      (visibility_loop-Told next ready xs)
  where
    -- What the recursion gives, for any visibilities.
    Rest : Type 0
    Rest =
        (m : List (String × Visibility))
        → All (λ instance_id. Told next ready instance_id (visibility_loop next ready xs m).0) xs

    before : List (String × Visibility)
    before = insert_or_assign String_discrete x (next x) visibility

    after : List (String × Visibility)
    after = (visibility_loop next ready (x ∷ xs) visibility).0

    told :
        (m : List (String × Visibility))
        → after ≡ m
        → Told next ready x m
        → All (λ instance_id. Told next ready instance_id m) xs
        → All (λ instance_id. Told next ready instance_id after) (x ∷ xs)
    told m e h hs =
        subst (λ m. All (λ instance_id. Told next ready instance_id m) (x ∷ xs)) (sym e) (h, hs)

    by_change :
        (b : Bool)
        → changes (next x) (contains String_discrete x ready) (find String_discrete x visibility)
          ≡ b
        → Rest
        → All (λ instance_id. Told next ready instance_id after) (x ∷ xs)
    by_change true e rest =
        told (visibility_loop next ready xs before).0 (ground (arith, e))
          (visibility_loop-keeps next ready xs before x
            (Told-insert_or_assign next ready x x visibility (λ h. absurd (h refl))))
          (rest before)
    by_change false e rest =
        told (visibility_loop next ready xs visibility).0 (ground (arith, e))
          (visibility_loop-keeps next ready xs visibility x
            (unchanged-Told next ready x visibility e))
          (rest visibility)

-- Where every instance is told, there is nothing more to tell.
pub visibility_loop-quiet :
    (next : String → Visibility) (ready : List (String × Unit {0})) (instances : List String)
    (visibility : List (String × Visibility))
    → All (λ instance_id. Told next ready instance_id visibility) instances
    → (visibility_loop next ready instances visibility).1 ≡ []
unfolding visibility_loop
visibility_loop-quiet next ready [] visibility h = refl
visibility_loop-quiet next ready (x ∷ xs) visibility h =
    rw (visibility_loop, unchanged) (visibility_loop-quiet next ready xs visibility h.1)
  where
    unchanged :
        changes (next x) (contains String_discrete x ready) (find String_discrete x visibility)
        ≡ false
    unchanged = elim (Bool-cases (contains String_discrete x ready)) [
      | inl is_ready ↦ simp (is_ready, h.0 is_ready, same-is_visibility (next x)) refl
      | inr unready ↦ simp unready refl
    ]

-- What the updates say, put into the map one after another.
abbrev pub recorded :
    List (String × Visibility) → List VisibilityUpdate → List (String × Visibility)
recorded visibility [] = visibility
recorded visibility (update ∷ updates) =
    recorded (insert_or_assign String_discrete update.instance_id update.visibility visibility)
      updates

pub visibility_loop-recorded :
    (next : String → Visibility) (ready : List (String × Unit {0})) (instances : List String)
    (visibility : List (String × Visibility))
    → let (after, updates) = visibility_loop next ready instances visibility in
      after ≡ recorded visibility updates
unfolding visibility_loop
visibility_loop-recorded next ready [] visibility = refl
visibility_loop-recorded next ready (x ∷ xs) visibility =
    elim (Bool-cases
      (changes (next x) (contains String_discrete x ready) (find String_discrete x visibility))) [
        | inl e ↦
            rw (visibility_loop, e)
              (visibility_loop-recorded next ready xs
                (insert_or_assign String_discrete x (next x) visibility))
        | inr e ↦ rw (visibility_loop, e) (visibility_loop-recorded next ready xs visibility)
      ]

-- An update says something that the map does not say.
abbrev pub IsNews : List (String × Visibility) → VisibilityUpdate → Type 0
IsNews visibility update =
    find String_discrete update.instance_id visibility ≢ some update.visibility

-- Such an update is of the visibility that its instance has next.
abbrev pub NextNews : (String → Visibility) → List (String × Visibility) → VisibilityUpdate → Type 0
NextNews next visibility update =
    (update.visibility ≡ next update.instance_id) × IsNews visibility update

NextNews-before :
    (next : String → Visibility) (x : String) (visibility : List (String × Visibility))
    (updates : List VisibilityUpdate)
    → All (NextNews next (insert_or_assign String_discrete x (next x) visibility)) updates
    → All (NextNews next visibility) updates
NextNews-before next x visibility [] h = tt
NextNews-before next x visibility (update ∷ updates) h = (
  (
    h.0.0,
    λ same. ground (
      arith,
      h.0.0,
      h.0.1,
      same,
      ap next,
      find-insert_or_assign String_discrete x update.instance_id (next x) visibility,
    ),
  ),
  NextNews-before next x visibility updates h.1,
)

pub visibility_loop-NextNews :
    (next : String → Visibility) (ready : List (String × Unit {0})) (instances : List String)
    (visibility : List (String × Visibility))
    → All (NextNews next visibility) (visibility_loop next ready instances visibility).1
unfolding visibility_loop
visibility_loop-NextNews next ready [] visibility = tt
visibility_loop-NextNews next ready (x ∷ xs) visibility =
    elim (Bool-cases
      (changes (next x) (contains String_discrete x ready) (find String_discrete x visibility))) [
        | inl e ↦
            rw (visibility_loop, e)
              (
                (refl, changed-IsNews (next x) _ (find String_discrete x visibility) e),
                NextNews-before next x visibility _ (
                    visibility_loop-NextNews next ready xs
                      (insert_or_assign String_discrete x (next x) visibility)),
              )
        | inr e ↦ rw (visibility_loop, e) (visibility_loop-NextNews next ready xs visibility)
      ]
  where
    changed-IsNews :
        (v : Visibility) (is_ready : Bool) (o : Option Visibility)
        → changes v is_ready o ≡ true
        → o ≢ some v
    changed-IsNews v is_ready none e h = cc
    changed-IsNews v is_ready (some u) e h =
        ground (arith, e, ap (is_visibility v) h, same-is_visibility v)
