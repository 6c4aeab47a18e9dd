-- ===== src/Interaction/Gate.antt =====
-- src/interaction.cpp: `KeyboardActivationGate`, which lets one press of a key activate once.
use gisland.Prelude.{
  leb, if◌then◌else◌, All, ℕ, ◌+◌, ◌≤◌, ◌<◌, ◌≡◌, refl, ◌⊎◌, inl, inr, Bool, true, false, not, ◌&&◌,
  List, [], ◌∷◌, arith,
}
use gisland.Prelude.Int.{ℤ, pos, negsuc}

pub record KeyboardActivationGate : Type 0 where
  pub armed : Bool
  pub release_observed : Bool
  pub released_for : ℕ

abbrev pub release_debounce : ℕ
release_debounce = 100

-- The arguments of `update`: whether the key is down, whether it was pressed, and the time since
-- the last call, in milliseconds.
pub record Frame : Type 0 where
  pub down : Bool
  pub pressed : Bool
  pub elapsed : ℤ

-- `std::max(elapsed, 0ms)`.
abbrev pub at_least_zero : ℤ → ℕ
at_least_zero (pos n) = n
at_least_zero (negsuc n) = 0

unfoldable pub update : KeyboardActivationGate → Frame → KeyboardActivationGate × Bool
update g frame =
    if frame.pressed && g.armed
    then (record { armed = false; release_observed = false; released_for = 0 }, true)
    else if frame.down
    then (record g { release_observed = false; released_for = 0 }, false)
    else if g.armed
    then (g, false)
    else if not g.release_observed
    then (record g { release_observed = true; released_for = 0 }, false)
    else (
      record g {
        released_for = g.released_for + at_least_zero frame.elapsed;
        armed = leb release_debounce (g.released_for + at_least_zero frame.elapsed);
      },
      false,
    )

-- The answers to a sequence of calls.
unfoldable pub updates : KeyboardActivationGate → List Frame → List Bool
unfolding update
updates g [] = []
updates g (frame ∷ frames) = let (g', activated) = update g frame in activated ∷ updates g' frames

-- Wherever the key is up for a while, on from the given time, it is down again before the time of
-- the debounce is over. The time starts again each time the key goes down.
unfoldable pub Bounces : ℕ → List Frame → Type 0
Bounces up_for [] = Unit {0}
Bounces up_for (frame ∷ frames) =
    if frame.down
    then Bounces 0 frames
    else (up_for + at_least_zero frame.elapsed < release_debounce)
      × Bounces (up_for + at_least_zero frame.elapsed) frames

-- What the gate has measured since it was disarmed is at most the time that the key is up.
abbrev Measures : KeyboardActivationGate → ℕ → Type 0
Measures g up_for = (g.armed ≡ false) × (g.released_for ≤ up_for)

down-unarmed :
    (g : KeyboardActivationGate) (frame : Frame)
    → g.armed ≡ false
    → frame.down ≡ true
    → ((update g frame).1 ≡ false) × Measures (update g frame).0 0
unfolding update
down-unarmed g frame a h = (ground (arith, a, h), (ground (arith, a, h), ground (arith, a, h)))

up-unarmed :
    (g : KeyboardActivationGate) (frame : Frame) (up_for : ℕ)
    → Measures g up_for
    → frame.down ≡ false
    → up_for + at_least_zero frame.elapsed < release_debounce
    → ((update g frame).1 ≡ false)
      × Measures (update g frame).0 (up_for + at_least_zero frame.elapsed)
unfolding update
up-unarmed g frame up_for m h short =
    (ground (arith, m, h), (ground (arith, m, h, short), ground (arith, m, h, short)))

either : {A B : Type 0} (b : Bool) → (if b then A else B) → ((b ≡ true) × A) ⊎ ((b ≡ false) × B)
either true a = inl (refl, a)
either false b = inr (refl, b)

unarmed-updates :
    (g : KeyboardActivationGate) (frames : List Frame) (up_for : ℕ)
    → Measures g up_for
    → Bounces up_for frames
    → All (λ activated. activated ≡ false) (updates g frames)
unfolding updates Bounces
unarmed-updates g [] up_for m h = tt
unarmed-updates g (frame ∷ frames) up_for m h = elim (either frame.down h) [
  | inl (down, rest) ↦
      let (quiet, measured) = down-unarmed g frame m.0 down in
      (quiet, unarmed-updates (update g frame).0 frames 0 measured rest)
  | inr (up, (short, rest)) ↦
      let (quiet, measured) = up-unarmed g frame up_for m up short in
      (
        quiet,
        unarmed-updates (update g frame).0 frames (up_for + at_least_zero frame.elapsed) measured
            rest,
      )
]

-- After an activation there is no other one, however often the key is held or pressed, as long as
-- each time that the key is up it goes down again before the time of the debounce is over. Times
-- between which the key is down do not add up.
pub update-debounces :
    (g : KeyboardActivationGate) (frame : Frame) (frames : List Frame)
    → (update g frame).1 ≡ true
    → Bounces 0 frames
    → All (λ activated. activated ≡ false) (updates (update g frame).0 frames)
update-debounces g frame frames ok h =
    unarmed-updates (update g frame).0 frames 0
      (unfold update in ground (arith, ok), unfold update in ground (arith, ok)) h
