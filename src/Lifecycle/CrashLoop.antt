-- ===== src/Lifecycle/CrashLoop.antt =====
-- A module that fails again and again before it is ready.
use gisland.Prelude.{
  ℕ, zero, suc, ◌*◌, ◌^◌, ◌≤◌, ◌≡◌, refl, sym, ap, ◌∙◌, subst, ◌⊎◌, inr, true, some, arith,
}
use gisland.Lifecycle.Types.{starting, backoff, StopCause}
use gisland.Lifecycle.State.{
  ModuleLifecycle, after, is_failure, clear_process_state, reset_backoff_if_healthy,
}
use gisland.Lifecycle.Exit.{effective_cause, doubled, finish_exit, exited}
use gisland.Lifecycle.{tick}
use gisland.Lifecycle.Invariant.{IsValid}
use gisland.Lifecycle.Diagram.{HasProcess, starting_process}
use gisland.Lifecycle.Failures.{exited-finish_exit}
use gisland.Lifecycle.Backoff.{finish_exit-delay, doubled_cases}
use native.Mathlib.Nat.{pow-suc}

abbrev pub repeated : ℕ → ℕ → ℕ → ℕ
repeated maximum zero current = current
repeated maximum (suc n) current = doubled maximum (repeated maximum n current)

power_twice : (current n : ℕ) → current * 2 ^ suc n ≡ 2 * (current * 2 ^ n)
power_twice current n = rw pow-suc (omega arith)

doubled_maximum : (maximum : ℕ) → doubled maximum maximum ≡ maximum
unfolding doubled
doubled_maximum maximum = ground arith

repeated_cases :
    (maximum n current : ℕ)
    → (repeated maximum n current ≡ maximum) ⊎ (repeated maximum n current ≡ current * 2 ^ n)
repeated_cases maximum zero current = inr (omega arith)
repeated_cases maximum (suc n) current = ground (
  arith,
  repeated_cases maximum n current,
  doubled_maximum maximum,
  doubled_cases maximum (repeated maximum n current),
  power_twice current n,
)

repeated-maximum :
    (maximum n current : ℕ)
    → current ≤ maximum
    → maximum ≤ current * 2 ^ n
    → repeated maximum n current ≡ maximum
unfolding doubled
repeated-maximum maximum zero current h k = omega arith
repeated-maximum maximum (suc n) current h k =
    ground (arith, repeated_cases maximum n current, power_twice current n)

-- A module in `backoff` that is restarted and fails again before it is ready, `n` times in a row.
pub data Crashes (l : ModuleLifecycle) : ℕ → ModuleLifecycle → Type 0 where
  none_yet : Crashes l zero l
  once_more :
      {n : ℕ} {m : ModuleLifecycle} (cause : StopCause) (restarted crashed : ℕ)
      → Crashes l n m
      → (tick m restarted).0.state ≡ starting
      → is_failure cause ≡ true
      → (exited (tick m restarted).0 cause crashed).0.state ≡ backoff
      → Crashes l (suc n) (exited (tick m restarted).0 cause crashed).0

tick_backoff :
    (l : ModuleLifecycle) (now : ℕ)
    → l.state ≡ backoff
    → ((tick l now).0.next_backoff ≡ l.next_backoff) × ((tick l now).0.timings ≡ l.timings)
unfolding tick
tick_backoff l now s = (ground arith, ground arith)

cleared_starting :
    (l : ModuleLifecycle) (now : ℕ)
    → l.state ≡ starting
    → let cleared = clear_process_state (reset_backoff_if_healthy l now) in
      (cleared.next_backoff ≡ l.next_backoff) × (cleared.timings ≡ l.timings)
unfolding clear_process_state reset_backoff_if_healthy
cleared_starting l now s = (ground arith, ground arith)

effective_starting :
    (l : ModuleLifecycle) (cause : StopCause)
    → l.state ≡ starting
    → is_failure cause ≡ true
    → is_failure (effective_cause l cause) ≡ true
unfolding effective_cause is_failure
effective_starting l cause s f = ground arith

finish_exit-timings :
    (l : ModuleLifecycle) (cause : StopCause) (now : ℕ)
    → (finish_exit l cause now).0.timings ≡ l.timings
unfolding finish_exit
finish_exit-timings l cause now = ground arith

crash-next_backoff :
    (l : ModuleLifecycle) (cause : StopCause) (now : ℕ)
    → l.state ≡ starting
    → is_failure cause ≡ true
    → (exited l cause now).0.state ≡ backoff
    → let l' = (exited l cause now).0 in
      (l'.next_backoff ≡ doubled l.maximum_backoff l.next_backoff) × (l'.timings ≡ l.timings)
crash-next_backoff l cause now s f =
    rw (exited-finish_exit l cause now (subst HasProcess (sym s) starting_process)) λ b. (
      ground (
        arith,
        finish_exit-delay cleared (effective_cause l cause) now b,
        cleared_starting l now s,
        effective_starting l cause s f,
      ),
      finish_exit-timings cleared (effective_cause l cause) now ∙ (cleared_starting l now s).1,
    )
  where
    cleared : ModuleLifecycle
    cleared = clear_process_state (reset_backoff_if_healthy l now)

Crashes-next_backoff :
    {l m : ModuleLifecycle} {n : ℕ}
    → l.state ≡ backoff
    → Crashes l n m
    → (m.state ≡ backoff)
      × (m.timings ≡ l.timings)
      × (m.next_backoff ≡ repeated l.maximum_backoff n l.next_backoff)
Crashes-next_backoff s none_yet = (s, refl, refl)
Crashes-next_backoff s (once_more {m = m} cause restarted crashed before t f b) =
    let ih = Crashes-next_backoff s before in
    let waited = tick_backoff m restarted ih.0 in
    let crash = crash-next_backoff (tick m restarted).0 cause crashed t f b in
    (b, crash.1 ∙ waited.1 ∙ ih.1, ground (arith, ih, waited, crash))

crash-restart_at :
    (l : ModuleLifecycle) (cause : StopCause) (now : ℕ)
    → l.state ≡ starting
    → is_failure cause ≡ true
    → (exited l cause now).0.state ≡ backoff
    → (exited l cause now).0.restart_at ≡ some (after now l.next_backoff)
crash-restart_at l cause now s f =
    rw (exited-finish_exit l cause now (subst HasProcess (sym s) starting_process)) λ b. ground (
      arith,
      finish_exit-delay (clear_process_state (reset_backoff_if_healthy l now))
          (effective_cause l cause) now b,
      cleared_starting l now s,
      effective_starting l cause s f,
    )

-- A module that keeps failing before it is ready reaches the maximum backoff once it has failed so
-- often that the doubled backoff would reach it: its next failure before it is ready then puts the
-- restart off by that maximum, and leaves the maximum as the backoff.
pub Crashes-maximum :
    {l m : ModuleLifecycle} {n : ℕ} (cause : StopCause) (restarted crashed : ℕ)
    → IsValid l
    → l.state ≡ backoff
    → Crashes l n m
    → l.maximum_backoff ≤ l.initial_backoff * 2 ^ n
    → (tick m restarted).0.state ≡ starting
    → is_failure cause ≡ true
    → (exited (tick m restarted).0 cause crashed).0.state ≡ backoff
    → let again = (exited (tick m restarted).0 cause crashed).0 in
      (again.restart_at ≡ some (after crashed l.maximum_backoff))
      × (again.next_backoff ≡ l.maximum_backoff)
Crashes-maximum {l} {m} {n} cause restarted crashed v s c h t f b =
    let waited = tick_backoff m restarted (Crashes-next_backoff s c).0 in
    let crash = crash-next_backoff (tick m restarted).0 cause crashed t f b in
    (
      crash-restart_at (tick m restarted).0 cause crashed t f b
          ∙ ap (λ backoff. some (after crashed backoff)) (waited.0 ∙ reached),
      ground (
        arith,
        waited,
        crash,
        Crashes-next_backoff s c,
        reached,
        doubled_maximum l.maximum_backoff,
      ),
    )
  where
    reached : m.next_backoff ≡ l.maximum_backoff
    reached =
        (Crashes-next_backoff s c).2
        ∙ repeated-maximum l.maximum_backoff n l.next_backoff v.backoff_high
            (grind (arith, v.backoff_low))
