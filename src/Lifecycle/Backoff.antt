-- ===== src/Lifecycle/Backoff.antt =====
-- What follows the end of a process: whether it is restarted, and after which delay.
use gisland.Prelude.{if◌then◌else◌, ℕ, ◌*◌, ◌≤◌, ◌≡◌, ◌≢◌, ◌⊎◌, true, some, arith}
use gisland.Lifecycle.Types.{stopped, starting, running, backoff, failed, StopCause, never}
use gisland.Lifecycle.State.{
  ModuleLifecycle, after, is_failure, should_restart, clear_process_state, reset_backoff_if_healthy,
}
use gisland.Lifecycle.Exit.{effective_cause, doubled, finish_exit, exited}
use gisland.Lifecycle.{stop, fail}
use gisland.Lifecycle.Invariant.{IsValid}
use gisland.Lifecycle.Diagram.{HasProcess}
use gisland.Lifecycle.Failures.{exited-finish_exit}

abbrev pub restart_delay : ModuleLifecycle → StopCause → ℕ
restart_delay l cause = if is_failure cause then l.next_backoff else l.initial_backoff

pub finish_exit-delay :
    (l : ModuleLifecycle) (cause : StopCause) (now : ℕ)
    → (finish_exit l cause now).0.state ≡ backoff
    → (should_restart l.policy cause ≡ true)
      × ((finish_exit l cause now).0.restart_at ≡ some (after now (restart_delay l cause)))
      × ((finish_exit l cause now).0.next_backoff ≡ (
          if is_failure cause then doubled l.maximum_backoff l.next_backoff else l.initial_backoff))
unfolding finish_exit
finish_exit-delay l cause now h = (ground arith, ground arith, ground arith)

-- Doubling ends at the maximum and in between multiplies by two.
pub doubled_cases :
    (maximum current : ℕ)
    → (doubled maximum current ≡ maximum) ⊎ (doubled maximum current ≡ 2 * current)
unfolding doubled
doubled_cases maximum current = ground arith

cleared_backoff :
    (l : ModuleLifecycle) (now : ℕ)
    → IsValid l
    → let cleared = clear_process_state (reset_backoff_if_healthy l now) in
      (cleared.policy ≡ l.policy)
      × (cleared.timings ≡ l.timings)
      × (l.initial_backoff ≤ cleared.next_backoff)
      × (cleared.next_backoff ≤ l.maximum_backoff)
      × (l.state ≢ running → cleared.next_backoff ≡ l.next_backoff)
unfolding clear_process_state reset_backoff_if_healthy
cleared_backoff l now v =
    (ground arith, ground arith, ground arith, ground arith, λ p. ground arith)

-- A process that ends and leaves its module in `backoff` is one that its policy restarts. The
-- restart is due after a delay from the initial backoff to the maximum, and the backoff that a
-- failure leaves behind is the maximum or twice that delay.
pub exited-backoff :
    (l : ModuleLifecycle) (cause : StopCause) (now : ℕ)
    → IsValid l
    → HasProcess l.state
    → (exited l cause now).0.state ≡ backoff
    → let l' = (exited l cause now).0 in
      (should_restart l.policy (effective_cause l cause) ≡ true)
      × (delay : ℕ) × (l'.restart_at ≡ some (after now delay))
      × (l.initial_backoff ≤ delay)
      × (delay ≤ l.maximum_backoff)
      × (is_failure (effective_cause l cause) ≡ true
          → (l'.next_backoff ≡ l.maximum_backoff) ⊎ (l'.next_backoff ≡ 2 * delay))
exited-backoff l cause now v p = rw (exited-finish_exit l cause now p) λ e.
    let facts = finish_exit-delay cleared (effective_cause l cause) now e in
    (
      ground (arith, kept),
      restart_delay cleared (effective_cause l cause),
      facts.1,
      ground (arith, kept),
      ground (arith, kept),
      λ f. ground (arith, kept, facts.2, doubled_cases l.maximum_backoff cleared.next_backoff),
    )
  where
    cleared : ModuleLifecycle
    cleared = clear_process_state (reset_backoff_if_healthy l now)

    kept :
        (cleared.policy ≡ l.policy)
        × (cleared.timings ≡ l.timings)
        × (l.initial_backoff ≤ cleared.next_backoff)
        × (cleared.next_backoff ≤ l.maximum_backoff)
        × (l.state ≢ running → cleared.next_backoff ≡ l.next_backoff)
    kept = cleared_backoff l now v

-- A live process that is asked to stop ends `stopped`, whatever its policy, its exit status and
-- the time.
pub stop-exited :
    (l : ModuleLifecycle) (cause : StopCause) (now later : ℕ)
    → (l.state ≡ starting) ⊎ (l.state ≡ running)
    → (exited (stop l now).0 cause later).0.state ≡ stopped
unfolding stop exited effective_cause reset_backoff_if_healthy clear_process_state finish_exit
stop-exited l cause now later h = ground arith

-- A live process that is failed for a cause never ends in a clean stop unless its policy is not
-- to restart: it ends `failed`, or in `backoff` and is restarted.
pub fail-exited :
    (l : ModuleLifecycle) (reason cause : StopCause) (now later : ℕ)
    → (l.state ≡ starting) ⊎ (l.state ≡ running)
    → is_failure reason ≡ true
    → l.policy ≢ never
    → let l' = (exited (fail l reason now).0 cause later).0 in
      (l'.state ≡ failed) ⊎ (l'.state ≡ backoff)
unfolding fail exited effective_cause reset_backoff_if_healthy clear_process_state finish_exit
fail-exited l reason cause now later h f p = ground arith
