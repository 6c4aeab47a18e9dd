-- ===== src/Lifecycle/Failures.antt =====
-- The failure window: ten failures within five minutes, and the module is given up.
use gisland.Prelude.{
  leb, if◌then◌else◌, length, length-append, ℕ, suc, ◌≤◌, ◌≡◌, refl, ◌≢◌, ◌↔◌, true, false, not,
  ◌&&◌, List, [], ◌∷◌, ◌++◌, arith,
}
use gisland.Lifecycle.Types.{ModuleState, starting, running, stopping, failed, StopCause, state_eq}
use gisland.Lifecycle.State.{
  ModuleLifecycle, after, failure_window, failure_limit, is_failure, clear_process_state,
  reset_backoff_if_healthy, drop_old,
}
use gisland.Lifecycle.Exit.{effective_cause, settle, finish_exit, exited}
use gisland.Lifecycle.Diagram.{HasProcess, starting_process, running_process, stopping_process}

-- Failure times that rise from `low` to `high`.
abbrev pub Rises : ℕ → List ℕ → ℕ → Type 0
Rises low [] high = low ≤ high
Rises low (time ∷ times) high = (low ≤ time) × Rises time times high

-- How many of the failures lie within the window that ends `now`.
abbrev pub count_recent : ℕ → List ℕ → ℕ
count_recent now [] = 0
count_recent now (time ∷ times) =
    if leb now (after time failure_window)
    then suc (count_recent now times)
    else count_recent now times

count_recent_all :
    (now low high : ℕ) (times : List ℕ)
    → now ≤ after low failure_window
    → Rises low times high
    → count_recent now times ≡ length times
count_recent_all now low high [] h r = refl
count_recent_all now low high (time ∷ times) h r =
    ground (arith, count_recent_all now time high times)

drop_old-count_recent :
    (now low high : ℕ) (times : List ℕ)
    → Rises low times high
    → length (drop_old now times) ≡ count_recent now times
unfolding drop_old
drop_old-count_recent now low high [] r = refl
drop_old-count_recent now low high (time ∷ times) r =
    ground (arith, count_recent_all now time high times, drop_old-count_recent now time high times)

drop_old-Rises :
    (now low high : ℕ) (times : List ℕ) → Rises low times high → Rises low (drop_old now times) high
unfolding drop_old
drop_old-Rises now low high [] r = r
drop_old-Rises now low high (time ∷ times) r =
    ground (arith, Rises-low low time high (drop_old now times), drop_old-Rises now time high times)
  where
    Rises-low : (a b c : ℕ) (xs : List ℕ) → a ≤ b → Rises b xs c → Rises a xs c
    Rises-low a b c [] h k = omega arith
    Rises-low a b c (x ∷ xs) h k = (omega arith, k.1)

pub snoc-Rises :
    (now low high : ℕ) (times : List ℕ)
    → high ≤ now
    → Rises low times high
    → Rises low (times ++ now ∷ []) now
snoc-Rises now low high [] h r = omega arith
snoc-Rises now low high (time ∷ times) h r = (r.0, snoc-Rises now time high times h r.1)

settle-failures :
    (l : ModuleLifecycle) (cause : StopCause) (now : ℕ)
    → ((settle l cause now).0.failures ≡ l.failures) × ((settle l cause now).0.state ≢ failed)
unfolding settle
settle-failures l cause now = (ground arith, ground arith)

effective_cause-reset :
    (l : ModuleLifecycle) (cause : StopCause) (now : ℕ)
    → effective_cause (reset_backoff_if_healthy l now) cause ≡ effective_cause l cause
unfolding effective_cause reset_backoff_if_healthy
effective_cause-reset l cause now = ground arith

cleared-failures :
    (l : ModuleLifecycle) (now : ℕ)
    → (clear_process_state (reset_backoff_if_healthy l now)).failures ≡ l.failures
unfolding clear_process_state reset_backoff_if_healthy
cleared-failures l now = ground arith

finish_exit-failed :
    (l : ModuleLifecycle) (cause : StopCause) (now : ℕ)
    → is_failure cause ≡ true
    → let recorded = length (drop_old now l.failures ++ now ∷ []) in
      ((finish_exit l cause now).0.state ≡ failed) ↔ (failure_limit ≤ recorded)
unfolding finish_exit
finish_exit-failed l cause now h = (there, back)
  where
    recorded : List ℕ
    recorded = drop_old now l.failures ++ now ∷ []

    there : (finish_exit l cause now).0.state ≡ failed → failure_limit ≤ length recorded
    there e = ground (arith, settle-failures (record l { failures = recorded }) cause now)

    back : failure_limit ≤ length recorded → (finish_exit l cause now).0.state ≡ failed
    back k = ground arith

pub exited-finish_exit :
    (l : ModuleLifecycle) (cause : StopCause) (now : ℕ)
    → HasProcess l.state
    → exited l cause now
      ≡ finish_exit
          (clear_process_state (reset_backoff_if_healthy l now))
          (effective_cause l cause)
          now
unfolding exited
exited-finish_exit l cause now p = ground (arith, live l.state p, effective_cause-reset l cause now)
  where
    live :
        (s : ModuleState)
        → HasProcess s
        → not (state_eq s starting) && not (state_eq s running) && not (state_eq s stopping) ≡ false
    live _ starting_process = refl
    live _ running_process = refl
    live _ stopping_process = refl

-- A process that ends in a failure sends its module to `failed` exactly when, with this one, ten
-- failures lie within the last five minutes. The recorded failures rise in time.
pub exited-failed :
    (l : ModuleLifecycle) (cause : StopCause) (now low high : ℕ)
    → HasProcess l.state
    → Rises low l.failures high
    → is_failure (effective_cause l cause) ≡ true
    → ((exited l cause now).0.state ≡ failed) ↔ (failure_limit ≤ suc (count_recent now l.failures))
exited-failed l cause now low high p r h =
    rw (exited-finish_exit l cause now p)
      (rw (← counted) (finish_exit-failed cleared (effective_cause l cause) now h))
  where
    cleared : ModuleLifecycle
    cleared = clear_process_state (reset_backoff_if_healthy l now)

    counted : length (drop_old now cleared.failures ++ now ∷ []) ≡ suc (count_recent now l.failures)
    counted = rw (cleared-failures l now) (
        omega (
          arith,
          length-append (drop_old now l.failures) (now ∷ []),
          drop_old-count_recent now low high l.failures r,
        ))

finish_exit-Rises :
    (l : ModuleLifecycle) (cause : StopCause) (now high : ℕ)
    → Rises 0 l.failures high
    → high ≤ now
    → Rises 0 (finish_exit l cause now).0.failures now
unfolding finish_exit
finish_exit-Rises l cause now high r h = ground (
  arith,
  settle-failures l cause now,
  settle-failures (record l { failures = drop_old now l.failures ++ now ∷ [] }) cause now,
  snoc-Rises now 0 high (drop_old now l.failures) h (drop_old-Rises now 0 high l.failures r),
  Rises-high 0 high now l.failures h r,
)
  where
    Rises-high : (a b c : ℕ) (xs : List ℕ) → b ≤ c → Rises a xs b → Rises a xs c
    Rises-high a b c [] h k = omega arith
    Rises-high a b c (x ∷ xs) h k = (k.0, Rises-high x b c xs h k.1)
