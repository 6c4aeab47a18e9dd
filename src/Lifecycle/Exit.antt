-- ===== src/Lifecycle/Exit.antt =====
-- `ModuleLifecycle::exited`: what follows the end of a process.
use gisland.Prelude.{
  leb, if◌then◌else◌, is_some, ℕ, ◌*◌, ◌/◌, min, not, ◌&&◌, Option, none, some, List, [], ◌∷◌,
}
use gisland.Lifecycle.Types.{
  stopped, starting, running, backoff, stopping, failed, StopCause, clean_exit, failed_exit,
  StateTransition, state_eq,
}
use gisland.Lifecycle.State.{
  ModuleLifecycle, after, is_failure, should_restart, transition_to, clear_process_state,
  reset_backoff_if_healthy, record_failure,
}

abbrev pub value_or : Option StopCause → StopCause → StopCause
value_or none cause = cause
value_or (some pending) cause = pending

abbrev pub unclean : StopCause → StopCause
unclean clean_exit = failed_exit
unclean cause = cause

-- The cause that counts when a process is gone.
unfoldable pub effective_cause : ModuleLifecycle → StopCause → StopCause
effective_cause l cause =
    if state_eq l.state stopping && is_some l.pending_stop_cause
    then value_or l.pending_stop_cause cause
    else if state_eq l.state starting
    then unclean cause
    else cause

-- The backoff that follows a failure.
unfoldable pub doubled : ℕ → ℕ → ℕ
doubled maximum current = if leb (maximum / 2) current then maximum else min (current * 2) maximum

-- `exited` from the point where the process state is cleared: a restart is scheduled.
unfoldable pub schedule_restart :
    ModuleLifecycle → StopCause → ℕ → ModuleLifecycle × List StateTransition
unfolding transition_to is_failure doubled
schedule_restart l cause now =
    let delay = if is_failure cause then l.next_backoff else l.initial_backoff in
    let following =
      if is_failure cause then doubled l.maximum_backoff l.next_backoff else l.initial_backoff in
    let (l', transition) =
      transition_to (record l { restart_at = some (after now delay); next_backoff = following })
        backoff cause now in
    (l', transition ∷ [])

unfoldable pub settle : ModuleLifecycle → StopCause → ℕ → ModuleLifecycle × List StateTransition
unfolding transition_to should_restart schedule_restart
settle l cause now =
    if not (should_restart l.policy cause)
    then (let (l', transition) = transition_to l stopped cause now in (l', transition ∷ []))
    else schedule_restart l cause now

-- `is_failure(cause) && record_failure(now)`: the failure is recorded only if the cause is one.
unfoldable pub finish_exit :
    ModuleLifecycle → StopCause → ℕ → ModuleLifecycle × List StateTransition
unfolding transition_to is_failure record_failure settle
finish_exit l cause now =
    if is_failure cause
    then (let (recorded, exhausted) = record_failure l now in
        if exhausted
        then (let (l', transition) = transition_to recorded failed cause now in
            (l', transition ∷ []))
        else settle recorded cause now)
    else settle l cause now

unfoldable pub exited : ModuleLifecycle → StopCause → ℕ → ModuleLifecycle × List StateTransition
exited l cause now =
    if not (state_eq l.state starting)
      && not (state_eq l.state running)
      && not (state_eq l.state stopping)
    then (l, [])
    else (let l' = reset_backoff_if_healthy l now in
        finish_exit (clear_process_state l') (effective_cause l' cause) now)
