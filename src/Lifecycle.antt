-- ===== src/Lifecycle.antt =====
-- src/module_lifecycle.cpp and include/gisland/module_lifecycle.hpp: the life of one module
-- process, with its handshake, restart backoff and shutdown signals. The public methods are in this
-- file and in `Exit`; `State` has the fields and the private methods.
-- A method that changes the object returns the new record beside its result. A `MonotonicTime` is
-- its count of nanoseconds and a duration its count of milliseconds; a difference of times is
-- written as a sum on the other side of the comparison, so no subtraction stops at 0.
pub mod Types
pub mod State
pub mod Exit
pub mod Invariant
pub mod Diagram
pub mod Backoff
pub mod CrashLoop
pub mod Failures
pub mod Signals
pub mod Deadlines
mod Tests
use gisland.Prelude.{
  if◌then◌else◌, Expected, value, unexpected, ℕ, Bool, false, not, ◌&&◌, ◌||◌, Option, none, some,
  List, [], ◌∷◌,
}
use gisland.Lifecycle.Types.{
  stopped, starting, running, backoff, stopping, failed, StopCause, requested, handshake_timeout,
  ShutdownSignal, terminate, kill, StateTransition, LifecycleError, state_eq, signal_eq,
}
use gisland.Lifecycle.State.{
  ModuleLifecycle, after, due, is_failure, transition_to, begin_stopping, reset_backoff_if_healthy,
  Outcome,
}
use gisland.Lifecycle.Exit.{exited}

unfoldable pub start : ModuleLifecycle → ℕ → Outcome StateTransition
unfolding transition_to
start l now =
    if not (state_eq l.state stopped) && not (state_eq l.state failed)
    then (l, unexpected (record { state = l.state; operation = "start" }))
    else (let cleared = if state_eq l.state failed then record l { failures = [] } else l in
        let (l', transition) =
          transition_to
            (record cleared {
              next_backoff = l.initial_backoff;
              restart_at = none;
              pending_stop_cause = none;
              pending_signal = none;
              signal_at = none;
              handshake_deadline = some (after now l.handshake);
            })
            starting requested now in
        (l', value transition))

unfoldable pub ready : ModuleLifecycle → ℕ → Outcome StateTransition
unfolding transition_to
ready l now =
    if not (state_eq l.state starting)
    then (l, unexpected (record { state = l.state; operation = "ready" }))
    else (let (l', transition) =
          transition_to (record l { handshake_deadline = none; running_since = some now }) running
            requested now in
        (l', value transition))

unfoldable pub tick : ModuleLifecycle → ℕ → ModuleLifecycle × List StateTransition
unfolding transition_to begin_stopping reset_backoff_if_healthy
tick l now =
    if state_eq l.state starting && due l.handshake_deadline now
    then (let (l', transition) =
          transition_to (record l { handshake_deadline = none }) stopping handshake_timeout now in
        (begin_stopping l' handshake_timeout now, transition ∷ []))
    else if state_eq l.state backoff && due l.restart_at now
    then (let (l', transition) =
          transition_to
            (record l { restart_at = none; handshake_deadline = some (after now l.handshake) })
            starting requested now in
        (l', transition ∷ []))
    else if state_eq l.state running
    then (reset_backoff_if_healthy l now, [])
    else (l, [])

unfoldable pub stop : ModuleLifecycle → ℕ → Outcome StateTransition
unfolding transition_to begin_stopping
stop l now =
    if state_eq l.state starting || state_eq l.state running
    then (let (l', transition) = transition_to l stopping requested now in
        (begin_stopping l' requested (after now l.graceful_shutdown), value transition))
    else if state_eq l.state backoff || state_eq l.state failed
    then (let (l', transition) =
          transition_to
            (record l { restart_at = none; failures = []; next_backoff = l.initial_backoff })
            stopped requested now in
        (l', value transition))
    else (l, unexpected (record { state = l.state; operation = "stop" }))

unfoldable pub fail : ModuleLifecycle → StopCause → ℕ → Outcome StateTransition
unfolding transition_to begin_stopping is_failure
fail l cause now =
    if not (state_eq l.state starting || state_eq l.state running) || not (is_failure cause)
    then (l, unexpected (record { state = l.state; operation = "fail" }))
    else (let (l', transition) = transition_to l stopping cause now in
        (begin_stopping l' cause now, value transition))

unfoldable pub reset_for_explicit_restart : ModuleLifecycle → ModuleLifecycle
reset_for_explicit_restart l = record l { failures = []; next_backoff = l.initial_backoff }

unfoldable pub due_signal : ModuleLifecycle → ℕ → Option ShutdownSignal
due_signal l now =
    if not (state_eq l.state stopping) || not (due l.signal_at now) then none else l.pending_signal

abbrev pub is_pending : Option ShutdownSignal → ShutdownSignal → Bool
is_pending none sent = false
is_pending (some pending) sent = signal_eq pending sent

unfoldable pub signal_sent : ModuleLifecycle → ShutdownSignal → ℕ → Outcome (Unit {0})
signal_sent l sent now =
    if not (state_eq l.state stopping)
      || not (is_pending l.pending_signal sent)
      || not (due l.signal_at now)
    then (l, unexpected (record { state = l.state; operation = "signal_sent" }))
    else if signal_eq sent terminate
    then (
      record l { pending_signal = some kill; signal_at = some (after now l.terminate_grace) },
      value tt,
    )
    else (record l { pending_signal = none; signal_at = none }, value tt)

-- The calls that a client makes, at the times it makes them.
pub data Call : Type 0 where
  starts readies ticks stops resets : Call
  exits fails : StopCause → Call
  signals : ShutdownSignal → Call

abbrev pub reported : Expected StateTransition LifecycleError → List StateTransition
reported (value transition) = transition ∷ []
reported (unexpected error) = []

-- One call, with the transitions that it reports.
unfoldable pub step : ModuleLifecycle → Call → ℕ → ModuleLifecycle × List StateTransition
step l starts now = let (l', outcome) = start l now in (l', reported outcome)
step l readies now = let (l', outcome) = ready l now in (l', reported outcome)
step l ticks now = tick l now
step l stops now = let (l', outcome) = stop l now in (l', reported outcome)
step l resets now = (reset_for_explicit_restart l, [])
step l (exits cause) now = exited l cause now
step l (fails cause) now = let (l', outcome) = fail l cause now in (l', reported outcome)
step l (signals sent) now = ((signal_sent l sent now).0, [])

unfoldable pub run : ModuleLifecycle → List (ℕ × Call) → ModuleLifecycle
run l [] = l
run l ((now, call) ∷ calls) = run (step l call now).0 calls
