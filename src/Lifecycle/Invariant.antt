-- ===== src/Lifecycle/Invariant.antt =====
-- What holds of a lifecycle between two calls: which timers and causes each state carries, the
-- range of the backoff and the number of recorded failures.
use gisland.Prelude.{
  Bool-cases, is_some, length, ℕ, ◌≤◌, ◌<◌, ◌≡◌, ◌⊎◌, inl, inr, true, false, none, List, [], ◌∷◌,
  arith,
}
use gisland.Lifecycle.Types.{
  starting, running, backoff, stopping, failed, StopCause, ShutdownSignal, RestartPolicy,
  ModuleTimings, state_eq,
}
use gisland.Lifecycle.State.{
  ModuleLifecycle, failure_limit, make, should_restart, clear_process_state,
  reset_backoff_if_healthy,
}
use gisland.Lifecycle.Exit.{effective_cause, settle, finish_exit, exited}
use gisland.Lifecycle.{
  Call, starts, readies, ticks, stops, resets, exits, fails, signals, start, ready, tick, stop,
  fail, reset_for_explicit_restart, signal_sent, step, run,
}

pub record IsValid (l : ModuleLifecycle) : Type 0 where
  pub ordered : l.initial_backoff ≤ l.maximum_backoff
  pub handshaking : l.state ≡ starting → is_some l.handshake_deadline ≡ true
  pub handshake_scope :
      is_some l.handshake_deadline ≡ true → (l.state ≡ starting) ⊎ (l.state ≡ stopping)
  pub restarting : is_some l.restart_at ≡ state_eq l.state backoff
  pub causing : is_some l.pending_stop_cause ≡ state_eq l.state stopping
  pub signalling : is_some l.pending_signal ≡ is_some l.signal_at
  pub signal_scope : is_some l.pending_signal ≡ true → l.state ≡ stopping
  pub running_known : l.state ≡ running → is_some l.running_since ≡ true
  pub backoff_low : l.initial_backoff ≤ l.next_backoff
  pub backoff_high : l.next_backoff ≤ l.maximum_backoff
  pub failures_limited : (l.state ≡ failed) ⊎ (length l.failures < failure_limit)

pub make-IsValid :
    (policy : RestartPolicy) (timings : ModuleTimings)
    → timings.initial_backoff ≤ timings.maximum_backoff
    → IsValid (make policy timings)
unfolding make
make-IsValid policy timings h = ground arith

start-IsValid : (l : ModuleLifecycle) (now : ℕ) → IsValid l → IsValid (start l now).0
unfolding start
start-IsValid l now v = ground arith

ready-IsValid : (l : ModuleLifecycle) (now : ℕ) → IsValid l → IsValid (ready l now).0
unfolding ready
ready-IsValid l now v = ground arith

tick-IsValid : (l : ModuleLifecycle) (now : ℕ) → IsValid l → IsValid (tick l now).0
unfolding tick
tick-IsValid l now v = ground arith

stop-IsValid : (l : ModuleLifecycle) (now : ℕ) → IsValid l → IsValid (stop l now).0
unfolding stop
stop-IsValid l now v = ground arith

fail-IsValid :
    (l : ModuleLifecycle) (cause : StopCause) (now : ℕ) → IsValid l → IsValid (fail l cause now).0
unfolding fail
fail-IsValid l cause now v = ground arith

signal_sent-IsValid :
    (l : ModuleLifecycle) (sent : ShutdownSignal) (now : ℕ)
    → IsValid l
    → IsValid (signal_sent l sent now).0
unfolding signal_sent
signal_sent-IsValid l sent now v = ground arith

reset-IsValid : (l : ModuleLifecycle) → IsValid l → IsValid (reset_for_explicit_restart l)
unfolding reset_for_explicit_restart
reset-IsValid l v = ground arith

-- A process is gone and nothing of it is pending, whatever the state is still called.
record IsCleared (l : ModuleLifecycle) : Type 0 where
  ordered : l.initial_backoff ≤ l.maximum_backoff
  no_handshake : l.handshake_deadline ≡ none
  no_restart : l.restart_at ≡ none
  no_cause : l.pending_stop_cause ≡ none
  no_signal : l.pending_signal ≡ none
  no_signal_at : l.signal_at ≡ none
  backoff_low : l.initial_backoff ≤ l.next_backoff
  backoff_high : l.next_backoff ≤ l.maximum_backoff

settle-IsValid :
    (l : ModuleLifecycle) (cause : StopCause) (now : ℕ)
    → IsCleared l
    → length l.failures < failure_limit
    → IsValid (settle l cause now).0
unfolding settle
settle-IsValid l cause now v h = elim (Bool-cases (should_restart l.policy cause)) [
  | inl again ↦ rw again (ground arith)
  | inr never_again ↦ rw never_again (ground arith)
]

finish_exit-IsValid :
    (l : ModuleLifecycle) (cause : StopCause) (now : ℕ)
    → IsCleared l
    → length l.failures < failure_limit
    → IsValid (finish_exit l cause now).0
unfolding finish_exit
finish_exit-IsValid l cause now v h = ground (arith, settle-IsValid l cause now v)

clear-IsCleared :
    (l : ModuleLifecycle) (now : ℕ)
    → IsValid l
    → state_eq l.state backoff ≡ false
    → IsCleared (clear_process_state (reset_backoff_if_healthy l now))
unfolding clear_process_state reset_backoff_if_healthy
clear-IsCleared l now v h = ground arith

clear-failures :
    (l : ModuleLifecycle) (now : ℕ)
    → (clear_process_state (reset_backoff_if_healthy l now)).failures ≡ l.failures
unfolding clear_process_state reset_backoff_if_healthy
clear-failures l now = ground arith

exited-IsValid :
    (l : ModuleLifecycle) (cause : StopCause) (now : ℕ) → IsValid l → IsValid (exited l cause now).0
unfolding exited
exited-IsValid l cause now v = ground (
  arith,
  clear-IsCleared l now v,
  clear-failures l now,
  finish_exit-IsValid (clear_process_state (reset_backoff_if_healthy l now))
      (effective_cause (reset_backoff_if_healthy l now) cause) now,
)

-- Every call, with any argument and in any state, keeps the lifecycle valid.
pub step-IsValid :
    (l : ModuleLifecycle) (call : Call) (now : ℕ) → IsValid l → IsValid (step l call now).0
unfolding step
step-IsValid l starts now v = start-IsValid l now v
step-IsValid l readies now v = ready-IsValid l now v
step-IsValid l ticks now v = tick-IsValid l now v
step-IsValid l stops now v = stop-IsValid l now v
step-IsValid l resets now v = reset-IsValid l v
step-IsValid l (exits cause) now v = exited-IsValid l cause now v
step-IsValid l (fails cause) now v = fail-IsValid l cause now v
step-IsValid l (signals sent) now v = signal_sent-IsValid l sent now v

run-IsValid : (l : ModuleLifecycle) (calls : List (ℕ × Call)) → IsValid l → IsValid (run l calls)
unfolding run
run-IsValid l [] v = v
run-IsValid l ((now, call) ∷ calls) v =
    run-IsValid (step l call now).0 calls (step-IsValid l call now v)

-- A lifecycle that any calls at any times bring forth is valid, if the initial backoff was within
-- the maximum.
pub run-make-IsValid :
    (policy : RestartPolicy) (timings : ModuleTimings) (calls : List (ℕ × Call))
    → timings.initial_backoff ≤ timings.maximum_backoff
    → IsValid (run (make policy timings) calls)
run-make-IsValid policy timings calls h = run-IsValid _ calls (make-IsValid policy timings h)
