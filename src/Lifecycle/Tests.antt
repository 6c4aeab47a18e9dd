-- ===== src/Lifecycle/Tests.antt =====
-- Runs of a lifecycle on concrete calls, and the theorems at concrete inputs.
use gisland.Prelude.{◌≤◌, ◌≡◌, refl, ◌≢◌, ◌↔◌, inl, none, some, [], ◌∷◌, arith}
use gisland.Lifecycle.Types.{
  stopped, starting, backoff, failed, clean_exit, failed_exit, signal, io_error, terminate, kill,
  on_failure, ModuleTimings,
}
use gisland.Lifecycle.State.{
  ModuleLifecycle, failure_limit, make, next_deadline, is_failure, clear_process_state,
  reset_backoff_if_healthy,
}
use gisland.Lifecycle.Exit.{effective_cause, finish_exit, exited}
use gisland.Lifecycle.{
  starts, ticks, exits, signals, start, tick, stop, due_signal, signal_sent, step, run,
}
use gisland.Lifecycle.Invariant.{IsValid, step-IsValid, run-make-IsValid}
use gisland.Lifecycle.Diagram.{starting_process, Reports, step-Reports}
use gisland.Lifecycle.Failures.{exited-failed}
use gisland.Lifecycle.CrashLoop.{Crashes, none_yet, once_more, Crashes-maximum}
use gisland.Lifecycle.Signals.{stop_escalates}
use gisland.Lifecycle.Deadlines.{
  quiet-Before-next_deadline, next_deadline_fires, stop_keeps_handshake_deadline,
}

abbrev timings : ModuleTimings
timings = record {
  handshake = 2000;
  graceful_shutdown = 1000;
  terminate_grace = 500;
  initial_backoff = 250;
  maximum_backoff = 1000;
  healthy_reset = 60000;
}

abbrev fresh : ModuleLifecycle
fresh = record {
  policy = on_failure;
  timings = timings;
  state = stopped;
  next_backoff = 250;
  handshake_deadline = none;
  restart_at = none;
  running_since = none;
  pending_stop_cause = none;
  pending_signal = none;
  signal_at = none;
  failures = [];
}

fresh-make : make on_failure timings ≡ fresh
unfolding make
fresh-make = refl

abbrev launched : ModuleLifecycle
launched = record fresh { state = starting; handshake_deadline = some 2_000_000_000 }

launched-start : (start fresh 0).0 ≡ launched
unfolding start
launched-start = refl

launched-IsValid : IsValid launched
launched-IsValid = ground arith

waiting : ModuleLifecycle
waiting = record fresh {
  state = backoff;
  restart_at = some 250_000_001;
  next_backoff = 500;
  failures = 1 ∷ [];
}

waiting-exited : (exited launched clean_exit 1).0 ≡ waiting
unfolding exited effective_cause clear_process_state reset_backoff_if_healthy finish_exit waiting
waiting-exited = refl

-- The handshake times out; the process is terminated and killed.
killed :
    (run fresh (
      (0, starts)
      ∷ (2_000_000_000, ticks)
      ∷ (2_000_000_000, signals terminate)
      ∷ [])).pending_signal
    ≡ some kill
unfolding run step start tick signal_sent
killed = refl

run-make-IsValid_example :
    IsValid (run (make on_failure timings) ((0, starts) ∷ (1, exits failed_exit) ∷ []))
run-make-IsValid_example =
    run-make-IsValid on_failure timings ((0, starts) ∷ (1, exits failed_exit) ∷ []) (omega arith)

step-IsValid_example : IsValid (step launched (exits failed_exit) 1).0
step-IsValid_example = step-IsValid launched (exits failed_exit) 1 launched-IsValid

step-Reports_example : Reports starting 1 (step launched (exits signal) 1)
step-Reports_example = step-Reports launched (exits signal) 1

stop_escalates_example : due_signal (stop launched 0).0 1_000_000_000 ≡ some terminate
unfolding stop
stop_escalates_example =
    (stop_escalates launched 0 1_000_000_000 1_500_000_000 2_000_000_000 (inl refl) refl
      (omega arith) (omega arith)).1

quiet-Before-next_deadline_example :
    ((tick launched 1_999).1 ≡ []) × (due_signal launched 1_999 ≡ none)
unfolding next_deadline
quiet-Before-next_deadline_example = quiet-Before-next_deadline launched 1_999 (omega arith)

next_deadline_fires_example : (tick launched 2_000_000_000).1 ≢ []
unfolding next_deadline
next_deadline_fires_example =
    next_deadline_fires launched 2_000_000_000 2_000_000_000 launched-IsValid (λ e. cc) refl
      (omega arith)

abbrev about_to_expire : ModuleLifecycle
about_to_expire = record fresh { state = starting; handshake_deadline = some 10 }

stop_keeps_handshake_deadline_example :
    (next_deadline (stop about_to_expire 5).0 ≡ some 10)
    × ((tick (stop about_to_expire 5).0 20).1 ≡ [])
    × (due_signal (stop about_to_expire 5).0 20 ≡ none)
stop_keeps_handshake_deadline_example =
    stop_keeps_handshake_deadline about_to_expire 5 10 20 (ground arith) refl refl (omega arith)
      (omega arith)

exited-failed_example : ((exited launched failed_exit 9).0.state ≡ failed) ↔ (failure_limit ≤ 1)
unfolding is_failure effective_cause
exited-failed_example = exited-failed launched failed_exit 9 0 0 starting_process (omega arith) refl

abbrev retried : ModuleLifecycle
retried = record fresh {
  timings = record timings { maximum_backoff = 500 };
  state = backoff;
  restart_at = some 10;
}

abbrev crashed_again : ModuleLifecycle
crashed_again = (exited (tick retried 10).0 io_error 20).0

one_crash : Crashes retried 1 crashed_again
unfolding tick exited effective_cause clear_process_state reset_backoff_if_healthy finish_exit
    is_failure
one_crash = once_more io_error 10 20 none_yet refl refl refl

retried-IsValid : IsValid retried
retried-IsValid = ground arith

-- The next failure is at 250_000_030 ns, 10 ns after the restart.
Crashes-maximum_example :
    let again = (exited (tick crashed_again 250_000_020).0 io_error 250_000_030).0 in
    (again.restart_at ≡ some 750_000_030) × (again.next_backoff ≡ 500)
unfolding tick exited effective_cause clear_process_state reset_backoff_if_healthy finish_exit
    is_failure
Crashes-maximum_example =
    Crashes-maximum io_error 250_000_020 250_000_030 retried-IsValid refl one_crash (omega arith)
      refl refl refl
