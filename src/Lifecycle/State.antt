-- ===== src/Lifecycle/State.antt =====
-- The fields and the private methods of `ModuleLifecycle`.
use gisland.Prelude.{
  ltb, leb, if◌then◌else◌, length, Expected, ℕ, ◌+◌, ◌*◌, Bool, true, false, ◌&&◌, Option, none,
  some, List, [], ◌∷◌, ◌++◌,
}
use gisland.Lifecycle.Types.{
  ModuleState, stopped, running, StopCause, requested, clean_exit, ShutdownSignal, terminate,
  RestartPolicy, always, on_failure, never, ModuleTimings, StateTransition, LifecycleError,
  state_eq,
}

-- A time that lies a duration after another, and the constants of the source.
abbrev pub after : ℕ → ℕ → ℕ
after time duration = time + duration * 1_000_000

abbrev pub failure_window : ℕ
failure_window = 300_000

abbrev pub failure_limit : ℕ
failure_limit = 10

pub record ModuleLifecycle : Type 0 where
  pub policy : RestartPolicy
  pub timings : ModuleTimings
  pub open timings use *
  pub state : ModuleState
  pub next_backoff : ℕ
  pub handshake_deadline : Option ℕ
  pub restart_at : Option ℕ
  pub running_since : Option ℕ
  pub pending_stop_cause : Option StopCause
  pub pending_signal : Option ShutdownSignal
  pub signal_at : Option ℕ
  pub failures : List ℕ

-- The constructor.
unfoldable pub make : RestartPolicy → ModuleTimings → ModuleLifecycle
make policy timings = record {
  policy = policy;
  timings = timings;
  state = stopped;
  next_backoff = timings.initial_backoff;
  handshake_deadline = none;
  restart_at = none;
  running_since = none;
  pending_stop_cause = none;
  pending_signal = none;
  signal_at = none;
  failures = [];
}

-- `due deadline now` is `deadline.has_value() && now >= *deadline`.
abbrev pub due : Option ℕ → ℕ → Bool
due none now = false
due (some deadline) now = leb deadline now

-- The earlier of two deadlines; the loop of `next_deadline` keeps the first of equal ones.
abbrev pub earlier : Option ℕ → Option ℕ → Option ℕ
earlier deadline none = deadline
earlier none (some candidate) = some candidate
earlier (some deadline) (some candidate) =
    if ltb candidate deadline then some candidate else some deadline

unfoldable pub next_deadline : ModuleLifecycle → Option ℕ
next_deadline l = earlier (earlier (earlier none l.handshake_deadline) l.restart_at) l.signal_at

unfoldable pub is_failure : StopCause → Bool
is_failure requested = false
is_failure clean_exit = false
is_failure _ = true

unfoldable pub should_restart : RestartPolicy → StopCause → Bool
unfolding is_failure
should_restart _ requested = false
should_restart always _ = true
should_restart on_failure cause = is_failure cause
should_restart never _ = false

unfoldable pub transition_to :
    ModuleLifecycle → ModuleState → StopCause → ℕ → ModuleLifecycle × StateTransition
transition_to l next cause now =
    (record l { state = next }, record { from = l.state; to = next; cause = cause; at = now })

unfoldable pub begin_stopping : ModuleLifecycle → StopCause → ℕ → ModuleLifecycle
begin_stopping l cause signal_at = record l {
  pending_stop_cause = some cause;
  pending_signal = some terminate;
  signal_at = some signal_at;
}

unfoldable pub clear_process_state : ModuleLifecycle → ModuleLifecycle
clear_process_state l = record l {
  handshake_deadline = none;
  running_since = none;
  pending_stop_cause = none;
  pending_signal = none;
  signal_at = none;
}

-- `now - *running_since_ >= timings_.healthy_reset`.
abbrev pub healthy : Option ℕ → ℕ → ℕ → Bool
healthy none reset now = false
healthy (some since) reset now = leb (after since reset) now

unfoldable pub reset_backoff_if_healthy : ModuleLifecycle → ℕ → ModuleLifecycle
reset_backoff_if_healthy l now =
    if state_eq l.state running && healthy l.running_since l.healthy_reset now
    then record l { next_backoff = l.initial_backoff }
    else l

-- The loop drops the failures at the front that are older than the window.
unfoldable pub drop_old : ℕ → List ℕ → List ℕ
drop_old now [] = []
drop_old now (first ∷ rest) =
    if ltb (after first failure_window) now then drop_old now rest else first ∷ rest

unfoldable pub record_failure : ModuleLifecycle → ℕ → ModuleLifecycle × Bool
unfolding drop_old
record_failure l now =
    let failures = drop_old now l.failures ++ now ∷ [] in
    (record l { failures = failures }, leb failure_limit (length failures))

abbrev pub Outcome : Type 0 → Type 0
Outcome A = ModuleLifecycle × Expected A LifecycleError
