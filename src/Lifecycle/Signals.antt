-- ===== src/Lifecycle/Signals.antt =====
-- The shutdown of a process: a request, SIGTERM when its grace is over, SIGKILL after that.
use gisland.Prelude.{value, ℕ, ◌≤◌, ◌<◌, ◌≡◌, ◌↔◌, ◌⊎◌, none, some, arith}
use gisland.Lifecycle.Types.{starting, running, ShutdownSignal, terminate, kill, StateTransition}
use gisland.Lifecycle.State.{ModuleLifecycle, after}
use gisland.Lifecycle.{stop, due_signal, signal_sent}

-- A signal may be reported as sent exactly when it is the one that is due.
pub signal_sent-due_signal :
    (l : ModuleLifecycle) (sent : ShutdownSignal) (now : ℕ)
    → ((signal_sent l sent now).1 ≡ value tt) ↔ (due_signal l now ≡ some sent)
unfolding signal_sent due_signal
signal_sent-due_signal l sent now = (there, back)
  where
    there : (signal_sent l sent now).1 ≡ value tt → due_signal l now ≡ some sent
    there h = ground arith

    back : due_signal l now ≡ some sent → (signal_sent l sent now).1 ≡ value tt
    back h = ground arith

-- A granted `stop` of a live process sends SIGTERM after the graceful period and no earlier; when
-- that is sent, SIGKILL after the terminate grace and no earlier; after that nothing more.
pub stop_escalates :
    (l : ModuleLifecycle) (now sent killed later : ℕ) {transition : StateTransition}
    → (l.state ≡ starting) ⊎ (l.state ≡ running)
    → (stop l now).1 ≡ value transition
    → after now l.graceful_shutdown ≤ sent
    → after sent l.terminate_grace ≤ killed
    → let stopped_at = (stop l now).0 in
      let terminated = (signal_sent stopped_at terminate sent).0 in
      let dead = (signal_sent terminated kill killed).0 in
      ((t : ℕ) → t < after now l.graceful_shutdown → due_signal stopped_at t ≡ none)
      × (due_signal stopped_at sent ≡ some terminate)
      × ((t : ℕ) → t < after sent l.terminate_grace → due_signal terminated t ≡ none)
      × (due_signal terminated killed ≡ some kill)
      × (due_signal dead later ≡ none)
unfolding stop signal_sent due_signal
stop_escalates l now sent killed later p e h k =
    (λ t lt. ground arith, ground arith, λ t lt. ground arith, ground arith, ground arith)
