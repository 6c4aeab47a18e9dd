-- ===== src/Lifecycle/Deadlines.antt =====
-- `next_deadline`, by which the supervisor bounds its wait: nothing falls due before it.
use gisland.Prelude.{ℕ, ◌≤◌, ◌<◌, ◌≡◌, ◌≢◌, Option, none, some, [], arith}
use gisland.Lifecycle.Types.{starting, stopping}
use gisland.Lifecycle.State.{ModuleLifecycle, after, next_deadline}
use gisland.Lifecycle.{tick, stop, due_signal}
use gisland.Lifecycle.Invariant.{IsValid}

-- `now` is before the deadline, if there is one.
abbrev pub Before : ℕ → Option ℕ → Type 0
Before now none = Unit {0}
Before now (some deadline) = now < deadline

-- Before its next deadline a valid lifecycle has no transition to make and no signal to send.
pub quiet-Before-next_deadline :
    (l : ModuleLifecycle) (now : ℕ)
    → Before now (next_deadline l)
    → ((tick l now).1 ≡ []) × (due_signal l now ≡ none)
unfolding next_deadline tick due_signal
quiet-Before-next_deadline l now h = (ground arith, ground arith)

-- When the next deadline of a valid lifecycle has come and it is not stopping, `tick` makes a
-- transition.
pub next_deadline_fires :
    (l : ModuleLifecycle) (now deadline : ℕ)
    → IsValid l
    → l.state ≢ stopping
    → next_deadline l ≡ some deadline
    → deadline ≤ now
    → (tick l now).1 ≢ []
unfolding next_deadline tick
next_deadline_fires l now deadline v p e h = ground arith

-- A process that is stopped during its handshake keeps the handshake deadline: once that has
-- passed, the next deadline is over although neither `tick` nor `due_signal` has anything to do
-- until the graceful period ends.
pub stop_keeps_handshake_deadline :
    (l : ModuleLifecycle) (now handshake later : ℕ)
    → IsValid l
    → l.state ≡ starting
    → l.handshake_deadline ≡ some handshake
    → handshake ≤ later
    → later < after now l.graceful_shutdown
    → let halted = (stop l now).0 in
      (next_deadline halted ≡ some handshake)
      × ((tick halted later).1 ≡ [])
      × (due_signal halted later ≡ none)
unfolding next_deadline tick due_signal stop
stop_keeps_handshake_deadline l now handshake later v s e h k =
    (ground arith, ground arith, ground arith)
