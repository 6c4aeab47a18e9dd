-- ===== src/Supervisor/Orderly/Stops.antt =====
-- What the stop of an instance and the small changes around it do to it.
use gisland.Prelude.{Expected, value, unexpected, ℕ, ◌≡◌, ◌⊎◌, Bool, true, false, Option, arith}
use gisland.Lifecycle.Types.{ModuleState, stopped, stopping, unresponsive, StateTransition}
use gisland.Lifecycle.State.{ModuleLifecycle, Outcome}
use gisland.Runtime.Types.{ViewLanguage, ActionDeliveryError, SupervisorEvent}
use gisland.Supervisor.Types.{Instance}
use gisland.Supervisor.Work.{Work, is_live, state_of, with_lifecycle, emit_context_removal}
use gisland.Supervisor.Fleet.{is_active}
use gisland.Supervisor.Commands.{
  stopped_with, wanting_restart, forget_restart, reset_for_restart, halted_with, halt,
  delivered_with,
}
use gisland.Supervisor.Evolution.{
  Evolves, Evolves-trans, emit_transition-Evolves, begin_failure-Evolves,
}
use gisland.Supervisor.Polling.{with_writes-Evolves}
use gisland.Supervisor.Orderly.Starts.{same_state-Evolves}
use gisland.WriteQueue.{WriteQueueError, WriteQueue}
use gisland.Lifecycle

abbrev pub Stops : ModuleState → Outcome StateTransition → Type 0
Stops before (l, value transition) =
    ((is_live before ≡ true) × (l.state ≡ stopping))
    ⊎ ((is_live before ≡ false) × (l.state ≡ stopped))
Stops before (l, unexpected error) = l.state ≡ before

pub stop-Stops : (l : ModuleLifecycle) (now : ℕ) → Stops l.state (gisland.Lifecycle.stop l now)
unfolding gisland.Lifecycle.stop
stop-Stops l now = ground arith

module _ {V : ViewLanguage} where
  -- Whether an instance may stop: its contexts are gone, or it shows none.
  abbrev pub MayStop : Instance V → Type 0
  MayStop i = (i.contexts_removed ≡ true) ⊎ (is_live (state_of i) ≡ false)

  park-Evolves :
      (w : Work V) (l : ModuleLifecycle)
      → MayStop w.inst
      → ((is_live (state_of w.inst) ≡ true) × (l.state ≡ stopping))
        ⊎ ((is_live (state_of w.inst) ≡ false) × (l.state ≡ stopped))
      → Evolves w.inst (with_lifecycle w l).inst
  unfolding is_active
  park-Evolves w l h e = ground arith

  pub emit_context_removal-MayStop : (w : Work V) → MayStop (emit_context_removal w).inst
  unfolding emit_context_removal
  emit_context_removal-MayStop w = ground arith

  halted_with-Evolves :
      (w : Work V) (answer : Outcome StateTransition)
      → MayStop w.inst
      → Stops (state_of w.inst) answer
      → Evolves w.inst (halted_with w answer).inst
  unfolding halted_with
  halted_with-Evolves w (l, unexpected error) h e = same_state-Evolves w l e
  halted_with-Evolves w (l, value transition) h e =
      Evolves-trans (park-Evolves w l h e) (emit_transition-Evolves (with_lifecycle w l) transition)

  pub halt-Evolves : (w : Work V) (now : ℕ) → MayStop w.inst → Evolves w.inst (halt w now).inst
  unfolding halt
  halt-Evolves w now h =
      halted_with-Evolves w (gisland.Lifecycle.stop w.inst.lifecycle now) h
        (stop-Stops w.inst.lifecycle now)

  pub stopped_with-Evolves :
      (w : Work V) (answer : Outcome StateTransition) (now : ℕ)
      → MayStop w.inst
      → Stops (state_of w.inst) answer
      → Evolves w.inst (stopped_with w answer now).0.inst
  unfolding stopped_with
  stopped_with-Evolves w (l, unexpected error) now h e = same_state-Evolves w l e
  stopped_with-Evolves w (l, value transition) now h e =
      Evolves-trans (park-Evolves w l h e) (emit_transition-Evolves (with_lifecycle w l) transition)

  pub wanting_restart-Evolves :
      (w : Work V) (restart : Bool) → Evolves w.inst (wanting_restart w restart).inst
  unfolding is_active
  wanting_restart-Evolves w restart = ground arith

  pub forget_restart-Evolves : (w : Work V) → Evolves w.inst (forget_restart w).inst
  unfolding is_active
  forget_restart-Evolves w = ground arith

  pub reset_for_restart-Evolves :
      (w : Work V) (generation : ℕ) → Evolves w.inst (reset_for_restart w generation).inst
  unfolding is_active gisland.Lifecycle.reset_for_explicit_restart
  reset_for_restart-Evolves w generation = ground arith

  pub delivered_with-Evolves :
      (w : Work V) (report : Option ActionDeliveryError → SupervisorEvent V)
      (answer : WriteQueue × Expected (Unit {0}) WriteQueueError) (now : ℕ)
      → Evolves w.inst (delivered_with w report answer now).inst
  unfolding delivered_with
  delivered_with-Evolves w report (writes, value _) now = with_writes-Evolves w writes
  delivered_with-Evolves w report (writes, unexpected error) now =
      Evolves-trans (with_writes-Evolves w writes) (begin_failure-Evolves _ unresponsive now)
