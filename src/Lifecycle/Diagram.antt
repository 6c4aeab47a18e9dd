-- ===== src/Lifecycle/Diagram.antt =====
-- The state diagram of a module process, and the transitions that each call reports.
use gisland.Prelude.{
  Bool-cases, ℕ, ◌≡◌, refl, sym, subst, inl, inr, false, not, ◌&&◌, List, [], ◌∷◌, arith,
}
use gisland.Lifecycle.Types.{
  ModuleState, stopped, starting, running, backoff, stopping, failed, StopCause, StateTransition,
  state_eq,
}
use gisland.Lifecycle.State.{ModuleLifecycle, clear_process_state, reset_backoff_if_healthy}
use gisland.Lifecycle.Exit.{effective_cause, finish_exit, exited}
use gisland.Lifecycle.{
  Call, starts, readies, ticks, stops, resets, exits, fails, signals, start, ready, tick, stop,
  fail, reset_for_explicit_restart, signal_sent, reported, step,
}

-- The states in which a process exists.
pub data HasProcess : ModuleState → Type 0 where
  starting_process : HasProcess starting
  running_process : HasProcess running
  stopping_process : HasProcess stopping

infix 40 ◌⟶◌
pub data ◌⟶◌ : ModuleState → ModuleState → Type 0 where
  begin : stopped ⟶ starting
  revive : failed ⟶ starting
  shake_hands : starting ⟶ running
  abandon : starting ⟶ stopping
  halt : running ⟶ stopping
  retry : backoff ⟶ starting
  cancel : backoff ⟶ stopped
  forget : failed ⟶ stopped
  end : {s : ModuleState} → HasProcess s → s ⟶ stopped
  back_off : {s : ModuleState} → HasProcess s → s ⟶ backoff
  give_up : {s : ModuleState} → HasProcess s → s ⟶ failed

ruleset edges = (
  begin, revive, shake_hands, abandon, halt, retry, cancel, forget, end, back_off, give_up,
  starting_process, running_process, stopping_process,
)

-- What the answer of a call says about the state before and after it.
abbrev pub Reports : ModuleState → ℕ → ModuleLifecycle × List StateTransition → Type 0
Reports before now (l, []) = l.state ≡ before
Reports before now (l, transition ∷ []) =
    (transition.from ≡ before)
    × (transition.to ≡ l.state)
    × (transition.at ≡ now)
    × (before ⟶ l.state)
Reports before now (l, _ ∷ _ ∷ _) = ⊥

start-Reports :
    (l : ModuleLifecycle) (now : ℕ)
    → Reports l.state now ((start l now).0, reported (start l now).1)
unfolding start
start-Reports l now = grind (arith, edges)

ready-Reports :
    (l : ModuleLifecycle) (now : ℕ)
    → Reports l.state now ((ready l now).0, reported (ready l now).1)
unfolding ready
ready-Reports l now = grind (arith, edges)

tick-Reports : (l : ModuleLifecycle) (now : ℕ) → Reports l.state now (tick l now)
unfolding tick
tick-Reports l now = grind (arith, edges)

stop-Reports :
    (l : ModuleLifecycle) (now : ℕ) → Reports l.state now ((stop l now).0, reported (stop l now).1)
unfolding stop
stop-Reports l now = grind (arith, edges)

fail-Reports :
    (l : ModuleLifecycle) (cause : StopCause) (now : ℕ)
    → Reports l.state now ((fail l cause now).0, reported (fail l cause now).1)
unfolding fail
fail-Reports l cause now = grind (arith, edges)

finish_exit-Reports :
    (l : ModuleLifecycle) (cause : StopCause) (now : ℕ)
    → HasProcess l.state
    → Reports l.state now (finish_exit l cause now)
unfolding finish_exit
finish_exit-Reports l cause now p = grind (arith, end, back_off, give_up)

process_of :
    (s : ModuleState)
    → not (state_eq s starting) && not (state_eq s running) && not (state_eq s stopping) ≡ false
    → HasProcess s
process_of starting h = starting_process
process_of running h = running_process
process_of stopping h = stopping_process
process_of stopped h = absurd (ground arith)
process_of backoff h = absurd (ground arith)
process_of failed h = absurd (ground arith)

cleared-state :
    (l : ModuleLifecycle) (now : ℕ)
    → (clear_process_state (reset_backoff_if_healthy l now)).state ≡ l.state
unfolding clear_process_state reset_backoff_if_healthy
cleared-state l now = ground arith

exited-Reports :
    (l : ModuleLifecycle) (cause : StopCause) (now : ℕ) → Reports l.state now (exited l cause now)
unfolding exited
exited-Reports l cause now =
    elim (Bool-cases (
      not (state_eq l.state starting)
      && not (state_eq l.state running)
      && not (state_eq l.state stopping))) [
        | inl gone ↦ rw gone refl
        | inr present ↦ rw present (
            subst (λ s. Reports s now (finish_exit cleared counted now)) (cleared-state l now)
              (finish_exit-Reports cleared counted now
                (subst HasProcess (sym (cleared-state l now)) (process_of l.state present))))
      ]
  where
    cleared : ModuleLifecycle
    cleared = clear_process_state (reset_backoff_if_healthy l now)

    counted : StopCause
    counted = effective_cause (reset_backoff_if_healthy l now) cause

-- A call reports no transition and leaves the state as it was, or reports the one transition
-- that it made, at its time, along an edge of the diagram.
pub step-Reports :
    (l : ModuleLifecycle) (call : Call) (now : ℕ) → Reports l.state now (step l call now)
unfolding step
step-Reports l starts now = start-Reports l now
step-Reports l readies now = ready-Reports l now
step-Reports l ticks now = tick-Reports l now
step-Reports l stops now = stop-Reports l now
step-Reports l resets now = unfold reset_for_explicit_restart in refl
step-Reports l (exits cause) now = exited-Reports l cause now
step-Reports l (fails cause) now = fail-Reports l cause now
step-Reports l (signals sent) now = unfold signal_sent in ground arith
