-- ===== src/Supervisor/Ticking.antt =====
-- What one turn of the loop does to an instance: its timers, and then its pipes.
use gisland.Prelude.{
  if◌then◌else◌, is_some, ℕ, ◌≡◌, sym, ◌∙◌, subst, ◌⊎◌, inl, inr, Bool, true, false, not, ◌&&◌,
  List, [], ◌∷◌, arith,
}
use gisland.Lifecycle.Types.{ModuleState, starting, backoff, stopping, StateTransition, state_eq}
use gisland.Lifecycle.State.{ModuleLifecycle}
use gisland.Runtime.Types.{ViewLanguage}
use gisland.Supervisor.Types.{ModuleProtocol, Instance, ProcessBackend}
use gisland.Supervisor.Work.{
  Work, state_of, with_lifecycle, emit_context_removal, complete_restart, emit_transition,
}
use gisland.Supervisor.Outbound.{spawn_instance}
use gisland.Supervisor.Inbound.{service_stdout}
use gisland.Supervisor.Service.{
  service_stderr, report_and_spawn, advance_transition, advance_transitions, advance_lifecycle,
  service_instance,
}
use gisland.Supervisor.Fleet.{is_active}
use gisland.Supervisor.Evolution.{
  Evolves, Evolves-trans, if-Evolves, emit_transition-Evolves, spawn_instance-Evolves,
}
use gisland.Supervisor.Serving.{service_stdout-Evolves}
use gisland.Supervisor.Polling.{
  service_stderr-Evolves, service_stdin-Evolves, send_due_signal-Evolves,
}
use gisland.Lifecycle

-- What `tick` answers: nothing has happened, the handshake has timed out, or a restart is due.
abbrev pub Ticks : ModuleState → ModuleLifecycle × List StateTransition → Type 0
Ticks before (l, []) = l.state ≡ before
Ticks before (l, transition ∷ []) =
    ((before ≡ starting) × (transition.to ≡ stopping) × (l.state ≡ stopping))
    ⊎ ((before ≡ backoff) × (transition.to ≡ starting) × (l.state ≡ starting))
Ticks before (l, _ ∷ _ ∷ _) = ⊥

tick-Ticks : (l : ModuleLifecycle) (now : ℕ) → Ticks l.state (gisland.Lifecycle.tick l now)
unfolding gisland.Lifecycle.tick
tick-Ticks l now = ground arith

no_spawn :
    (state : ModuleState) (test : Bool)
    → state ≡ stopping
    → (state_eq state starting && test) ≡ false
no_spawn state test h = ground arith

module _ {V : ViewLanguage} where
  if_true-Evolves :
      {i : Instance V} (a b : Work V) (test : Bool)
      → test ≡ true
      → Evolves i a.inst
      → Evolves i (if test then a else b).inst
  if_true-Evolves a b true h p = p
  if_true-Evolves a b false h p = absurd (ground arith)

  if_false-Evolves :
      {i : Instance V} (a b : Work V) (test : Bool)
      → test ≡ false
      → Evolves i b.inst
      → Evolves i (if test then a else b).inst
  if_false-Evolves a b true h p = absurd (ground arith)
  if_false-Evolves a b false h p = p

  pub emit_transition-state :
      (w : Work V) (transition : StateTransition)
      → state_of (emit_transition w transition).inst ≡ state_of w.inst
  unfolding emit_transition complete_restart
  emit_transition-state w transition = ground arith

  stopped-Evolves :
      (w : Work V) (l : ModuleLifecycle)
      → state_of w.inst ≡ starting
      → l.state ≡ stopping
      → Evolves w.inst (emit_context_removal (with_lifecycle w l)).inst
  unfolding emit_context_removal is_active
  stopped-Evolves w l h e = ground arith

  starting-Evolves :
      (w : Work V) (l : ModuleLifecycle)
      → state_of w.inst ≡ backoff
      → l.state ≡ starting
      → Evolves w.inst (with_lifecycle w l).inst
  unfolding is_active
  starting-Evolves w l h e = ground arith

  -- The contexts stay on the way to any other state than `stopping`.
  kept :
      (w : Work V) (transition : StateTransition)
      → state_eq transition.to stopping ≡ false
      → (if state_eq transition.to stopping then emit_context_removal w else w) ≡ w
  kept w transition h = ground arith

  module _ (P : ModuleProtocol V) (B : ProcessBackend) where
    abandon-Evolves :
        (w : Work V) (l : ModuleLifecycle) (transition : StateTransition) (now : ℕ)
        → state_of w.inst ≡ starting
        → transition.to ≡ stopping
        → l.state ≡ stopping
        → Evolves w.inst (advance_transition P B (with_lifecycle w l) transition now).inst
    unfolding advance_transition report_and_spawn
    abandon-Evolves w l transition now h to e =
        let ticked = with_lifecycle w l in
        let removed =
          if state_eq transition.to stopping then emit_context_removal ticked else ticked in
        let to_stopping =
          if_true-Evolves (emit_context_removal ticked) ticked _ (ground arith)
            (stopped-Evolves w l h e) in
        let reported = emit_transition removed transition in
        if_false-Evolves (spawn_instance P B reported now) reported
          (state_eq transition.to starting && not (is_some reported.inst.process))
          (no_spawn transition.to _ to)
          (Evolves-trans to_stopping (emit_transition-Evolves removed transition))

    retry-Evolves :
        (w : Work V) (l : ModuleLifecycle) (transition : StateTransition) (now : ℕ)
        → state_of w.inst ≡ backoff
        → transition.to ≡ starting
        → l.state ≡ starting
        → Evolves w.inst (advance_transition P B (with_lifecycle w l) transition now).inst
    unfolding advance_transition report_and_spawn
    retry-Evolves w l transition now h to e =
        let ticked = with_lifecycle w l in
        let reported = emit_transition ticked transition in
        let again =
          Evolves-trans (starting-Evolves w l h e) (emit_transition-Evolves ticked transition) in
        subst (λ u. Evolves w.inst (report_and_spawn P B u transition now).inst)
          (sym (kept ticked transition (ground arith)))
          (if-Evolves _ _ _
            (Evolves-trans again (
              spawn_instance-Evolves P B reported now
                (emit_transition-state ticked transition ∙ e)))
            again)

    -- What `tick` reports is acted upon.
    advance_transitions-Evolves :
        (w : Work V) (answer : ModuleLifecycle × List StateTransition) (now : ℕ)
        → Ticks (state_of w.inst) answer
        → Evolves w.inst (advance_transitions P B (with_lifecycle w answer.0) answer.1 now).inst
    unfolding advance_transitions is_active
    advance_transitions-Evolves w (l, []) now h = ground arith
    advance_transitions-Evolves w (l, transition ∷ []) now (inl (h, to, e)) =
        abandon-Evolves w l transition now h to e
    advance_transitions-Evolves w (l, transition ∷ []) now (inr (h, to, e)) =
        retry-Evolves w l transition now h to e
    advance_transitions-Evolves w (l, _ ∷ _ ∷ _) now h = absurd h

    pub advance_lifecycle-Evolves :
        (w : Work V) (now : ℕ) → Evolves w.inst (advance_lifecycle P B w now).inst
    unfolding advance_lifecycle
    advance_lifecycle-Evolves w now =
        let answer = gisland.Lifecycle.tick w.inst.lifecycle now in
        Evolves-trans (advance_transitions-Evolves w answer now (tick-Ticks w.inst.lifecycle now)) (
          send_due_signal-Evolves B
            (advance_transitions P B (with_lifecycle w answer.0) answer.1 now) now)

    pub service_instance-Evolves :
        (w : Work V) (now : ℕ) → Evolves w.inst (service_instance P B w now).inst
    unfolding service_instance
    service_instance-Evolves w now =
        let w' = service_stdout P B w now in
        let w'' = service_stderr B w' now in
        Evolves-trans (service_stdout-Evolves P B w now)
          (Evolves-trans (service_stderr-Evolves B w' now) (service_stdin-Evolves B w'' now))
