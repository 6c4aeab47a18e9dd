-- ===== src/Supervisor/Orderly/Gone.antt =====
-- What a process that is gone leaves, and that a shutdown stops it for good.
use gisland.Prelude.{
  Bool-cases, case_option-elim, if-elim, ℕ, String, ◌≡◌, refl, sym, ◌∙◌, subst, inl, inr, true,
  false, ◌&&◌, none, some, List, [], ◌∷◌, arith,
}
use gisland.Lifecycle.Types.{stopped, backoff, StopCause, io_error, StateTransition, state_eq}
use gisland.Lifecycle.State.{ModuleLifecycle}
use gisland.Runtime.Types.{ViewLanguage, ExitStatus}
use gisland.Supervisor.Types.{Instance, Supervisor}
use gisland.Supervisor.Work.{
  Work, state_of, with_lifecycle, emit_context_removal, complete_restart, emit_transition,
  emit_transitions,
}
use gisland.Supervisor.Fleet.{is_active, assign, find_instance, focus, put}
use gisland.Supervisor.Commands.{halted_with, halt}
use gisland.Supervisor.Reaping.{stop_cause, reaped, not_reaped, halt_if_shutdown}
use gisland.Supervisor.Evolution.{
  Evolves, is_gone, exited-is_gone, is_sound, Evolves-refl, if-Evolves,
  emit_context_removal-Evolves, begin_failure-Evolves, emit_transitions-Evolves,
}
use gisland.Supervisor.Ticking.{emit_transition-state}
use gisland.Supervisor.Orderly.{
  IsOrderly, MayBecome, Evolves-MayBecome, put-IsOrderly, find-assign, assign-assign,
}
use gisland.Supervisor.Orderly.Stops.{halt-Evolves}
use gisland.Lifecycle
use gisland.Lifecycle.Exit
use gisland.Supervisor.Fleet

exited-no_start :
    (l : ModuleLifecycle) (cause : StopCause) (now : ℕ)
    → is_active l.state ≡ false
    → is_active (gisland.Lifecycle.Exit.exited l cause now).0.state ≡ false
unfolding gisland.Lifecycle.Exit.exited is_active
exited-no_start l cause now h = ground arith

module _ {V : ViewLanguage} where
  -- What is left of an instance whose process is gone.
  pub record Leaves (i j : Instance V) : Type 0 where
    pub same_request : j.request ≡ i.request
    pub gone : is_gone (state_of j) ≡ true
    pub no_start : is_active (state_of i) ≡ false → is_active (state_of j) ≡ false
    pub keeps_sound : is_sound i ≡ true → is_sound j ≡ true

  exit-Leaves :
      (w : Work V) (l : ModuleLifecycle)
      → is_gone l.state ≡ true
      → (is_active (state_of w.inst) ≡ false → is_active l.state ≡ false)
      → Leaves w.inst (with_lifecycle (emit_context_removal w) l).inst
  unfolding emit_context_removal
  exit-Leaves w l gone no_start = ground arith

  emit_transitions-state :
      (w : Work V) (transitions : List StateTransition)
      → state_of (emit_transitions w transitions).inst ≡ state_of w.inst
  unfolding emit_transitions
  emit_transitions-state w [] = refl
  emit_transitions-state w (transition ∷ transitions) =
      emit_transitions-state (emit_transition w transition) transitions
      ∙ emit_transition-state w transition

  told-Leaves :
      (i : Instance V) (w : Work V) (transitions : List StateTransition)
      → Leaves i w.inst
      → Leaves i (record (emit_transitions w transitions).inst { process = none })
  told-Leaves i w transitions h =
      let e = emit_transitions-Evolves w transitions in
      record {
        same_request = e.same_request ∙ h.same_request;
        gone = ground (arith, emit_transitions-state w transitions, h.gone);
        no_start = λ idle. e.no_start (h.no_start idle);
        keeps_sound = λ sound. e.keeps_sound (h.keeps_sound sound);
      }

  pub reaped-Leaves :
      (w : Work V) (pid : ℕ) (status : ExitStatus) (now : ℕ)
      → Leaves w.inst (reaped w pid status now).inst
  unfolding reaped
  reaped-Leaves w pid status now =
      let removed = emit_context_removal w in
      let answer = gisland.Lifecycle.Exit.exited removed.inst.lifecycle (stop_cause status) now in
      told-Leaves w.inst _ answer.1 (
        exit-Leaves w answer.0 (exited-is_gone removed.inst.lifecycle (stop_cause status) now)
          (λ idle.
            exited-no_start removed.inst.lifecycle (stop_cause status) now
              ((emit_context_removal-Evolves w).no_start idle)))

  pub not_reaped-Evolves : (w : Work V) (now : ℕ) → Evolves w.inst (not_reaped w now).inst
  unfolding not_reaped
  not_reaped-Evolves w now =
      if-Evolves _ _ _ (begin_failure-Evolves w io_error now) (Evolves-refl w.inst)

  -- Where it may stay like this: no shutdown, or it does not wait for a restart.
  pub Leaves-MayBecome :
      (s : Supervisor V) {i j : Instance V}
      → Leaves i j
      → (s.global_shutdown ≡ true → state_eq (state_of j) backoff ≡ false)
      → MayBecome s i j
  Leaves-MayBecome s p h = record {
    same_request = p.same_request;
    keeps_sound = p.keeps_sound;
    has_place = inr p.no_start;
    no_return = λ shut down. ground (arith, h shut, p.gone);
  }

  halted_with-state :
      (w : Work V) (now : ℕ) → state_of w.inst ≡ backoff → state_of (halt w now).inst ≡ stopped
  unfolding halt halted_with emit_transition complete_restart gisland.Lifecycle.stop
  halted_with-state w now h = ground arith

  halted-MayBecome :
      (s : Supervisor V) (i : Instance V) (w : Work V) (now : ℕ)
      → Leaves i w.inst
      → state_of w.inst ≡ backoff
      → MayBecome s i (halt w now).inst
  halted-MayBecome s i w now p h =
      let e = halt-Evolves w now (inr (ground arith)) in
      record {
        same_request = e.same_request ∙ p.same_request;
        keeps_sound = λ sound. e.keeps_sound (p.keeps_sound sound);
        has_place = inr (λ idle. e.no_start (p.no_start idle));
        no_return = λ shut down. ground (arith, halted_with-state w now h);
      }

  pub halt_if_shutdown-IsOrderly :
      (s : Supervisor V) (key : String) (now : ℕ)
      → IsOrderly s
      → IsOrderly (halt_if_shutdown s key now)
  unfolding halt_if_shutdown
  halt_if_shutdown-IsOrderly s key now h =
      case_option-elim IsOrderly (find_instance s key) _ _ (λ absent. h)
        (λ i found.
          if-elim IsOrderly (s.global_shutdown && state_eq (state_of i) backoff) _ _
            (λ waits.
              put-IsOrderly s key i (halt (focus s i) now) found
                (Evolves-MayBecome s (halt-Evolves (focus s i) now (inr (ground arith)))) h)
            (λ other. h))

  -- Under a shutdown an instance that would wait for its restart is stopped at once.
  halted_at_once :
      (s : Supervisor V) (key : String) (i : Instance V) (w : Work V) (now : ℕ)
      → find_instance s key ≡ some i
      → s.global_shutdown ≡ true
      → state_of w.inst ≡ backoff
      → halt_if_shutdown (put s key w) key now ≡ put s key (halt w now)
  unfolding halt_if_shutdown halt gisland.Supervisor.Fleet.assign
  halted_at_once s key i w now found shut h =
      let waits : (s.global_shutdown && state_eq (state_of w.inst) backoff) ≡ true = ground arith in
      simp
        (
          find-assign key i w.inst s.instances found,
          waits,
          assign-assign key w.inst (halt w now).inst s.instances,
        )
        refl

  -- Whatever a process leaves, under a shutdown or not.
  pub settled-IsOrderly :
      (s : Supervisor V) (key : String) (i : Instance V) (w : Work V) (now : ℕ)
      → find_instance s key ≡ some i
      → Leaves i w.inst
      → IsOrderly s
      → IsOrderly (halt_if_shutdown (put s key w) key now)
  settled-IsOrderly s key i w now found p h =
      elim (Bool-cases (s.global_shutdown && state_eq (state_of w.inst) backoff)) [
        | inl waits ↦
            subst IsOrderly (sym (halted_at_once s key i w now found (ground arith) (ground arith)))
              (put-IsOrderly s key i (halt w now) found
                (halted-MayBecome s i w now p (ground arith)) h)
        | inr other ↦ halt_if_shutdown-IsOrderly (put s key w) key now (
            put-IsOrderly s key i w found
              (Leaves-MayBecome s p (λ shut. ground (arith, other, shut))) h)
      ]
