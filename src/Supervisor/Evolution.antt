-- ===== src/Supervisor/Evolution.antt =====
-- How one instance may change while its process is served: no method but a start makes it active.
use gisland.Prelude.{
  if◌then◌else◌, ℕ, String, ◌≡◌, Bool, true, false, not, ◌&&◌, ◌||◌, Option, none, some, List, [],
  ◌∷◌, arith,
}
use gisland.Lifecycle.Types.{
  ModuleState, stopped, starting, running, backoff, stopping, failed, StopCause, spawn_error,
  protocol_violation, unresponsive, StateTransition, state_eq,
}
use gisland.Lifecycle.State.{ModuleLifecycle}
use gisland.Runtime.Types.{ViewLanguage, ProtocolError, process_started}
use gisland.Supervisor.Types.{CoreMessage, ModuleProtocol, Instance, ProcessBackend}
use gisland.Supervisor.Work.{
  Work, is_live, state_of, id_of, with_process, emit_event, emit_error, with_lifecycle,
  emit_context_removal, complete_restart, emit_transition, emit_transitions, failed_with,
  begin_failure, tell_violation, record_violation,
}
use gisland.Supervisor.Outbound.{
  reset_process, init_of, queued_with, queue_message, queue_shutdown, queue_or_fail, spawned_with,
  spawn_instance,
}
use gisland.Supervisor.Fleet.{is_active}
use gisland.Lifecycle
use gisland.Lifecycle.Exit

-- Where an instance is during a shutdown.
abbrev pub is_down : ModuleState → Bool
is_down state = state_eq state stopping || state_eq state stopped || state_eq state failed

-- The states in which no process is left.
abbrev pub is_gone : ModuleState → Bool
is_gone state = state_eq state stopped || state_eq state backoff || state_eq state failed

pub exited-is_gone :
    (l : ModuleLifecycle) (cause : StopCause) (now : ℕ)
    → is_gone (gisland.Lifecycle.Exit.exited l cause now).0.state ≡ true
unfolding gisland.Lifecycle.Exit.exited gisland.Lifecycle.Exit.finish_exit
    gisland.Lifecycle.Exit.settle gisland.Lifecycle.Exit.schedule_restart
exited-is_gone l cause now = ground arith

module _ {V : ViewLanguage} where
  -- The contexts of an instance that is neither starting nor running have been removed, and a
  -- running instance has said that it is ready.
  abbrev pub is_sound : Instance V → Bool
  is_sound i =
      (i.contexts_removed || is_live (state_of i))
      && (not (state_eq (state_of i) running) || i.ready)

  pub record Evolves (i j : Instance V) : Type 0 where
    pub same_request : j.request ≡ i.request
    pub no_start : is_active (state_of i) ≡ false → is_active (state_of j) ≡ false
    pub no_return : is_down (state_of i) ≡ true → is_down (state_of j) ≡ true
    pub keeps_sound : is_sound i ≡ true → is_sound j ≡ true

  pub Evolves-refl : (i : Instance V) → Evolves i i
  Evolves-refl i = ground arith

  pub Evolves-trans : {i j k : Instance V} → Evolves i j → Evolves j k → Evolves i k
  Evolves-trans p q = record {
    same_request = cc;
    no_start = λ h. q.no_start (p.no_start h);
    no_return = λ h. q.no_return (p.no_return h);
    keeps_sound = λ h. q.keeps_sound (p.keeps_sound h);
  }

  pub if-Evolves :
      {i : Instance V} (a b : Work V) (test : Bool)
      → Evolves i a.inst
      → Evolves i b.inst
      → Evolves i (if test then a else b).inst
  if-Evolves a b true p q = p
  if-Evolves a b false p q = q

  pub with_process-Evolves :
      (w : Work V) (process : Option ℕ) (serve : ℕ → Work V)
      → ((pid : ℕ) → Evolves w.inst (serve pid).inst)
      → Evolves w.inst (with_process w process serve).inst
  unfolding with_process
  with_process-Evolves w none serve h = Evolves-refl w.inst
  with_process-Evolves w (some pid) serve h = h pid

  pub emit_context_removal-Evolves : (w : Work V) → Evolves w.inst (emit_context_removal w).inst
  unfolding emit_context_removal is_active
  emit_context_removal-Evolves w = ground arith

  pub complete_restart-Evolves :
      (w : Work V) (succeeded : Bool) (state : ModuleState) (now : ℕ)
      → Evolves w.inst (complete_restart w succeeded state now).inst
  unfolding complete_restart is_active
  complete_restart-Evolves w succeeded state now = ground arith

  pub emit_transition-Evolves :
      (w : Work V) (transition : StateTransition)
      → Evolves w.inst (emit_transition w transition).inst
  unfolding emit_transition complete_restart is_active
  emit_transition-Evolves w transition = ground arith

  -- A failure stops what is starting or running, and removes its contexts.
  pub begin_failure-Evolves :
      (w : Work V) (cause : StopCause) (now : ℕ) → Evolves w.inst (begin_failure w cause now).inst
  unfolding begin_failure failed_with emit_context_removal emit_transition complete_restart
      is_active gisland.Lifecycle.fail
  begin_failure-Evolves w cause now = ground arith

  pub record_violation-Evolves :
      (w : Work V) (error : ProtocolError) (now : ℕ)
      → Evolves w.inst (record_violation w error now).inst
  unfolding record_violation is_active
  record_violation-Evolves w error now =
      ground (arith, begin_failure-Evolves (tell_violation w error now) protocol_violation now)

  queue_message-Evolves :
      (P : ModuleProtocol V) (w : Work V) (message : CoreMessage V) (now : ℕ)
      → Evolves w.inst (queue_message P w message now).0.inst
  unfolding queue_message queued_with is_active
  queue_message-Evolves P w message now = ground arith

  pub queue_or_fail-Evolves :
      (P : ModuleProtocol V) (w : Work V) (message : CoreMessage V) (now : ℕ)
      → Evolves w.inst (queue_or_fail P w message now).inst
  unfolding queue_or_fail
  queue_or_fail-Evolves P w message now =
      let q = queue_message P w message now in
      let e = queue_message-Evolves P w message now in
      ground (arith, e, Evolves-trans e (begin_failure-Evolves q.0 unresponsive now))

  pub queue_shutdown-Evolves :
      (P : ModuleProtocol V) (w : Work V) (reason : String) (now : ℕ)
      → Evolves w.inst (queue_shutdown P w reason now).inst
  unfolding queue_shutdown queue_message queued_with is_active
  queue_shutdown-Evolves P w reason now = ground arith

  pub emit_transitions-Evolves :
      (w : Work V) (transitions : List StateTransition)
      → Evolves w.inst (emit_transitions w transitions).inst
  unfolding emit_transitions
  emit_transitions-Evolves w [] = Evolves-refl w.inst
  emit_transitions-Evolves w (transition ∷ transitions) =
      Evolves-trans (emit_transition-Evolves w transition)
        (emit_transitions-Evolves (emit_transition w transition) transitions)

  -- An instance that was starting and whose contexts are gone leaves for good.
  leave-Evolves :
      (w : Work V) (now : ℕ) (l : ModuleLifecycle)
      → state_of w.inst ≡ starting
      → is_gone l.state ≡ true
      → Evolves w.inst (with_lifecycle (emit_context_removal (emit_error w now)) l).inst
  unfolding emit_context_removal is_active
  leave-Evolves w now l h gone = ground arith

  process-Evolves :
      (w : Work V) (process : Option ℕ) → Evolves w.inst (record w.inst { process = process })
  process-Evolves w process = ground arith

  reset_process-Evolves :
      (w : Work V) → state_of w.inst ≡ starting → Evolves w.inst (reset_process w).inst
  unfolding is_active
  reset_process-Evolves w h = ground arith

  spawned_with-Evolves :
      (P : ModuleProtocol V) (w : Work V) (answer : Option ℕ) (now : ℕ)
      → state_of w.inst ≡ starting
      → Evolves w.inst (spawned_with P w answer now).inst
  unfolding spawned_with
  spawned_with-Evolves P w none now h =
      let removed = emit_context_removal (emit_error w now) in
      let answer = gisland.Lifecycle.Exit.exited removed.inst.lifecycle spawn_error now in
      Evolves-trans
        (leave-Evolves w now answer.0 h (exited-is_gone removed.inst.lifecycle spawn_error now))
        (emit_transitions-Evolves (with_lifecycle removed answer.0) answer.1)
  spawned_with-Evolves P w (some pid) now h =
      let started =
        emit_event (record w { inst = record w.inst { process = some pid } })
          (process_started (id_of w) w.inst.generation) in
      Evolves-trans (process-Evolves w (some pid))
        (queue_or_fail-Evolves P started (init_of w.inst) now)

  -- The start of a process for an instance that is starting.
  pub spawn_instance-Evolves :
      (P : ModuleProtocol V) (B : ProcessBackend) (w : Work V) (now : ℕ)
      → state_of w.inst ≡ starting
      → Evolves w.inst (spawn_instance P B w now).inst
  unfolding spawn_instance
  spawn_instance-Evolves P B w now h =
      let reset = reset_process w in
      Evolves-trans (reset_process-Evolves w h) (
        spawned_with-Evolves P reset (B.spawn reset.inst.request.process reset.inst.generation) now
          h)
