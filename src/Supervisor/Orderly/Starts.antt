-- ===== src/Supervisor/Orderly/Starts.antt =====
-- The methods that start an instance keep the supervisor orderly.
use gisland.Prelude.{
  Bool-cases, case_option-elim, if-elim, String_discrete, value, unexpected, ℕ, String, ◌≡◌, refl,
  ap, ◌∙◌, inl, inr, true, false, none, some, arith,
}
use gisland.Prelude.Maps.{find-erase}
use gisland.Lifecycle.Types.{ModuleState, stopped, starting, StateTransition}
use gisland.Lifecycle.State.{ModuleLifecycle, Outcome}
use gisland.Runtime.Types.{ViewLanguage}
use gisland.Supervisor.Types.{
  ModuleStartRequest, ModuleProtocol, Instance, Supervisor, ProcessBackend, make_instance,
}
use gisland.Supervisor.Work.{Work, state_of, emit_error, with_lifecycle, emit_transition}
use gisland.Supervisor.Outbound.{spawn_instance}
use gisland.Supervisor.Fleet.{
  is_active, has_room, find_instance, erase_instance, focus, put, fail_restart, restarted_with,
  start_existing, start_existing_at, started_with, start_new, handle_start,
}
use gisland.Supervisor.Evolution.{
  Evolves, Evolves-trans, complete_restart-Evolves, emit_transition-Evolves, spawn_instance-Evolves,
}
use gisland.Supervisor.Ticking.{emit_transition-state}
use gisland.Supervisor.Orderly.{
  IsOrderly, MayBecome, Evolves-MayBecome, put-IsOrderly, find-assign, emit_in-IsOrderly,
  erase-IsOrderly, insert-IsOrderly,
}
use gisland.Lifecycle
use gisland.Lifecycle.State

-- What the lifecycle answers to `start`.
abbrev pub Starts : ModuleState → Outcome StateTransition → Type 0
Starts before (l, value transition) = l.state ≡ starting
Starts before (l, unexpected error) = l.state ≡ before

start-Starts : (l : ModuleLifecycle) (now : ℕ) → Starts l.state (gisland.Lifecycle.start l now)
unfolding gisland.Lifecycle.start
start-Starts l now = ground arith

module _ {V : ViewLanguage} where
  pub MayBecome-trans :
      (s : Supervisor V) {i j k : Instance V} → MayBecome s i j → Evolves j k → MayBecome s i k
  MayBecome-trans s p q = record {
    same_request = q.same_request ∙ p.same_request;
    keeps_sound = λ h. q.keeps_sound (p.keeps_sound h);
    has_place = ground (arith, p.has_place, q.no_start);
    no_return = λ shut h. q.no_return (p.no_return shut h);
  }

  -- Where there is room and no shutdown, an instance may start.
  may_start :
      (s : Supervisor V) (i : Instance V) (l : ModuleLifecycle)
      → s.global_shutdown ≡ false
      → has_room s ≡ true
      → l.state ≡ starting
      → MayBecome s i (record i { lifecycle = l })
  unfolding is_active
  may_start s i l going room h = record {
    same_request = refl;
    keeps_sound = ground arith;
    has_place = inl room;
    no_return = ground arith;
  }

  pub fail_restart-Evolves : (w : Work V) (now : ℕ) → Evolves w.inst (fail_restart w now).inst
  fail_restart-Evolves w now = complete_restart-Evolves w false (state_of w.inst) now

  pub same_state-Evolves :
      (w : Work V) (l : ModuleLifecycle)
      → l.state ≡ state_of w.inst
      → Evolves w.inst (with_lifecycle w l).inst
  unfolding is_active
  same_state-Evolves w l h = ground arith

  erased-absent :
      (s : Supervisor V) (key : String) → find_instance (erase_instance s key) key ≡ none
  erased-absent s key = ground (arith, find-erase String_discrete key key s.instances)

  module _ (P : ModuleProtocol V) (B : ProcessBackend) where
    restarted_with-MayBecome :
        (s : Supervisor V) (w : Work V) (answer : Outcome StateTransition) (now : ℕ)
        → s.global_shutdown ≡ false
        → has_room s ≡ true
        → Starts (state_of w.inst) answer
        → MayBecome s w.inst (restarted_with P B w answer now).inst
    unfolding restarted_with
    restarted_with-MayBecome s w (l, unexpected error) now going room h =
        Evolves-MayBecome s (Evolves-trans (same_state-Evolves w l h) (fail_restart-Evolves _ now))
    restarted_with-MayBecome s w (l, value transition) now going room h =
        let started = with_lifecycle w l in
        let reported = emit_transition started transition in
        MayBecome-trans s (may_start s w.inst l going room h) (
          Evolves-trans (emit_transition-Evolves started transition) (
            spawn_instance-Evolves P B reported now (emit_transition-state started transition ∙ h)))

    start_existing-MayBecome :
        (s : Supervisor V) (i : Instance V) (now : ℕ)
        → MayBecome s i (start_existing P B s i now).inst
    unfolding start_existing
    start_existing-MayBecome s i now = elim (Bool-cases s.global_shutdown) [
      | inl e ↦ simp e (Evolves-MayBecome s (fail_restart-Evolves (focus s i) now))
      | inr e ↦ elim (Bool-cases (has_room s)) [
        | inl room ↦
            simp (e, room)
              (restarted_with-MayBecome s (focus s i) (gisland.Lifecycle.start i.lifecycle now) now
                e room (start-Starts i.lifecycle now))
        | inr full ↦
            simp (e, full)
              (Evolves-MayBecome s (fail_restart-Evolves (emit_error (focus s i) now) now))
      ]
    ]

    -- `start_existing` on an instance that has become what `w` says.
    pub start_existing_at-IsOrderly :
        (s : Supervisor V) (key : String) (i : Instance V) (w : Work V) (now : ℕ)
        → find_instance s key ≡ some i
        → MayBecome s i w.inst
        → IsOrderly s
        → IsOrderly (start_existing_at P B s key w now)
    unfolding start_existing_at
    start_existing_at-IsOrderly s key i w now e a h =
        let s' = put s key w in
        put-IsOrderly s' key w.inst (start_existing P B s' w.inst now)
          (find-assign key i w.inst s.instances e) (start_existing-MayBecome s' w.inst now)
          (put-IsOrderly s key i w e a h)

    started_with-IsOrderly :
        (s : Supervisor V) (request : ModuleStartRequest V) (answer : Outcome StateTransition)
        (now : ℕ)
        → s.global_shutdown ≡ false
        → has_room s ≡ true
        → Starts stopped answer
        → find_instance s request.instance_id ≡ none
        → IsOrderly s
        → IsOrderly (started_with P B s request answer now)
    unfolding started_with make_instance
    started_with-IsOrderly s request (l, unexpected error) now going room a absent h =
        emit_in-IsOrderly s _ h
    started_with-IsOrderly s request (l, value transition) now going room a absent h =
        let i = record (make_instance V request) { lifecycle = l } in
        let started = focus s i in
        let reported = emit_transition started transition in
        let e = Evolves-trans (emit_transition-Evolves started transition) (
          spawn_instance-Evolves P B reported now (emit_transition-state started transition ∙ a)) in
        insert-IsOrderly s request.instance_id (spawn_instance P B reported now) going room
          (ap (λ r. r.instance_id) e.same_request, e.keeps_sound (ground arith)) absent h

    start_new-IsOrderly :
        (s : Supervisor V) (request : ModuleStartRequest V) (now : ℕ)
        → s.global_shutdown ≡ false
        → find_instance s request.instance_id ≡ none
        → IsOrderly s
        → IsOrderly (start_new P B s request now)
    unfolding start_new gisland.Lifecycle.State.make
    start_new-IsOrderly s request now going absent h = elim (Bool-cases (has_room s)) [
      | inl room ↦ simp room (
          started_with-IsOrderly s request
            (gisland.Lifecycle.start (gisland.Lifecycle.State.make request.restart request.timings)
              now)
            now going room
            (start-Starts (gisland.Lifecycle.State.make request.restart request.timings) now) absent
            h)
      | inr full ↦ simp full (emit_in-IsOrderly s _ h)
    ]

    -- The start of an instance keeps the supervisor orderly.
    pub handle_start-IsOrderly :
        (s : Supervisor V) (request : ModuleStartRequest V) (now : ℕ)
        → IsOrderly s
        → IsOrderly (handle_start P B s request now)
    unfolding handle_start
    handle_start-IsOrderly s request now h =
        if-elim IsOrderly s.global_shutdown _ _ (λ shut. emit_in-IsOrderly s _ h)
          (λ going.
            case_option-elim IsOrderly (find_instance s request.instance_id) _ _
              (λ absent. start_new-IsOrderly s request now going absent h)
              (λ i found.
                if-elim IsOrderly (is_active (state_of i)) _ _ (λ active. emit_in-IsOrderly s _ h)
                  (λ inactive.
                    start_new-IsOrderly (erase_instance s request.instance_id) request now going
                      (erased-absent s request.instance_id)
                      (erase-IsOrderly s request.instance_id h))))
