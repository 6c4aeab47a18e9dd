-- ===== src/Supervisor/Orderly/Commands.antt =====
-- The methods that stop, restart and address an instance keep the supervisor orderly.
use gisland.Prelude.{
  ◌==◌, if◌then◌else◌, is_some, case_option-elim, if-elim, ℕ, String, ◌≡◌, inr, Bool, true, not,
  ◌&&◌, ◌||◌, some, arith,
}
use gisland.Lifecycle.Types.{stopped, running, backoff, stopping, state_eq}
use gisland.Runtime.Types.{ViewLanguage}
use gisland.Supervisor.Types.{
  ActionMessage, CoreMessage, action_message, ModuleProtocol, Instance, Supervisor, ProcessBackend,
}
use gisland.Supervisor.Work.{Work, is_live, state_of, emit_context_removal}
use gisland.Supervisor.Outbound.{queue_shutdown}
use gisland.Supervisor.Fleet.{is_at_rest, find_instance, focus, put}
use gisland.Supervisor.Commands.{
  wanting_restart, forget_restart, reset_for_restart, halt, is_for_module, delivery, stop_instance,
  after_stop, handle_stop, handle_restart, handle_send, handle_send_action,
}
use gisland.Supervisor.Evolution.{
  Evolves, Evolves-refl, Evolves-trans, emit_context_removal-Evolves, queue_or_fail-Evolves,
  queue_shutdown-Evolves,
}
use gisland.Supervisor.Orderly.{IsOrderly, Evolves-MayBecome, put-IsOrderly, emit_in-IsOrderly}
use gisland.Supervisor.Orderly.Starts.{start_existing_at-IsOrderly}
use gisland.Supervisor.Orderly.Stops.{
  stop-Stops, MayStop, emit_context_removal-MayStop, halt-Evolves, stopped_with-Evolves,
  wanting_restart-Evolves, forget_restart-Evolves, reset_for_restart-Evolves,
  delivered_with-Evolves,
}
use gisland.WriteQueue.{push}
use gisland.Lifecycle

module _ {V : ViewLanguage} where
  module _ (P : ModuleProtocol V) where
    pub stop_instance-Evolves :
        (w : Work V) (now : ℕ) (restart : Bool)
        → Evolves w.inst (stop_instance P w now restart).0.inst
    unfolding stop_instance
    stop_instance-Evolves w now restart =
        let reason = if restart then "restart" else "requested-stop" in
        let queued = queue_shutdown P w reason now in
        let told = if is_live (state_of w.inst) then emit_context_removal queued else w in
        let ready_to_stop =
          if-elim (λ u. Evolves w.inst u.inst × MayStop u.inst) (is_live (state_of w.inst))
            (emit_context_removal queued) w
            (λ live. (
              Evolves-trans (queue_shutdown-Evolves P w reason now)
                  (emit_context_removal-Evolves queued),
              emit_context_removal-MayStop queued,
            ))
            (λ dead. (Evolves-refl w.inst, inr dead)) in
        Evolves-trans ready_to_stop.0 (
          stopped_with-Evolves told (gisland.Lifecycle.stop told.inst.lifecycle now) now
            ready_to_stop.1 (stop-Stops told.inst.lifecycle now))

    module _ (B : ProcessBackend) where
      after_stop-IsOrderly :
          (s : Supervisor V) (key : String) (i : Instance V) (answer : Work V × Bool) (now : ℕ)
          → find_instance s key ≡ some i
          → Evolves i answer.0.inst
          → IsOrderly s
          → IsOrderly (after_stop P B s key answer now)
      unfolding after_stop
      after_stop-IsOrderly s key i (w, now_stopped) now found e h =
          if-elim IsOrderly (now_stopped && w.inst.restart_after_stop && not s.global_shutdown) _ _
            (λ again.
              start_existing_at-IsOrderly P B s key i (forget_restart w) now found
                (Evolves-MayBecome s (Evolves-trans e (forget_restart-Evolves w))) h)
            (λ done. put-IsOrderly s key i w found (Evolves-MayBecome s e) h)

      -- A stop keeps the supervisor orderly.
      pub handle_stop-IsOrderly :
          (s : Supervisor V) (key : String) (now : ℕ) (restart : Bool)
          → IsOrderly s
          → IsOrderly (handle_stop P B s key now restart)
      unfolding handle_stop
      handle_stop-IsOrderly s key now restart h =
          case_option-elim IsOrderly (find_instance s key) _ _ (λ absent. emit_in-IsOrderly s _ h)
            (λ i found.
              let w = wanting_restart (focus s i) restart in
              let e = wanting_restart-Evolves (focus s i) restart in
              let put_back = put-IsOrderly s key i w found (Evolves-MayBecome s e) h in
              if-elim IsOrderly (state_eq (state_of i) stopping) _ _ (λ stopping. put_back)
                (λ not_stopping.
                  if-elim IsOrderly (state_eq (state_of i) stopped) _ _
                    (λ stopped.
                      if-elim IsOrderly (restart && not s.global_shutdown) _ _
                        (λ again.
                          start_existing_at-IsOrderly P B s key i w now found
                            (Evolves-MayBecome s e) h)
                        (λ done. put_back))
                    (λ not_stopped.
                      after_stop-IsOrderly s key i (stop_instance P w now restart) now found
                        (Evolves-trans e (stop_instance-Evolves w now restart)) h)))

      -- A restart keeps the supervisor orderly.
      pub handle_restart-IsOrderly :
          (s : Supervisor V) (key : String) (generation now : ℕ)
          → IsOrderly s
          → IsOrderly (handle_restart P B s key generation now)
      unfolding handle_restart
      handle_restart-IsOrderly s key generation now h =
          case_option-elim IsOrderly (find_instance s key) _ _
            (λ absent. emit_in-IsOrderly _ _ (emit_in-IsOrderly s _ h))
            (λ i found.
              let w = reset_for_restart (focus s i) generation in
              let e = reset_for_restart-Evolves (focus s i) generation in
              if-elim IsOrderly (is_some i.restart_generation) _ _
                (λ pending. emit_in-IsOrderly s _ h)
                (λ free.
                  if-elim IsOrderly (is_at_rest (state_of w.inst)) _ _
                    (λ rests.
                      start_existing_at-IsOrderly P B s key i w now found (Evolves-MayBecome s e) h)
                    (λ moves.
                      if-elim IsOrderly (state_eq (state_of w.inst) backoff) _ _
                        (λ waits.
                          start_existing_at-IsOrderly P B s key i (halt w now) now found
                            (Evolves-MayBecome s
                              (Evolves-trans e (halt-Evolves w now (inr (ground arith)))))
                            h)
                        (λ lives.
                          handle_stop-IsOrderly (put s key w) key now true
                            (put-IsOrderly s key i w found (Evolves-MayBecome s e) h)))))

    -- A message to an instance keeps the supervisor orderly.
    pub handle_send-IsOrderly :
        (s : Supervisor V) (key : String) (message : CoreMessage V) (now : ℕ)
        → IsOrderly s
        → IsOrderly (handle_send P s key message now)
    unfolding handle_send
    handle_send-IsOrderly s key message now h =
        case_option-elim IsOrderly (find_instance s key) _ _ (λ absent. emit_in-IsOrderly s _ h)
          (λ i found.
            if-elim IsOrderly (not (state_eq (state_of i) running) || not (is_for_module message)) _
              _ (λ refused. emit_in-IsOrderly s _ h)
              (λ sent.
                put-IsOrderly s key i _ found
                  (Evolves-MayBecome s (queue_or_fail-Evolves P (focus s i) message now)) h))

    -- An action for an instance keeps the supervisor orderly.
    pub handle_send_action-IsOrderly :
        (s : Supervisor V) (key : String) (generation : ℕ) (message : ActionMessage V) (now : ℕ)
        → IsOrderly s
        → IsOrderly (handle_send_action P s key generation message now)
    unfolding handle_send_action
    handle_send_action-IsOrderly s key generation message now h =
        case_option-elim IsOrderly (find_instance s key) _ _ (λ absent. emit_in-IsOrderly s _ h)
          (λ i found.
            if-elim IsOrderly (not (i.generation == generation)) _ _
              (λ stale. emit_in-IsOrderly s _ h)
              (λ current.
                if-elim IsOrderly (not (state_eq (state_of i) running) || not (is_some i.process)) _
                  _ (λ gone. emit_in-IsOrderly s _ h)
                  (λ there.
                    case_option-elim IsOrderly (P.serialize_core_message (action_message message)) _
                      _ (λ absent. emit_in-IsOrderly s _ h)
                      (λ bytes written.
                        put-IsOrderly s key i _ found
                          (Evolves-MayBecome s (
                            delivered_with-Evolves (focus s i) (delivery key generation message now)
                              (push i.writes bytes) now))
                          h))))
