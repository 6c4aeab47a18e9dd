-- ===== src/Supervisor/Orderly/Reconfigure.antt =====
-- A reconfiguration keeps the supervisor orderly.
use gisland.Prelude.{
  is_some, case_option-elim, if-elim, length, ℕ, zero, suc, String, ◌≡◌, refl, false, not, ◌||◌,
  List, [], ◌∷◌, arith,
}
use gisland.Runtime.Types.{ViewLanguage}
use gisland.Supervisor.Types.{
  ModuleStartRequest, SupervisorReconfiguration, ModuleProtocol, Supervisor, ProcessBackend,
}
use gisland.Supervisor.Work.{Work, state_of}
use gisland.Supervisor.Fleet.{
  is_active, is_at_rest, has_room, keys, find_instance, erase_instance, focus, put, handle_start,
}
use gisland.Supervisor.Commands.{forget_restart, handle_stop}
use gisland.Supervisor.Reconfigure.{
  reset_replacement, with_replacement, cancel_restart, erase_pending_reconfiguration_start,
  replace_pending, with_pending, start_replacement_if_quiescent, queue_or_start_reconfiguration,
  start_while, start_pending_reconfiguration, stop_for_reconfiguration, stop_instances,
  start_or_replace_one, start_or_replace, handle_reconfigure,
}
use gisland.Supervisor.Evolution.{Evolves, Evolves-trans}
use gisland.Supervisor.Orderly.{IsOrderly, Evolves-MayBecome, put-IsOrderly, erase-IsOrderly}
use gisland.Supervisor.Orderly.Starts.{fail_restart-Evolves, handle_start-IsOrderly}
use gisland.Supervisor.Orderly.Commands.{handle_stop-IsOrderly}
use gisland.Supervisor.Orderly.Stops.{forget_restart-Evolves}

module _ {V : ViewLanguage} where
  with_pending-IsOrderly :
      (s : Supervisor V) (pending : List (ModuleStartRequest V))
      → IsOrderly s
      → IsOrderly (with_pending s pending)
  with_pending-IsOrderly s pending h = record {
    standing = h.standing;
    distinct = h.distinct;
    limited = h.limited;
    winding_down = h.winding_down;
  }

  cancel_restart-Evolves : (w : Work V) (now : ℕ) → Evolves w.inst (cancel_restart w now).inst
  unfolding cancel_restart
  cancel_restart-Evolves w now =
      Evolves-trans (forget_restart-Evolves w) (fail_restart-Evolves (forget_restart w) now)

  reset_replacement-Evolves : (w : Work V) → Evolves w.inst (reset_replacement w).inst
  unfolding is_active
  reset_replacement-Evolves w = ground arith

  with_replacement-Evolves :
      (w : Work V) (request : ModuleStartRequest V)
      → Evolves w.inst (with_replacement w request).inst
  unfolding is_active
  with_replacement-Evolves w request = ground arith

  module _ (P : ModuleProtocol V) (B : ProcessBackend) where
    pub start_replacement-IsOrderly :
        (s : Supervisor V) (key : String) (now : ℕ)
        → IsOrderly s
        → IsOrderly (start_replacement_if_quiescent P B s key now)
    unfolding start_replacement_if_quiescent
    start_replacement-IsOrderly s key now h =
        case_option-elim IsOrderly (find_instance s key) _ _ (λ absent. h)
          (λ i found.
            case_option-elim IsOrderly i.replacement_request _ _ (λ kept. h)
              (λ request wanted.
                if-elim IsOrderly (is_some i.process || not (is_at_rest (state_of i))) _ _
                  (λ busy. h)
                  (λ quiet.
                    handle_start-IsOrderly P B (erase_instance s key) request now
                      (erase-IsOrderly s key h))))

    queue_or_start-IsOrderly :
        (s : Supervisor V) (request : ModuleStartRequest V) (now : ℕ)
        → IsOrderly s
        → IsOrderly (queue_or_start_reconfiguration P B s request now)
    unfolding queue_or_start_reconfiguration
    queue_or_start-IsOrderly s request now h =
        case_option-elim IsOrderly (replace_pending request s.pending_reconfiguration_starts) _ _
          (λ new.
            if-elim IsOrderly (not (has_room s)) _ _ (λ full. with_pending-IsOrderly s _ h)
              (λ room. handle_start-IsOrderly P B s request now h))
          (λ pending replaced. with_pending-IsOrderly s pending h)

    start_while-IsOrderly :
        (turns : ℕ) (s : Supervisor V) (now : ℕ)
        → IsOrderly s
        → IsOrderly (start_while P B turns s now)
    unfolding start_while
    start_while-IsOrderly zero s now h = h
    start_while-IsOrderly (suc turns) s now h =
        by_pending s.pending_reconfiguration_starts refl
          (λ s' h'. start_while-IsOrderly turns s' now h')
      where
        by_pending :
            (pending : List (ModuleStartRequest V))
            → s.pending_reconfiguration_starts ≡ pending
            → ((s' : Supervisor V) → IsOrderly s' → IsOrderly (start_while P B turns s' now))
            → IsOrderly (start_while P B (suc turns) s now)
        by_pending [] e rest = rw (start_while, e) h
        by_pending (request ∷ pending) e rest =
            rw (start_while, e)
              (if-elim IsOrderly (s.global_shutdown || not (has_room s)) _ _ (λ stay. h)
                (λ go. rest (handle_start P B (with_pending s pending) request now) (
                  handle_start-IsOrderly P B (with_pending s pending) request now
                    (with_pending-IsOrderly s pending h))))

    pub start_pending-IsOrderly :
        (s : Supervisor V) (now : ℕ)
        → IsOrderly s
        → IsOrderly (start_pending_reconfiguration P B s now)
    unfolding start_pending_reconfiguration
    start_pending-IsOrderly s now h =
        start_while-IsOrderly (length s.pending_reconfiguration_starts) s now h

    stop_for-IsOrderly :
        (s : Supervisor V) (key : String) (now : ℕ)
        → IsOrderly s
        → IsOrderly (stop_for_reconfiguration P B s key now)
    unfolding stop_for_reconfiguration
    stop_for-IsOrderly s key now h =
        let s' = erase_pending_reconfiguration_start s key in
        let h' = with_pending-IsOrderly s _ h in
        case_option-elim IsOrderly (find_instance s' key) _ _ (λ absent. h')
          (λ i found.
            let cancelled = cancel_restart (focus s' i) now in
            handle_stop-IsOrderly P B (put s' key (reset_replacement cancelled)) key now false (
              put-IsOrderly s' key i (reset_replacement cancelled) found
                (Evolves-MayBecome s' (
                  Evolves-trans (cancel_restart-Evolves (focus s' i) now)
                    (reset_replacement-Evolves cancelled)))
                h'))

    stop_instances-IsOrderly :
        (s : Supervisor V) (keys : List String) (now : ℕ)
        → IsOrderly s
        → IsOrderly (stop_instances P B s keys now)
    unfolding stop_instances
    stop_instances-IsOrderly s [] now h = h
    stop_instances-IsOrderly s (key ∷ keys) now h =
        stop_instances-IsOrderly (stop_for_reconfiguration P B s key now) keys now
          (stop_for-IsOrderly s key now h)

    start_or_replace_one-IsOrderly :
        (s : Supervisor V) (request : ModuleStartRequest V) (now : ℕ)
        → IsOrderly s
        → IsOrderly (start_or_replace_one P B s request now)
    unfolding start_or_replace_one
    start_or_replace_one-IsOrderly s request now h =
        let key = request.instance_id in
        case_option-elim IsOrderly (find_instance s key) _ _
          (λ absent. queue_or_start-IsOrderly s request now h)
          (λ i found.
            let cancelled = cancel_restart (focus s i) now in
            let s' = put s key (with_replacement cancelled request) in
            start_replacement-IsOrderly (handle_stop P B s' key now false) key now (
              handle_stop-IsOrderly P B s' key now false (
                put-IsOrderly s key i (with_replacement cancelled request) found
                  (Evolves-MayBecome s (
                    Evolves-trans (cancel_restart-Evolves (focus s i) now)
                      (with_replacement-Evolves cancelled request)))
                  h)))

    start_or_replace-IsOrderly :
        (s : Supervisor V) (requests : List (ModuleStartRequest V)) (now : ℕ)
        → IsOrderly s
        → IsOrderly (start_or_replace P B s requests now)
    unfolding start_or_replace
    start_or_replace-IsOrderly s [] now h = h
    start_or_replace-IsOrderly s (request ∷ requests) now h =
        start_or_replace-IsOrderly (start_or_replace_one P B s request now) requests now
          (start_or_replace_one-IsOrderly s request now h)

    pub handle_reconfigure-IsOrderly :
        (s : Supervisor V) (reconfiguration : SupervisorReconfiguration V) (now : ℕ)
        → IsOrderly s
        → IsOrderly (handle_reconfigure P B s reconfiguration now)
    unfolding handle_reconfigure
    handle_reconfigure-IsOrderly s reconfiguration now h =
        start_or_replace-IsOrderly (stop_instances P B s reconfiguration.stop_instances now)
          reconfiguration.start_or_replace now
          (stop_instances-IsOrderly s reconfiguration.stop_instances now h)
