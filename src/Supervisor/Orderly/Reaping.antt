-- ===== src/Supervisor/Orderly/Reaping.antt =====
-- Reaping keeps the supervisor orderly.
use gisland.Prelude.{
  is_some, case_option-elim, if-elim, ℕ, String, ◌≡◌, not, ◌&&◌, Option, none, some, List, [], ◌∷◌,
  arith,
}
use gisland.Lifecycle.Types.{stopped, io_error, state_eq}
use gisland.Runtime.Types.{ViewLanguage, ExitStatus}
use gisland.Supervisor.Types.{ModuleProtocol, Instance, Supervisor, ProcessBackend}
use gisland.Supervisor.Work.{Work, state_of, emit_error}
use gisland.Supervisor.Fleet.{keys, find_instance, focus, start_existing_at}
use gisland.Supervisor.Commands.{forget_restart}
use gisland.Supervisor.Reconfigure.{start_replacement_if_quiescent}
use gisland.Supervisor.Reaping.{
  reaped, halt_if_shutdown, handle_reaped_instance, reap_with, reap_one, reap_each, replace_each,
  reap_instances,
}
use gisland.Supervisor.Evolution.{begin_failure-Evolves}
use gisland.Supervisor.Orderly.{IsOrderly, Evolves-MayBecome, put-IsOrderly}
use gisland.Supervisor.Orderly.Starts.{MayBecome-trans, start_existing_at-IsOrderly}
use gisland.Supervisor.Orderly.Reconfigure.{start_replacement-IsOrderly, start_pending-IsOrderly}
use gisland.Supervisor.Orderly.Stops.{forget_restart-Evolves}
use gisland.Supervisor.Orderly.Gone.{
  Leaves, reaped-Leaves, not_reaped-Evolves, Leaves-MayBecome, halt_if_shutdown-IsOrderly,
  settled-IsOrderly,
}

module _ {V : ViewLanguage} where
  module _ (P : ModuleProtocol V) (B : ProcessBackend) where
    handle_reaped-IsOrderly :
        (s : Supervisor V) (key : String) (i : Instance V) (w : Work V) (replacements : List String)
        (now : ℕ)
        → find_instance s key ≡ some i
        → Leaves i w.inst
        → IsOrderly s
        → IsOrderly (handle_reaped_instance P B s key w replacements now).0
    unfolding handle_reaped_instance
    handle_reaped-IsOrderly s key i w replacements now found p h =
        if-elim (λ (r : Supervisor V × List String). IsOrderly r.0)
          (is_some w.inst.replacement_request && state_eq (state_of w.inst) stopped) _ _
          (λ replaced.
            put-IsOrderly s key i w found (Leaves-MayBecome s p (λ shut. ground (arith, replaced)))
              h)
          (λ kept.
            if-elim (λ (s' : Supervisor V). IsOrderly (halt_if_shutdown s' key now))
              (w.inst.restart_after_stop
                && not s.global_shutdown
                && state_eq (state_of w.inst) stopped)
              _ _
              (λ again.
                halt_if_shutdown-IsOrderly (start_existing_at P B s key (forget_restart w) now) key
                  now
                  (start_existing_at-IsOrderly P B s key i (forget_restart w) now found
                    (MayBecome-trans s (Leaves-MayBecome s p (λ shut. ground (arith, again, shut)))
                      (forget_restart-Evolves w))
                    h))
              (λ done. settled-IsOrderly s key i w now found p h))

    reap_with-IsOrderly :
        (s : Supervisor V) (key : String) (i : Instance V) (pid : ℕ)
        (answer : Option (Option ExitStatus)) (replacements : List String) (now : ℕ)
        → find_instance s key ≡ some i
        → IsOrderly s
        → IsOrderly (reap_with P B s key i pid answer replacements now).0
    unfolding reap_with
    reap_with-IsOrderly s key i pid none replacements now found h =
        put-IsOrderly s key i _ found
          (Evolves-MayBecome s (begin_failure-Evolves (emit_error (focus s i) now) io_error now)) h
    reap_with-IsOrderly s key i pid (some none) replacements now found h =
        put-IsOrderly s key i _ found (Evolves-MayBecome s (not_reaped-Evolves (focus s i) now)) h
    reap_with-IsOrderly s key i pid (some (some status)) replacements now found h =
        handle_reaped-IsOrderly s key i (reaped (focus s i) pid status now) replacements now found
          (reaped-Leaves (focus s i) pid status now) h

    reap_one-IsOrderly :
        (s : Supervisor V) (key : String) (replacements : List String) (now : ℕ)
        → IsOrderly s
        → IsOrderly (reap_one P B s key replacements now).0
    unfolding reap_one
    reap_one-IsOrderly s key replacements now h =
        case_option-elim (λ (r : Supervisor V × List String). IsOrderly r.0) (find_instance s key) _
          _ (λ absent. h)
          (λ i found.
            case_option-elim (λ (r : Supervisor V × List String). IsOrderly r.0) i.process _ _
              (λ idle. h)
              (λ pid there.
                reap_with-IsOrderly s key i pid (B.reap pid now) replacements now found h))

    reap_each-IsOrderly :
        (s : Supervisor V) (keys replacements : List String) (now : ℕ)
        → IsOrderly s
        → IsOrderly (reap_each P B s keys replacements now).0
    unfolding reap_each
    reap_each-IsOrderly s [] replacements now h = h
    reap_each-IsOrderly s (key ∷ keys) replacements now h =
        let r = reap_one P B s key replacements now in
        reap_each-IsOrderly r.0 keys r.1 now (reap_one-IsOrderly s key replacements now h)

    replace_each-IsOrderly :
        (s : Supervisor V) (keys : List String) (now : ℕ)
        → IsOrderly s
        → IsOrderly (replace_each P B s keys now)
    unfolding replace_each
    replace_each-IsOrderly s [] now h = h
    replace_each-IsOrderly s (key ∷ keys) now h =
        replace_each-IsOrderly (start_replacement_if_quiescent P B s key now) keys now
          (start_replacement-IsOrderly P B s key now h)

    pub reap_instances-IsOrderly :
        (s : Supervisor V) (now : ℕ) → IsOrderly s → IsOrderly (reap_instances P B s now)
    unfolding reap_instances
    reap_instances-IsOrderly s now h =
        let r = reap_each P B s (keys s.instances) [] now in
        start_pending-IsOrderly P B (replace_each P B r.0 r.1 now) now
          (replace_each-IsOrderly r.0 r.1 now (reap_each-IsOrderly s (keys s.instances) [] now h))
