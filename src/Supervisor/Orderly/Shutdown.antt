-- ===== src/Supervisor/Orderly/Shutdown.antt =====
-- The shutdown of the supervisor stops its instances one after the other.
use gisland.Prelude.{
  Bool-cases, case_option-elim, if-elim, ℕ, String, ◌≡◌, refl, sym, subst, inl, inr, Bool, true,
  false, not, ◌&&◌, some, List, [], ◌∷◌, arith,
}
use gisland.Prelude.Maps.{Entries}
use gisland.Lifecycle.Types.{stopped, stopping, state_eq}
use gisland.Runtime.Types.{ViewLanguage}
use gisland.Supervisor.Types.{ModuleProtocol, Instance, Supervisor, ProcessBackend}
use gisland.Supervisor.Work.{
  Work, is_live, state_of, emit_context_removal, complete_restart, emit_transition,
}
use gisland.Supervisor.Outbound.{queued_with, queue_message, queue_shutdown}
use gisland.Supervisor.Fleet.{keys, find_instance, focus}
use gisland.Supervisor.Commands.{stopped_with, stop_instance, after_stop, handle_stop}
use gisland.Supervisor.Loop.{stop_each, begin_global_shutdown}
use gisland.Supervisor.Evolution.{Evolves, is_down, Evolves-refl}
use gisland.Supervisor.Orderly.{IsOrderly, Entries-absent}
use gisland.Supervisor.Orderly.Commands.{stop_instance-Evolves}
use gisland.Supervisor.Orderly.Closing.{IsClosing, closing-skip, closed, all_keys, put-IsClosing}
use gisland.Lifecycle

module _ {V : ViewLanguage} where
  module _ (P : ModuleProtocol V) where
    told-state :
        (w : Work V) (reason : String) (now : ℕ)
        → state_of (emit_context_removal (queue_shutdown P w reason now)).inst ≡ state_of w.inst
    unfolding queue_shutdown queue_message queued_with emit_context_removal
    told-state w reason now = ground arith

  stopped_with-is_down :
      (w : Work V) (now : ℕ)
      → state_eq (state_of w.inst) stopping ≡ false
      → state_eq (state_of w.inst) stopped ≡ false
      → is_down (state_of (stopped_with w (gisland.Lifecycle.stop w.inst.lifecycle now) now).0.inst)
        ≡ true
  unfolding stopped_with gisland.Lifecycle.stop emit_transition complete_restart
  stopped_with-is_down w now a b = ground arith

  module _ (P : ModuleProtocol V) where
    stop_instance-is_down :
        (w : Work V) (now : ℕ)
        → state_eq (state_of w.inst) stopping ≡ false
        → state_eq (state_of w.inst) stopped ≡ false
        → is_down (state_of (stop_instance P w now false).0.inst) ≡ true
    unfolding stop_instance
    stop_instance-is_down w now a b =
        let queued = queue_shutdown P w "requested-stop" now in
        let same = told-state P w "requested-stop" now in
        if-elim
          (λ (told : Work V).
            is_down (
              state_of
                (stopped_with told (gisland.Lifecycle.stop told.inst.lifecycle now) now).0.inst)
            ≡ true)
          (is_live (state_of w.inst)) (emit_context_removal queued) w
          (λ live.
            stopped_with-is_down (emit_context_removal queued) now
              (subst (λ state. state_eq state stopping ≡ false) (sym same) a)
              (subst (λ state. state_eq state stopped ≡ false) (sym same) b))
          (λ dead. stopped_with-is_down w now a b)

    module _ (B : ProcessBackend) where
      after_stop-IsClosing :
          (key : String) (todo : List String) (s : Supervisor V) (i : Instance V)
          (answer : Work V × Bool) (now : ℕ)
          → find_instance s key ≡ some i
          → Evolves i answer.0.inst
          → is_down (state_of answer.0.inst) ≡ true
          → IsClosing (key ∷ todo) s
          → IsClosing todo (after_stop P B s key answer now)
      unfolding after_stop
      after_stop-IsClosing key todo s i (w, now_stopped) now found e down h =
          if-elim (IsClosing todo)
            (now_stopped && w.inst.restart_after_stop && not s.global_shutdown) _ _
            (λ again. absurd (ground (arith, again, h.shut)))
            (λ done. put-IsClosing key todo s i w found e down h)

      handle_stop-IsClosing :
          (key : String) (todo : List String) (s : Supervisor V) (now : ℕ)
          → IsClosing (key ∷ todo) s
          → IsClosing todo (handle_stop P B s key now false)
      unfolding handle_stop
      handle_stop-IsClosing key todo s now h =
          case_option-elim (IsClosing todo) (find_instance s key) _ _
            (λ absent. record {
              standing = h.standing;
              distinct = h.distinct;
              limited = h.limited;
              shut = h.shut;
              closing =
                  closing-skip key todo s.instances (Entries-absent key s.instances absent)
                    h.closing;
            })
            (λ i found.
              if-elim (IsClosing todo) (state_eq (state_of i) stopping) _ _
                (λ a.
                  put-IsClosing key todo s i (focus s i) found (Evolves-refl i) (ground (arith, a))
                    h)
                (λ a.
                  if-elim (IsClosing todo) (state_eq (state_of i) stopped) _ _
                    (λ b.
                      put-IsClosing key todo s i (focus s i) found (Evolves-refl i)
                        (ground (arith, b)) h)
                    (λ b.
                      after_stop-IsClosing key todo s i (stop_instance P (focus s i) now false) now
                        found (stop_instance-Evolves P (focus s i) now false)
                        (stop_instance-is_down (focus s i) now a b) h)))

      stop_each-IsClosing :
          (s : Supervisor V) (todo : List String) (now : ℕ)
          → IsClosing todo s
          → IsClosing [] (stop_each P B s todo now)
      unfolding stop_each
      stop_each-IsClosing s [] now h = h
      stop_each-IsClosing s (key ∷ todo) now h =
          stop_each-IsClosing (handle_stop P B s key now false) todo now
            (handle_stop-IsClosing key todo s now h)

      begin-IsClosing :
          (s : Supervisor V) (now : ℕ)
          → IsOrderly s
          → s.global_shutdown ≡ false
          → IsClosing [] (begin_global_shutdown P B s now)
      unfolding begin_global_shutdown
      begin-IsClosing s now h going =
          if-elim (IsClosing []) s.global_shutdown _ _
            (λ shut. absurd (ground (arith, going, shut)))
            (λ still.
              stop_each-IsClosing
                (record s { global_shutdown = true; pending_reconfiguration_starts = [] })
                (keys s.instances) now
                (record {
                  standing = h.standing;
                  distinct = h.distinct;
                  limited = h.limited;
                  shut = refl;
                  closing = all_keys s.instances;
                }))

      -- The shutdown of an orderly supervisor that is not in one leaves every instance stopping,
      -- stopped or failed.
      pub begin_global_shutdown-is_down :
          (s : Supervisor V) (now : ℕ)
          → IsOrderly s
          → s.global_shutdown ≡ false
          → ((begin_global_shutdown P B s now).global_shutdown ≡ true)
            × Entries
                (λ key i. is_down (state_of i) ≡ true)
                (begin_global_shutdown P B s now).instances
      begin_global_shutdown-is_down s now h going =
          let closing = begin-IsClosing s now h going in (closing.shut, closed _ closing.closing)

      -- The shutdown keeps the supervisor orderly.
      pub begin_global_shutdown-IsOrderly :
          (s : Supervisor V) (now : ℕ) → IsOrderly s → IsOrderly (begin_global_shutdown P B s now)
      begin_global_shutdown-IsOrderly s now h = elim (Bool-cases s.global_shutdown) [
        | inl shut ↦ unfold begin_global_shutdown in simp shut h
        | inr going ↦
            let c = begin-IsClosing s now h going in
            record {
              standing = c.standing;
              distinct = c.distinct;
              limited = c.limited;
              winding_down = λ shut. closed _ c.closing;
            }
      ]
