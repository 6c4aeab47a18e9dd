-- ===== src/Supervisor/Started.antt =====
-- What a start leaves: what was pending, and an instance of its own beside the others.
use gisland.Prelude.{
  case_option-elim, if-elim, String_discrete, value, unexpected, ℕ, String, ◌≡◌, refl, subst, ◌≢◌,
  true, false, not, arith,
}
use gisland.Prelude.Maps.{find, contains, find-erase}
use gisland.Lifecycle.Types.{StateTransition}
use gisland.Lifecycle.State.{Outcome}
use gisland.Runtime.Types.{ViewLanguage}
use gisland.Supervisor.Types.{ModuleStartRequest, ModuleProtocol, Supervisor, ProcessBackend}
use gisland.Supervisor.Work.{state_of}
use gisland.Supervisor.Fleet.{
  is_active, has_room, find_instance, erase_instance, started_with, start_new, handle_start,
}
use gisland.Supervisor.Orderly.{count-erase}
use gisland.Lifecycle
use gisland.Lifecycle.State

module _ {V : ViewLanguage} where
  -- No start adds to what is pending, or begins a shutdown.
  abbrev pub Same : Supervisor V → Supervisor V → Type 0
  Same s s' =
      (s'.pending_reconfiguration_starts ≡ s.pending_reconfiguration_starts)
      × (s'.global_shutdown ≡ s.global_shutdown)

  abbrev pub HasInstance : Supervisor V → String → Type 0
  HasInstance s key = contains String_discrete key s.instances ≡ true

  abbrev pub HasInstances : Supervisor V → Supervisor V → Type 0
  HasInstances s s' = (key : String) → HasInstance s key → HasInstance s' key

  erase-HasInstance :
      (s : Supervisor V) (erased key : String)
      → HasInstance s key
      → erased ≢ key
      → HasInstance (erase_instance s erased) key
  erase-HasInstance s erased key there other =
      ground (arith, there, other, find-erase String_discrete erased key s.instances)

  erase-has_room :
      (s : Supervisor V) (key : String) → has_room s ≡ true → has_room (erase_instance s key) ≡ true
  erase-has_room s key room = ground (arith, room, count-erase key s.instances)

module _ {V : ViewLanguage} (P : ModuleProtocol V) (B : ProcessBackend) where
  started_with-Same :
      (s : Supervisor V) (request : ModuleStartRequest V) (answer : Outcome StateTransition)
      (now : ℕ)
      → Same s (started_with P B s request answer now)
  unfolding started_with
  started_with-Same s request (l, unexpected error) now = (refl, refl)
  started_with-Same s request (l, value transition) now = (refl, refl)

  start_new-Same :
      (s : Supervisor V) (request : ModuleStartRequest V) (now : ℕ)
      → Same s (start_new P B s request now)
  unfolding start_new
  start_new-Same s request now =
      if-elim (Same s) (not (has_room s)) _ _ (λ full. (refl, refl))
        (λ room. started_with-Same s request _ now)

  -- A start neither adds to the pending starts nor begins a shutdown: the loop reads what it read
  -- at first.
  pub handle_start-pending :
      (s : Supervisor V) (request : ModuleStartRequest V) (now : ℕ)
      → Same s (handle_start P B s request now)
  unfolding handle_start
  handle_start-pending s request now =
      if-elim (Same s) s.global_shutdown _ _ (λ shut. (refl, refl))
        (λ going.
          case_option-elim (Same s) (find_instance s request.instance_id) _ _
            (λ absent. start_new-Same s request now)
            (λ i found.
              if-elim (Same s) (is_active (state_of i)) _ _ (λ active. (refl, refl))
                (λ inactive. start_new-Same (erase_instance s request.instance_id) request now)))

  start_new-HasInstance :
      (s : Supervisor V) (request : ModuleStartRequest V) (now : ℕ)
      → has_room s ≡ true
      → HasInstance (start_new P B s request now) request.instance_id
        × HasInstances s (start_new P B s request now)
  unfolding start_new started_with find gisland.Lifecycle.start gisland.Lifecycle.State.make
  start_new-HasInstance s request now room =
      (ground (arith, room), λ key there. ground (arith, room, there))

  -- A start that is neither shut down nor without room has its instance, and takes no other away.
  pub handle_start-HasInstance :
      (s : Supervisor V) (request : ModuleStartRequest V) (now : ℕ)
      → s.global_shutdown ≡ false
      → has_room s ≡ true
      → HasInstance (handle_start P B s request now) request.instance_id
        × HasInstances s (handle_start P B s request now)
  unfolding handle_start
  handle_start-HasInstance s request now going room =
      if-elim Result s.global_shutdown _ _ (λ shut. absurd (ground (arith, shut, going)))
        (λ _.
          case_option-elim Result (find_instance s request.instance_id) _ _
            (λ absent. start_new-HasInstance s request now room)
            (λ i found.
              if-elim Result (is_active (state_of i)) _ _
                (λ active. (ground (arith, found), λ key there. there)) (λ inactive. replaced)))
    where
      Result : Supervisor V → Type 0
      Result s' = HasInstance s' request.instance_id × HasInstances s s'

      replaced : Result (start_new P B (erase_instance s request.instance_id) request now)
      replaced =
          let (here, kept) =
            start_new-HasInstance (erase_instance s request.instance_id) request now
              (erase-has_room s request.instance_id room) in
          (
            here,
            λ key there. elim (String_discrete request.instance_id key) [
              | yes same ↦ subst (HasInstance (start_new P B s' request now)) same here
              | no other ↦ kept key (erase-HasInstance s request.instance_id key there other)
            ],
          )
        where
          s' : Supervisor V
          s' = erase_instance s request.instance_id
