-- ===== src/Supervisor/Requests.antt =====
-- What the supervisor accepts from its clients.
use gisland.Prelude.{
  length, All, value, ◌<◌, String, ◌≡◌, refl, ◌≢◌, ◌↔◌, true, false, List, [], ◌∷◌, ◌++◌, arith,
}
use gisland.Runtime.Types.{ViewLanguage}
use gisland.Supervisor.Types.{
  ProcessSpec, ModuleStartRequest, SupervisorReconfiguration, reconfigure_command, Supervisor,
}
use gisland.Supervisor.Queue.{command_capacity, enqueue}
use gisland.Supervisor.Negotiation.{has}
use gisland.Supervisor.Fleet.{keys}
use gisland.Supervisor.{
  is_empty_string, lacks_program, are_new, ids_of, have_programs, is_valid_reconfiguration,
  reconfigure,
}

-- No identifier is empty, and none comes twice.
abbrev pub AreDistinct : List String → Type 0
AreDistinct [] = Unit {0}
AreDistinct (key ∷ keys) = (key ≢ "") × (has key keys ≡ false) × AreDistinct keys

-- None of the identifiers is known.
abbrev pub AreUnknown : List String → List String → Type 0
AreUnknown known [] = Unit {0}
AreUnknown known (key ∷ keys) = (has key known ≡ false) × AreUnknown known keys

unknown-cons :
    (key : String) (known keys : List String)
    → AreUnknown (key ∷ known) keys ↔ (has key keys ≡ false) × AreUnknown known keys
unfolding has
unknown-cons key known [] = ground arith
unknown-cons key known (first ∷ keys) = ground (arith, unknown-cons key known keys)

unknown-nil : (keys : List String) → AreUnknown [] keys
unfolding has
unknown-nil [] = tt
unknown-nil (key ∷ keys) = (refl, unknown-nil keys)

are_new_iff :
    (known keys : List String)
    → (are_new known keys ≡ true) ↔ AreDistinct keys × AreUnknown known keys
unfolding are_new is_empty_string
are_new_iff known [] = ground arith
are_new_iff known (key ∷ keys) =
    ground (arith, are_new_iff (key ∷ known) keys, unknown-cons key known keys)

-- A command line with a program.
abbrev pub HasProgram : List String → Type 0
HasProgram [] = ⊥
HasProgram (program ∷ arguments) = program ≢ ""

lacks_program_iff :
    (process : ProcessSpec) → (lacks_program process ≡ false) ↔ HasProgram process.argv
unfolding lacks_program is_empty_string
lacks_program_iff process = by_argv process.argv
  where
    by_argv :
        (argv : List String)
        → (lacks_program (record process { argv = argv }) ≡ false) ↔ HasProgram argv
    by_argv [] = ground arith
    by_argv (program ∷ arguments) = ground arith

module _ {V : ViewLanguage} where
  have_programs_iff :
      (requests : List (ModuleStartRequest V))
      → (have_programs requests ≡ true) ↔ All (λ request. HasProgram request.process.argv) requests
  have_programs_iff [] = ground arith
  have_programs_iff (request ∷ requests) = (
    λ h. (
      (lacks_program_iff request.process).0 (ground (arith, h)),
      (have_programs_iff requests).0 (ground (arith, h)),
    ),
    λ h.
        ground
          (arith, (lacks_program_iff request.process).1 h.0, (have_programs_iff requests).1 h.1),
  )

  -- The identifiers that a reconfiguration names.
  abbrev pub named : SupervisorReconfiguration V → List String
  named reconfiguration = reconfiguration.stop_instances ++ ids_of reconfiguration.start_or_replace

  -- What the supervisor asks of a reconfiguration and of itself.
  abbrev pub Accepts : Supervisor V → SupervisorReconfiguration V → Type 0
  Accepts s reconfiguration =
      AreDistinct (named reconfiguration)
      × All (λ request. HasProgram request.process.argv) reconfiguration.start_or_replace
      × (s.accepting_commands ≡ true)
      × (length s.commands < command_capacity)

  -- A reconfiguration is accepted exactly if it names no instance twice or without an identifier,
  -- each start has a program, the supervisor accepts commands and fewer than 2048 wait. An accepted
  -- one is put behind the commands that wait, and nothing else changes; otherwise the supervisor
  -- stays as it is.
  pub reconfigure_iff :
      (s : Supervisor V) (reconfiguration : SupervisorReconfiguration V)
      → let (s', result) = reconfigure s reconfiguration in
        ((result ≡ value tt) ↔ Accepts s reconfiguration)
        × (result ≡ value tt
            → s' ≡ record s { commands = s.commands ++ reconfigure_command reconfiguration ∷ [] })
        × (result ≢ value tt → s' ≡ s)
  unfolding reconfigure is_valid_reconfiguration enqueue
  reconfigure_iff s reconfiguration = (
    ground (
      arith,
      are_new_iff [] (named reconfiguration),
      unknown-nil (named reconfiguration),
      have_programs_iff reconfiguration.start_or_replace,
    ),
    λ taken. ground (arith, taken),
    λ refused. ground (arith, refused),
  )
