-- ===== src/Lifecycle/Types.antt =====
-- The data of module_lifecycle.hpp, and `ModuleTimings` and `RestartPolicy` of config.hpp.
use gisland.Prelude.{ℕ, Bool, true, false, String}

pub data ModuleState : Type 0 where
  stopped starting running backoff stopping failed : ModuleState

pub data StopCause : Type 0 where
  requested clean_exit failed_exit signal spawn_error handshake_timeout : StopCause
  protocol_violation io_error unresponsive : StopCause

pub data ShutdownSignal : Type 0 where
  terminate kill : ShutdownSignal

pub data RestartPolicy : Type 0 where
  always on_failure never : RestartPolicy

pub record ModuleTimings : Type 0 where
  pub handshake : ℕ
  pub graceful_shutdown : ℕ
  pub terminate_grace : ℕ
  pub initial_backoff : ℕ
  pub maximum_backoff : ℕ
  pub healthy_reset : ℕ

pub record StateTransition : Type 0 where
  pub from : ModuleState
  pub to : ModuleState
  pub cause : StopCause
  pub at : ℕ

pub record LifecycleError : Type 0 where
  pub state : ModuleState
  pub operation : String

-- `==` on the enumerations.
abbrev pub state_eq : ModuleState → ModuleState → Bool
state_eq stopped stopped = true
state_eq starting starting = true
state_eq running running = true
state_eq backoff backoff = true
state_eq stopping stopping = true
state_eq failed failed = true
state_eq _ _ = false

abbrev pub signal_eq : ShutdownSignal → ShutdownSignal → Bool
signal_eq terminate terminate = true
signal_eq kill kill = true
signal_eq _ _ = false
