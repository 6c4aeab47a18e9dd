-- ===== src/Runtime/Types.antt =====
-- The data of runtime.hpp, the messages of protocol.hpp and the events of module_supervisor.hpp
-- that the coordinator acts on, and `ModuleViewState` of scene_template.cpp.
-- Scenes, templates and JSON values are parameters: `nlohmann::json` is a library's, and templates
-- are instantiated by `instantiate_template`, which the coordinator only calls.
use gisland.Prelude.{Expected, ℕ, String, Bool, Option, List}
use gisland.Prelude.Int.{ℤ}
use gisland.Lifecycle.Types.{ModuleState, StopCause, StateTransition}
use gisland.Context.Types.{ViewTransitions, PresentationIntent, ImageResource}

pub record ProtocolVersion : Type 0 where
  pub major : ℤ
  pub minor : ℤ

pub data TemplateErrorCode : Type 0 where
  invalid_binding missing_data wrong_type repeat_source_mismatch : TemplateErrorCode
  invalid_template invalid_scene : TemplateErrorCode

pub record TemplateError : Type 0 where
  pub code : TemplateErrorCode
  pub template_path : String
  pub data_path : String

-- The language of the views: its scenes, templates and values, and `instantiate_template`.
pub record ViewLanguage : Type 1 where
  pub Scene : Type 0
  pub Json : Type 0
  pub Template : Type 0
  pub instantiate_template : Template → Json → Expected Scene TemplateError

pub data Visibility : Type 0 where
  hidden compact_active expanded_active : Visibility

pub data IslandMode : Type 0 where
  compact expanded : IslandMode

pub data RuntimeErrorCode : Type 0 where
  unknown_instance disabled_instance unavailable_instance : RuntimeErrorCode
  unknown_context missing_view invalid_snapshot : RuntimeErrorCode

-- The message, a text for people, is left out.
pub record RuntimeError : Type 0 where
  pub code : RuntimeErrorCode
  pub instance_id : String

pub record RuntimeActionTarget : Type 0 where
  pub generation : ℕ
  pub protocol : ProtocolVersion

pub record RuntimeModuleStatus : Type 0 where
  pub id : String
  pub enabled : Bool
  pub state : ModuleState
  pub available : Bool

pub record VisibilityUpdate : Type 0 where
  pub instance_id : String
  pub visibility : Visibility

-- The message, a text for people, is left out, here and in `SupervisorErrorEvent`.
pub record ProtocolError : Type 0 where
  pub path : String

pub record StderrLogEvent : Type 0 where
  pub instance_id : String
  pub line : List ℕ
  pub truncated : Bool
  pub repeated : ℕ
  pub at : ℕ

pub record ProtocolViolationEvent : Type 0 where
  pub instance_id : String
  pub error : ProtocolError
  pub consecutive : ℕ
  pub rolling : ℕ
  pub at : ℕ

pub data ExitKind : Type 0 where
  exited signaled : ExitKind

pub record ExitStatus : Type 0 where
  pub kind : ExitKind
  pub code : ℤ

pub record ProcessExitedEvent : Type 0 where
  pub instance_id : String
  pub pid : ℕ
  pub status : ExitStatus
  pub cause : StopCause
  pub at : ℕ
  pub generation : ℕ

pub data ActionDeliveryError : Type 0 where
  unknown_instance generation_mismatch unavailable : ActionDeliveryError
  queue_saturated serialization_failed : ActionDeliveryError

pub record ActionDeliveryEvent : Type 0 where
  pub instance_id : String
  pub generation : ℕ
  pub invocation_id : ℕ
  pub succeeded : Bool
  pub error : Option ActionDeliveryError
  pub at : ℕ

pub record SupervisorErrorEvent : Type 0 where
  pub instance_id : String
  pub at : ℕ

pub record RestartCompletedEvent : Type 0 where
  pub instance_id : String
  pub generation : ℕ
  pub succeeded : Bool
  pub state : ModuleState
  pub at : ℕ

module _ (V : ViewLanguage) where
  open V use {Scene, Json, Template}

  pub record InstantiatedViews : Type 0 where
    pub compact : Scene
    pub expanded : Option Scene

  pub record ModuleViewState : Type 0 where
    pub compact_template : Template
    pub expanded_template : Option Template
    pub snapshot : Option Json
    pub views : Option InstantiatedViews

  pub record PublishMessage : Type 0 where
    pub context_id : String
    pub priority : ℤ
    pub expires_in : Option ℕ
    pub compact : Option Scene
    pub expanded : Option Scene
    pub resources : List ImageResource
    pub presentation : Option PresentationIntent
    pub independent_views : Bool
    pub transitions : ViewTransitions
    pub activation_only : Bool

  -- An action result and a log carry texts that neither the supervisor nor the coordinator reads.
  pub data ModuleMessage : Type 0 where
    ready_message : ProtocolVersion → List String → ModuleMessage
    publish_message : PublishMessage → ModuleMessage
    dismiss_message : String → ModuleMessage
    action_result_message : ModuleMessage
    log_message : ModuleMessage
    data_message : Json → ViewTransitions → ModuleMessage

  pub record ModuleMessageEvent : Type 0 where
    pub instance_id : String
    pub message : ModuleMessage
    pub at : ℕ
    pub generation : ℕ

  -- Of the start of a process the process group and the time are left out, of the removal of
  -- contexts the time.
  pub data SupervisorEvent : Type 0 where
    state_changed : String → StateTransition → SupervisorEvent
    process_started : String → ℕ → SupervisorEvent
    module_message : ModuleMessageEvent → SupervisorEvent
    stderr_log : StderrLogEvent → SupervisorEvent
    violation : ProtocolViolationEvent → SupervisorEvent
    contexts_removed : String → ℕ → SupervisorEvent
    process_exited : ProcessExitedEvent → SupervisorEvent
    supervisor_error : SupervisorErrorEvent → SupervisorEvent
    restart_completed : RestartCompletedEvent → SupervisorEvent
    action_delivery : ActionDeliveryEvent → SupervisorEvent

  -- What the coordinator reads of a `ModuleInstanceConfig` and of an `AppConfig`.
  pub record View : Type 0 where
    pub compact : Template
    pub expanded : Option Template

  pub record ModuleInstanceConfig : Type 0 where
    pub id : String
    pub enabled : Bool
    pub view : Option View

  pub record AppConfig : Type 0 where
    pub default_module : String
    pub compact_default : String
    pub expanded_default : String
    pub modules : List ModuleInstanceConfig
