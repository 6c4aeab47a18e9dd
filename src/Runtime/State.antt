-- ===== src/Runtime/State.antt =====
-- The fields of `RuntimeCoordinator`, its constructor and `ModuleViewState::apply`.
-- A `std::set` is a map to the unit type.
use gisland.Prelude.{
  if◌then◌else◌, String_discrete, Expected, value, unexpected, ℕ, ◌+◌, ◌%◌, ◌^◌, String, Bool, not,
  Option, none, some, List, [], ◌∷◌, ◌++◌,
}
use gisland.Prelude.Maps.{emplace}
use gisland.Lifecycle.Types.{ModuleState, stopped}
use gisland.Context.Types.{ContextKey, PublishedContext}
use gisland.Context.Store.{ContextArbiter, string_eq, make_defaults}
use gisland.Runtime.Types.{
  ProtocolVersion, TemplateError, ViewLanguage, Visibility, ModuleViewState, View,
  ModuleInstanceConfig, AppConfig,
}

abbrev pub configured_context_id : String
configured_context_id = "configured"

-- `++revision_` on `std::uint64_t`.
abbrev pub next_revision : ℕ → ℕ
next_revision n = (n + 1) % 2 ^ 64

module _ (V : ViewLanguage) where
  open V use {Scene}

  pub record RuntimeCoordinator : Type 0 where
    pub arbiter : ContextArbiter Scene
    pub configured_instances : List (String × Bool)
    pub module_states : List (String × ModuleState)
    pub views : List (String × ModuleViewState V)
    pub enabled_instances : List String
    pub ready_instances : List (String × Unit {0})
    pub process_generations : List (String × ℕ)
    pub negotiated_protocols : List (String × ProtocolVersion)
    pub visibility : List (String × Visibility)
    pub pending_replacements : List (ContextKey × Option (PublishedContext Scene))
    pub revision : ℕ

abbrev or_default : String → String → String
or_default name default_module = if string_eq name "" then default_module else name

-- Instantiates the expanded template, if there is one.
unfoldable pub instantiate_expanded :
    (V : ViewLanguage) → Option V.Template → V.Json → Expected (Option V.Scene) TemplateError
instantiate_expanded V none snapshot = value none
instantiate_expanded V (some template) snapshot = elim (V.instantiate_template template snapshot) [
  | value scene ↦ value (some scene)
  | unexpected error ↦ unexpected error
]

module _ {V : ViewLanguage} where
  open V use {Json, instantiate_template}

  unfoldable pub new_view_state : View V → ModuleViewState V
  new_view_state view = record {
    compact_template = view.compact;
    expanded_template = view.expanded;
    snapshot = none;
    views = none;
  }

  unfoldable pub add_view :
      List (String × ModuleViewState V)
      → String
      → Option (View V)
      → List (String × ModuleViewState V)
  unfolding new_view_state
  add_view views id none = views
  add_view views id (some view) = emplace String_discrete id (new_view_state view) views

  -- One module of the configuration: a disabled one is only noted.
  unfoldable pub add_instance : RuntimeCoordinator V → ModuleInstanceConfig V → RuntimeCoordinator V
  unfolding add_view
  add_instance r config =
      let noted = record r {
        configured_instances = r.configured_instances ++ (config.id, config.enabled) ∷ [];
      } in
      if not config.enabled then noted else record noted {
        module_states = emplace String_discrete config.id stopped r.module_states;
        enabled_instances = r.enabled_instances ++ config.id ∷ [];
        views = add_view r.views config.id config.view;
      }

  unfoldable pub add_instances :
      RuntimeCoordinator V → List (ModuleInstanceConfig V) → RuntimeCoordinator V
  unfolding add_instance
  add_instances r [] = r
  add_instances r (config ∷ configs) = add_instances (add_instance r config) configs

  unfoldable pub make : AppConfig V → RuntimeCoordinator V
  unfolding add_instances
  make config =
      add_instances
        (record {
          arbiter =
              make_defaults (or_default config.compact_default config.default_module)
                (or_default config.expanded_default config.default_module);
          configured_instances = [];
          module_states = [];
          views = [];
          enabled_instances = [];
          ready_instances = [];
          process_generations = [];
          negotiated_protocols = [];
          visibility = [];
          pending_replacements = [];
          revision = 0;
        })
        config.modules

  -- A snapshot that a template refuses leaves the view as it was.
  unfoldable pub apply :
      ModuleViewState V → Json → ModuleViewState V × Expected (Unit {0}) TemplateError
  unfolding instantiate_expanded
  apply view snapshot = elim (instantiate_template view.compact_template snapshot) [
    | unexpected error ↦ (view, unexpected error)
    | value scene ↦ elim (instantiate_expanded V view.expanded_template snapshot) [
      | unexpected error ↦ (view, unexpected error)
      | value expanded_scene ↦ (
        record view {
          snapshot = some snapshot;
          views = some (record { compact = scene; expanded = expanded_scene });
        },
        value tt,
      )
    ]
  ]
