-- ===== src/Supervisor/Negotiation.antt =====
-- What a module may announce when it is ready, and what it may send afterwards: the checks of
-- `accept_ready` and of `handle_protocol_line`. A check is the violation that it finds, if it finds
-- one; the first one counts.
use gisland.Prelude.{
  if◌then◌else◌, is_some, is_empty, ℕ, String, Bool, true, false, not, ◌&&◌, ◌||◌, Option, none,
  some, List, [], ◌∷◌,
}
use gisland.Prelude.Int.{pos, ltb_ℤ, eqb_ℤ}
use gisland.Context.Types.{ViewTransitions, PresentationIntent}
use gisland.Context.Store.{string_eq, publish}
use gisland.Lifecycle.Types.{running, state_eq}
use gisland.Scene.Types.{SceneNode}
use gisland.Runtime.Types.{
  ProtocolVersion, ViewLanguage, ProtocolError, PublishMessage, ModuleMessage, ready_message,
  publish_message, data_message,
}
use gisland.Supervisor.Types.{ModuleProtocol, Instance}
use gisland.Supervisor.Features.{
  scene_uses_rich_content, scene_uses_text_input_features, scene_uses_indicator,
  scene_uses_indicator_effects, scene_uses_icon_role, scene_uses_progress_transition,
}

-- `<` on `ProtocolVersion`.
abbrev pub version_lt : ProtocolVersion → ProtocolVersion → Bool
version_lt a b = ltb_ℤ a.major b.major || eqb_ℤ a.major b.major && ltb_ℤ a.minor b.minor

-- Version 1.n.
abbrev pub version_1 : ℕ → ProtocolVersion
version_1 minor = record { major = pos 1; minor = pos minor }

-- `std::set::contains` on the elements in any order.
unfoldable pub has : String → List String → Bool
has name [] = false
has name (x ∷ xs) = string_eq x name || has name xs

abbrev pub violation_at : String → Option ProtocolError
violation_at path = some (record { path = path })

abbrev pub check : Bool → String → Option ProtocolError
check is_violation path = if is_violation then violation_at path else none

abbrev pub first_error : Option ProtocolError → Option ProtocolError → Option ProtocolError
first_error none next = next
first_error (some error) next = some error

-- The checks of a message one after the other, up to the first that fails.
unfoldable pub first_violation : List (Option ProtocolError) → Option ProtocolError
first_violation [] = none
first_violation (check ∷ checks) = first_error check (first_violation checks)

-- The checks of one announced capability.
unfoldable pub capability_error : List String → ProtocolVersion → String → Option ProtocolError
unfolding has
capability_error offered selected capability =
    let is = λ (name : String). string_eq capability name in
    let before = λ (minor : ℕ). version_lt selected (version_1 minor) in
    check
      (not (has capability offered)
        || is "context-images" && before 2
        || is "rich-content" && before 3
        || is "independent-views" && before 4
        || is "ring-progress" && before 5
        || is "status-indicator" && before 6
        || (is "compact-view-styles" || is "icon-roles" || is "progress-transitions") && before 7
        || is "indicator-effects" && before 9
        || is "content-transitions" && before 9
        || (is "text-input" || is "expanded-view-styles") && before 10
        || is "escape-action" && before 11)
      "/capabilities"

unfoldable pub capabilities_error :
    List String → ProtocolVersion → List String → Option ProtocolError
unfolding capability_error
capabilities_error offered selected [] = none
capabilities_error offered selected (capability ∷ capabilities) =
    first_error (capability_error offered selected capability)
      (capabilities_error offered selected capabilities)

-- The path of a part of the message.
abbrev pub view_path : Bool → String → String → String
view_path independent_views independent combined =
    if independent_views then independent else combined

abbrev pub transitions_path : ViewTransitions → Option String
transitions_path transitions =
    if is_some transitions.compact
    then some "/transitions/compact"
    else if is_some transitions.expanded
    then some "/transitions/expanded"
    else none

module _ {V : ViewLanguage} where
  unfoldable pub ready_error : Instance V → ProtocolVersion → List String → Option ProtocolError
  unfolding capabilities_error
  ready_error i selected capabilities =
      if version_lt selected i.request.init.minimum || version_lt i.request.init.maximum selected
      then violation_at "/protocol_major"
      else capabilities_error i.request.init.capabilities selected capabilities

  -- `!negotiated_version || *negotiated_version < version`.
  abbrev pub is_before : Instance V → ℕ → Bool
  is_before i minor = elim i.negotiated_version [
    | none ↦ true
    | some version ↦ version_lt version (version_1 minor)
  ]

  abbrev pub lacks : Instance V → String → Bool
  lacks i capability = not (has capability i.negotiated_capabilities)

  -- What needs a version and a capability, where it is used.
  unfoldable pub needs : Instance V → Option String → ℕ → String → Option ProtocolError
  needs i none minor capability = none
  needs i (some path) minor capability = check (is_before i minor || lacks i capability) path

  unfoldable pub transition_path : ModuleMessage V → Option String
  transition_path (publish_message message) = transitions_path message.transitions
  transition_path (data_message snapshot transitions) = transitions_path transitions
  transition_path _ = none

  abbrev pub is_ready : ModuleMessage V → Bool
  is_ready (ready_message version capabilities) = true
  is_ready _ = false

  abbrev pub is_data : ModuleMessage V → Bool
  is_data (data_message snapshot transitions) = true
  is_data _ = false

  module _ (P : ModuleProtocol V) where
    open P use {scene}

    abbrev pub view_uses : (SceneNode → Bool) → Option V.Scene → Bool
    view_uses predicate none = false
    view_uses predicate (some view) = predicate (scene view)

    unfoldable pub scene_feature_path : PublishMessage V → (SceneNode → Bool) → Option String
    scene_feature_path publish predicate =
        if view_uses predicate publish.compact
        then some (view_path publish.independent_views "/views/compact" "/compact")
        else if view_uses predicate publish.expanded
        then some (view_path publish.independent_views "/views/expanded" "/expanded")
        else none

    -- `indicator_path` is the same with its predicate.
    abbrev pub indicator_path : PublishMessage V → Option String
    indicator_path publish = scene_feature_path publish scene_uses_indicator

    -- The path of a field of the presentation that is given.
    abbrev pub presentation_path :
        PublishMessage V → (PresentationIntent → Option String) → String → Option String
    presentation_path publish field path = elim publish.presentation [
      | none ↦ none
      | some presentation ↦ if is_some (field presentation) then some path else none
    ]

    -- What a publication is checked for, in this order.
    abbrev pub publish_checks : Instance V → PublishMessage V → List (Option ProtocolError)
    publish_checks i publish =
        check (not (is_empty publish.resources) && lacks i "context-images") "/resources"
        ∷ check
            ((view_uses scene_uses_rich_content publish.compact
                || view_uses scene_uses_rich_content publish.expanded)
              && lacks i "rich-content")
            "/compact"
        ∷ check (publish.independent_views && lacks i "independent-views") "/views"
        ∷ check (publish.activation_only && is_before i 10) "/activation_only"
        ∷ needs i (scene_feature_path publish scene_uses_text_input_features) 10 "text-input"
        ∷ needs i (presentation_path publish (λ p. p.expanded_style) "/presentation/expanded_style")
            10 "expanded-view-styles"
        ∷ needs i
            (presentation_path publish (λ p. p.escape_action_id) "/presentation/escape_action_id")
            11 "escape-action"
        ∷ needs i (indicator_path publish) 6 "status-indicator"
        ∷ needs i (scene_feature_path publish scene_uses_indicator_effects) 9 "indicator-effects"
        ∷ needs i (presentation_path publish (λ p. p.compact_style) "/presentation/compact_style") 7
            "compact-view-styles"
        ∷ needs i (scene_feature_path publish scene_uses_icon_role) 7 "icon-roles"
        ∷ needs i (scene_feature_path publish scene_uses_progress_transition) 7
            "progress-transitions"
        ∷ []

    unfoldable pub publish_error : Instance V → PublishMessage V → Option ProtocolError
    unfolding needs scene_feature_path first_violation
    publish_error i publish = first_violation (publish_checks i publish)

    -- The checks that only a publication has to pass.
    unfoldable pub publication_error : Instance V → ModuleMessage V → Option ProtocolError
    unfolding publish_error
    publication_error i (publish_message publish) = publish_error i publish
    publication_error i _ = none

    -- The checks of a message after the first one, from the state on.
    unfoldable pub message_error : Instance V → ModuleMessage V → Option ProtocolError
    unfolding publication_error transition_path needs first_violation
    message_error i message = first_violation (
        check (is_ready message || not (state_eq i.lifecycle.state running)) "/type"
        ∷ check (is_data message && lacks i "data-snapshots") "/type"
        ∷ needs i (transition_path message) 9 "content-transitions"
        ∷ publication_error i message
        ∷ [])
