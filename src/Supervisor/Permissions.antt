-- ===== src/Supervisor/Permissions.antt =====
-- What a module may publish: exactly what it has negotiated.
use gisland.Prelude.{
  is_some, is_empty, ℕ, String, ◌≡◌, ◌↔◌, Bool, true, false, not, ◌||◌, Option, none, some, List,
  [], ◌∷◌, arith,
}
use gisland.Runtime.Types.{ViewLanguage, ProtocolError, PublishMessage}
use gisland.Supervisor.Types.{ModuleProtocol, Instance}
use gisland.Supervisor.Negotiation.{has, check, is_before, view_uses}
use gisland.Context.Types.{PresentationIntent}
use gisland.Scene.Types.{SceneNode}
use gisland.Supervisor.Features.{
  scene_uses_rich_content, scene_uses_text_input_features, scene_uses_indicator,
  scene_uses_indicator_effects, scene_uses_icon_role, scene_uses_progress_transition,
}

-- Whether a field of the presentation is given.
abbrev pub presents : Option PresentationIntent → (PresentationIntent → Option String) → Bool
presents none field = false
presents (some presentation) field = is_some (field presentation)

-- No check fails.
abbrev Passes : List (Option ProtocolError) → Type 0
Passes [] = Unit {0}
Passes (check ∷ checks) = (check ≡ none) × Passes checks

check_iff : (test : Bool) (path : String) → (check test path ≡ none) ↔ (test ≡ false)
check_iff test path = ground arith

module _ {V : ViewLanguage} where
  -- The capability was announced with the version, or the version alone is high enough.
  abbrev pub Has : Instance V → String → Type 0
  Has i capability = has capability i.negotiated_capabilities ≡ true

  abbrev pub Reaches : Instance V → ℕ → Type 0
  Reaches i minor = is_before i minor ≡ false

  -- Where a feature is used, its version and its capability have been negotiated.
  abbrev pub Negotiated : Instance V → Option String → ℕ → String → Type 0
  Negotiated i path minor capability = is_some path ≡ true → Reaches i minor × Has i capability

  module _ (P : ModuleProtocol V) where
    -- Whether a view of the publication uses a feature.
    abbrev pub Uses : PublishMessage V → (SceneNode → Bool) → Type 0
    Uses publish feature =
        (view_uses P feature publish.compact || view_uses P feature publish.expanded) ≡ true

    abbrev pub Presents : PublishMessage V → (PresentationIntent → Option String) → Type 0
    Presents publish field = presents publish.presentation field ≡ true

    -- What the checks ask of the features that a publication uses: for each the capability, the
    -- version or both. A ring progress is not among them.
    abbrev pub MayPublish : Instance V → PublishMessage V → Type 0
    MayPublish i publish =
        (not (is_empty publish.resources) ≡ true → Has i "context-images")
        × ((Uses publish scene_uses_rich_content → Has i "rich-content")
            × ((publish.independent_views ≡ true → Has i "independent-views")
                × ((publish.activation_only ≡ true → Reaches i 10)
                    × ((Uses publish scene_uses_text_input_features
                          → Reaches i 10 × Has i "text-input")
                        × ((Presents publish (λ p. p.expanded_style)
                              → Reaches i 10 × Has i "expanded-view-styles")
                            × ((Presents publish (λ p. p.escape_action_id)
                                  → Reaches i 11 × Has i "escape-action")
                                × ((Uses publish scene_uses_indicator
                                      → Reaches i 6 × Has i "status-indicator")
                                    × ((Uses publish scene_uses_indicator_effects
                                          → Reaches i 9 × Has i "indicator-effects")
                                        × ((Presents publish (λ p. p.compact_style)
                                              → Reaches i 7 × Has i "compact-view-styles")
                                            × ((Uses publish scene_uses_icon_role
                                                  → Reaches i 7 × Has i "icon-roles")
                                                × (Uses publish scene_uses_progress_transition
                                                    → Reaches i 7
                                                      × Has i "progress-transitions")))))))))))
