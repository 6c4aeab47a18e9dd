-- ===== src/Supervisor/Features.antt =====
-- The features that a scene uses, which the protocol has negotiated or not.
-- `std::ranges::any_of` over the children is a recursion on them.
use gisland.Prelude.{is_some, is_empty, Bool, true, false, not, ◌||◌}
use gisland.Context.Store.{string_eq}
use gisland.Scene.Types.{
  SceneNode, icon, rich_text, row, column, progress, indicator, text_input, button, action_region,
  SceneChildren, nil, cons,
}

unfoldable mutual
  pub scene_uses_rich_content : SceneNode → Bool
  scene_uses_rich_content (rich_text _) = true
  scene_uses_rich_content (action_region _ _) = true
  scene_uses_rich_content (row children _) = any_uses_rich_content children
  scene_uses_rich_content (column children _) = any_uses_rich_content children
  scene_uses_rich_content (button content _) = scene_uses_rich_content content
  scene_uses_rich_content _ = false

  pub any_uses_rich_content : SceneChildren → Bool
  any_uses_rich_content nil = false
  any_uses_rich_content (cons child children) =
      scene_uses_rich_content child || any_uses_rich_content children

unfoldable mutual
  pub scene_uses_text_input_features : SceneNode → Bool
  scene_uses_text_input_features (text_input _) = true
  scene_uses_text_input_features (row children _) = any_uses_text_input_features children
  scene_uses_text_input_features (column children _) = any_uses_text_input_features children
  scene_uses_text_input_features (button content action) =
      action.close_on_activate || scene_uses_text_input_features content
  scene_uses_text_input_features (action_region content action) =
      action.close_on_activate || scene_uses_text_input_features content
  scene_uses_text_input_features _ = false

  pub any_uses_text_input_features : SceneChildren → Bool
  any_uses_text_input_features nil = false
  any_uses_text_input_features (cons child children) =
      scene_uses_text_input_features child || any_uses_text_input_features children

unfoldable mutual
  pub scene_uses_indicator : SceneNode → Bool
  scene_uses_indicator (indicator _) = true
  scene_uses_indicator (row children _) = any_uses_indicator children
  scene_uses_indicator (column children _) = any_uses_indicator children
  scene_uses_indicator (button content _) = scene_uses_indicator content
  scene_uses_indicator (action_region content _) = scene_uses_indicator content
  scene_uses_indicator _ = false

  pub any_uses_indicator : SceneChildren → Bool
  any_uses_indicator nil = false
  any_uses_indicator (cons child children) =
      scene_uses_indicator child || any_uses_indicator children

unfoldable mutual
  pub scene_uses_indicator_effects : SceneNode → Bool
  scene_uses_indicator_effects (indicator i) = not (is_empty i.effects)
  scene_uses_indicator_effects (row children _) = any_uses_indicator_effects children
  scene_uses_indicator_effects (column children _) = any_uses_indicator_effects children
  scene_uses_indicator_effects (button content _) = scene_uses_indicator_effects content
  scene_uses_indicator_effects (action_region content _) = scene_uses_indicator_effects content
  scene_uses_indicator_effects _ = false

  pub any_uses_indicator_effects : SceneChildren → Bool
  any_uses_indicator_effects nil = false
  any_uses_indicator_effects (cons child children) =
      scene_uses_indicator_effects child || any_uses_indicator_effects children

unfoldable mutual
  pub scene_uses_icon_role : SceneNode → Bool
  scene_uses_icon_role (icon i) = not (string_eq i.role "body")
  scene_uses_icon_role (row children _) = any_uses_icon_role children
  scene_uses_icon_role (column children _) = any_uses_icon_role children
  scene_uses_icon_role (button content _) = scene_uses_icon_role content
  scene_uses_icon_role (action_region content _) = scene_uses_icon_role content
  scene_uses_icon_role _ = false

  pub any_uses_icon_role : SceneChildren → Bool
  any_uses_icon_role nil = false
  any_uses_icon_role (cons child children) =
      scene_uses_icon_role child || any_uses_icon_role children

unfoldable mutual
  pub scene_uses_progress_transition : SceneNode → Bool
  scene_uses_progress_transition (progress p) = is_some p.transition_from
  scene_uses_progress_transition (row children _) = any_uses_progress_transition children
  scene_uses_progress_transition (column children _) = any_uses_progress_transition children
  scene_uses_progress_transition (button content _) = scene_uses_progress_transition content
  scene_uses_progress_transition (action_region content _) = scene_uses_progress_transition content
  scene_uses_progress_transition _ = false

  pub any_uses_progress_transition : SceneChildren → Bool
  any_uses_progress_transition nil = false
  any_uses_progress_transition (cons child children) =
      scene_uses_progress_transition child || any_uses_progress_transition children
