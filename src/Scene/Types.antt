-- ===== src/Scene/Types.antt =====
-- The data of include/gisland/scene.hpp: the primitives and the tree of a view. A shared pointer to
-- a node is the node.
use gisland.Prelude.{String, Bool, Option, List}
use gisland.Prelude.Int.{ℤ}

pub record Text : Type 0 where
  pub value : String
  pub role : String
  pub truncation : String

pub record Icon : Type 0 where
  pub name : String
  pub accessible_label : String
  pub role : String

pub record Image : Type 0 where
  pub resource_id : String
  pub role : String
  pub accessible_label : String

pub data TextEmphasis : Type 0 where
  bold italic underline : TextEmphasis

pub record RichTextSpan : Type 0 where
  pub value : String
  pub emphasis : List TextEmphasis

pub record RichLinkSpan : Type 0 where
  pub value : String
  pub emphasis : List TextEmphasis
  pub action_id : String
  pub accessible_label : String

pub record RichInlineImage : Type 0 where
  pub resource_id : String
  pub role : String
  pub accessible_label : String

pub data RichContent : Type 0 where
  span : RichTextSpan → RichContent
  link : RichLinkSpan → RichContent
  inline_image : RichInlineImage → RichContent

pub record RichText : Type 0 where
  pub role : String
  pub content : List RichContent

pub record Spacer : Type 0 where
  pub flexible : Bool
  pub size_token : String

pub data ProgressShape : Type 0 where
  linear ring : ProgressShape

-- A `double`: a number `mantissa * 2 ^ exponent`, or none.
pub data Double : Type 0 where
  nan : Double
  infinite : Bool → Double
  finite : ℤ → ℤ → Double

pub record Progress : Type 0 where
  pub value : Double
  pub label : String
  pub state : String
  pub shape : ProgressShape
  pub transition_from : Option Double

pub data IndicatorEffect : Type 0 where
  shadow glow breathe : IndicatorEffect

pub record Indicator : Type 0 where
  pub state : String
  pub accessible_label : String
  pub effects : List IndicatorEffect

pub record TextInput : Type 0 where
  pub input_id : String
  pub action_id : String
  pub submit_action_id : Option String
  pub navigation_action_id : Option String
  pub initial_value : String
  pub placeholder : String
  pub accessible_label : String

-- The fields of a `Row` or a `Column` besides its children, and those of a `Button` or an
-- `ActionRegion` besides its content.
pub record Arrangement : Type 0 where
  pub alignment : String
  pub gap : String

pub record Activation : Type 0 where
  pub action_id : String
  pub enabled : Bool
  pub accessible_label : String
  pub close_on_activate : Bool

mutual
  pub data SceneNode : Type 0 where
    text : Text → SceneNode
    icon : Icon → SceneNode
    image : Image → SceneNode
    rich_text : RichText → SceneNode
    row : SceneChildren → Arrangement → SceneNode
    column : SceneChildren → Arrangement → SceneNode
    spacer : Spacer → SceneNode
    progress : Progress → SceneNode
    indicator : Indicator → SceneNode
    text_input : TextInput → SceneNode
    button : SceneNode → Activation → SceneNode
    action_region : SceneNode → Activation → SceneNode

  pub data SceneChildren : Type 0 where
    nil : SceneChildren
    cons : SceneNode → SceneChildren → SceneChildren
