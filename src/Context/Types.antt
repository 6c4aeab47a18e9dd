-- ===== src/Context/Types.antt =====
-- The data of context.hpp, and `ImageResource` of scene.hpp. A context carries its scenes along and
-- nothing here looks into one, so the type of the scenes is a parameter.
use gisland.Prelude.{String_discrete, ℕ, String, ◌≡◌, ap, Bool, Option, List}
use gisland.Prelude.Int.{ℤ}

pub record ContextKey : Type 0 where
  pub instance_id : String
  pub context_id : String

keys_discrete :
    {a b : ContextKey}
    → Dec (a.instance_id ≡ b.instance_id)
    → Dec (a.context_id ≡ b.context_id)
    → Dec (a ≡ b)
keys_discrete (yes p) (yes q) = yes (λ i. record { instance_id = p i; context_id = q i })
keys_discrete (yes p) (no q) = no (λ e. q (ap (λ k. k.context_id) e))
keys_discrete (no p) d = no (λ e. p (ap (λ k. k.instance_id) e))

unfoldable pub ContextKey_discrete : Discrete ContextKey
unfolding keys_discrete String_discrete
ContextKey_discrete a b =
    keys_discrete (String_discrete a.instance_id b.instance_id)
      (String_discrete a.context_id b.context_id)

pub data ViewSlot : Type 0 where
  compact expanded : ViewSlot

pub data ContentTransition : Type 0 where
  crossfade slide_left slide_right : ContentTransition

pub record ViewTransitions : Type 0 where
  pub compact : Option ContentTransition
  pub expanded : Option ContentTransition

pub data Reveal : Type 0 where
  expanded_reveal : Reveal

pub record PresentationIntent : Type 0 where
  pub reveal : Option Reveal
  pub duration : Option ℕ
  pub compact_style : Option String
  pub expanded_style : Option String
  pub escape_action_id : Option String

pub data ImageFormat : Type 0 where
  rgba8 : ImageFormat

pub record ImageResource : Type 0 where
  pub id : String
  pub format : ImageFormat
  pub width : ℕ
  pub height : ℕ
  pub pixels : List ℕ

pub record PublishedContext (S : Type 0) : Type 0 where
  pub key : ContextKey
  pub priority : ℤ
  pub expires_at : Option ℕ
  pub compact : Option S
  pub expanded : Option S
  pub resources : List ImageResource
  pub presentation : Option PresentationIntent
  pub revision : ℕ
  pub fallback_only : Bool
  pub transitions : ViewTransitions
