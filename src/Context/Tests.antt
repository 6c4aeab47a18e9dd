-- ===== src/Context/Tests.antt =====
-- An arbiter of two contexts, and the theorems at concrete inputs. A scene is a number.
use gisland.Prelude.{
  if◌then◌else◌, String_discrete, ℕ, ◌≡◌, refl, inr, ite, true, false, Option, none, some, [], ◌∷◌,
  arith,
}
use gisland.Prelude.Maps.{keep_if, find, erase, insert_or_assign}
use gisland.Prelude.Int.{pos, negsuc}
use gisland.Context.Types.{ContextKey, compact, PublishedContext, ContextKey_discrete}
use gisland.Context.Store.{Entry, ContextArbiter, passed, make_defaults, dismiss, publish, expire}
use gisland.Context.Choice.{precedes, select, best_for_instance, best_in_slot, chosen}
use gisland.Context.{context_of, activated, activate, find_context, active}
use gisland.Context.Invariant.{IsValid, publish-IsValid}
use gisland.Context.Lookup.{visible, visible-publish, visible-dismiss}
use gisland.Context.Shown.{active-visible, activate-active}
use gisland.Context.Best.{active-IsShown}
use gisland.Context.Kinds.{IsShown}

abbrev clock : ContextKey
clock = record { instance_id = "clock"; context_id = "main" }

abbrev alert : ContextKey
alert = record { instance_id = "battery"; context_id = "low" }

abbrev clock_context : PublishedContext ℕ
clock_context = record {
  key = clock;
  priority = pos 0;
  expires_at = none;
  compact = some 1;
  expanded = none;
  resources = [];
  presentation = none;
  revision = 1;
  fallback_only = false;
  transitions = record { compact = none; expanded = none };
}

abbrev alert_context : PublishedContext ℕ
alert_context = record clock_context {
  key = alert;
  priority = negsuc 4;
  expires_at = some 90;
  compact = some 2;
}

abbrev arbiter : ContextArbiter ℕ
arbiter = record {
  default_context = clock;
  compact_default = "clock";
  expanded_default = "clock";
  sequence = 2;
  contexts =
      (alert, record { context = alert_context; sequence = 2 })
      ∷ (clock, record { context = clock_context; sequence = 1 })
      ∷ [];
  activation = none;
  activation_held = false;
}

-- The alert of another module is shown before the clock, the default, until it expires.
shows_alert : (active arbiter compact 10).1 ≡ some alert_context
unfolding active chosen best_in_slot expire keep_if select find precedes ContextKey_discrete
    String_discrete
shows_alert = refl

shows_clock : (active arbiter compact 90).1 ≡ some clock_context
unfolding active chosen best_in_slot expire keep_if select find precedes ContextKey_discrete
    String_discrete
shows_clock = refl

abbrev empty : ContextArbiter ℕ
empty = make_defaults "clock" "clock"

abbrev with_clock : ContextArbiter ℕ
with_clock = publish empty clock_context 0

abbrev with_alert : ContextArbiter ℕ
with_alert = publish with_clock alert_context 5

empty-IsValid : IsValid empty
unfolding make_defaults
empty-IsValid = record { distinct = tt; keyed = tt; sequenced = tt; numbered = tt }

with_clock-IsValid : IsValid with_clock
unfolding make_defaults
with_clock-IsValid = publish-IsValid empty clock_context 0 (omega arith) empty-IsValid

with_alert-IsValid : IsValid with_alert
unfolding make_defaults publish
with_alert-IsValid = publish-IsValid with_clock alert_context 5 (omega arith) with_clock-IsValid

active-IsShown_example :
    (r : Option (Entry ℕ)) × ((active with_alert compact 6).1 ≡ context_of r)
    × IsShown with_alert compact 6 r
active-IsShown_example = active-IsShown with_alert compact 6 with_alert-IsValid

visible-publish_example :
    visible (publish with_clock alert_context 5) clock 6
    ≡ ite
        (ContextKey_discrete alert clock)
        (if passed (some 90) 6 then none else some alert_context)
        (visible with_clock clock 6)
unfolding make_defaults publish
visible-publish_example =
    visible-publish with_clock alert_context clock 5 6 with_clock-IsValid (omega arith)
      (omega arith)

visible-dismiss_example :
    visible (dismiss with_clock clock) clock 6
    ≡ ite (ContextKey_discrete clock clock) none (visible with_clock clock 6)
visible-dismiss_example = visible-dismiss with_clock clock clock 6 with_clock-IsValid

active-visible_example : (visible with_clock clock 6 ≡ some clock_context) × (true ≡ true)
unfolding make_defaults publish insert_or_assign erase active chosen best_in_slot expire keep_if
    select find precedes ContextKey_discrete String_discrete
active-visible_example = active-visible with_clock compact 6 clock_context with_clock-IsValid refl

activate-active_example :
    (active (activate with_clock "clock" (some 50) 5).0 compact 6).1 ≡ some clock_context
unfolding make_defaults publish insert_or_assign erase activate activated best_for_instance expire
    keep_if select find find_context ContextKey_discrete String_discrete
activate-active_example =
    activate-active with_clock "clock" (some 50) 5 6 clock compact clock_context with_clock-IsValid
      refl (omega arith) refl refl (inr refl)
