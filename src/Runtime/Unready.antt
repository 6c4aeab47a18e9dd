-- ===== src/Runtime/Unready.antt =====
-- A message that does not say that its module is ready leaves an instance waiting for that.
use gisland.Prelude.{
  String_discrete, Expected, value, unexpected, ℕ, String, ◌≡◌, refl, ◌≢◌, Bool, true, false,
  Option, none, some, arith,
}
use gisland.Prelude.Maps.{find, find-insert_or_assign}
use gisland.Context.Types.{ViewTransitions, PublishedContext}
use gisland.Runtime.Types.{
  TemplateError, ViewLanguage, InstantiatedViews, ModuleViewState, ModuleMessage, ready_message,
  publish_message, dismiss_message, action_result_message, log_message, data_message,
  ModuleMessageEvent,
}
use gisland.Runtime.State.{RuntimeCoordinator, apply}
use gisland.Runtime.Messages.{
  remember_replacement, replace, published, consume_data, consume_message,
}
use gisland.Runtime.Results.{configured_find}

module _ {V : ViewLanguage} where
  -- Whether a message says that the module is ready.
  abbrev pub says_ready : ModuleMessage V → Bool
  says_ready (ready_message _ _) = true
  says_ready _ = false

  -- The instance is known and enabled, and its process has not said that it is ready.
  abbrev pub IsWaiting : String → ℕ → RuntimeCoordinator V → Type 0
  IsWaiting instance_id generation r =
      (configured_find instance_id r.configured_instances ≡ some true)
      × (find String_discrete instance_id r.process_generations ≡ some generation)
      × (find String_discrete instance_id r.negotiated_protocols ≡ none)

  -- What a publication leaves alone.
  abbrev SameSessions : RuntimeCoordinator V → RuntimeCoordinator V → Type 0
  SameSessions r r' =
      (r'.configured_instances ≡ r.configured_instances)
      × (r'.process_generations ≡ r.process_generations)
      × (r'.negotiated_protocols ≡ r.negotiated_protocols)

  replace-SameSessions :
      (r : RuntimeCoordinator V) (context : PublishedContext V.Scene) (now : ℕ)
      → SameSessions r (replace r context now)
  unfolding replace remember_replacement
  replace-SameSessions r context now = (ground arith, ground arith, ground arith)

  consume_data-SameSessions :
      (r : RuntimeCoordinator V) (instance_id : String) (now : ℕ) (transitions : ViewTransitions)
      (applied : ModuleViewState V × Expected (Unit {0}) TemplateError)
      → SameSessions r (consume_data r instance_id now transitions applied).0
  unfolding consume_data
  consume_data-SameSessions r instance_id now transitions (view, unexpected error) =
      (refl, refl, refl)
  consume_data-SameSessions r instance_id now transitions (view, value _) = by_views view.views refl
    where
      by_views :
          (o : Option (InstantiatedViews V))
          → view.views ≡ o
          → SameSessions r (consume_data r instance_id now transitions (view, value tt)).0
      by_views none e = rw (consume_data, e) (refl, refl, refl)
      by_views (some views) e = rw (consume_data, e) (replace-SameSessions _ _ now)

  SameSessions-IsWaiting :
      (instance_id : String) (generation : ℕ) (r r' : RuntimeCoordinator V)
      → SameSessions r r'
      → IsWaiting instance_id generation r
      → IsWaiting instance_id generation r'
  SameSessions-IsWaiting instance_id generation r r' same waits =
      (ground (arith, same, waits), ground (arith, same, waits), ground (arith, same, waits))

  pub consume_message-IsWaiting :
      (instance_id : String) (generation : ℕ) (r : RuntimeCoordinator V)
      (event : ModuleMessageEvent V)
      → (event.instance_id ≡ instance_id → says_ready event.message ≡ false)
      → IsWaiting instance_id generation r
      → IsWaiting instance_id generation (consume_message r event).0
  unfolding consume_message
  consume_message-IsWaiting instance_id generation r event quiet waits =
      by_message event.message quiet
    where
      sent : ModuleMessage V → ModuleMessageEvent V
      sent message = record event { message = message }

      by_view :
          (snapshot : V.Json) (transitions : ViewTransitions) (o : Option (ModuleViewState V))
          → find String_discrete event.instance_id r.views ≡ o
          → SameSessions r (consume_message r (sent (data_message snapshot transitions))).0
      by_view snapshot transitions none e = rw (consume_message, e) (refl, refl, refl)
      by_view snapshot transitions (some view) e =
          rw (consume_message, e)
            (consume_data-SameSessions r event.instance_id event.at transitions
              (apply view snapshot))

      by_message :
          (message : ModuleMessage V)
          → (event.instance_id ≡ instance_id → says_ready message ≡ false)
          → IsWaiting instance_id generation (consume_message r (sent message)).0
      by_message (ready_message protocol capabilities) h =
          let other : event.instance_id ≢ instance_id = λ same. absurd (ground (arith, h same)) in
          (
            waits.0,
            ground (
              arith,
              other,
              waits,
              find-insert_or_assign String_discrete event.instance_id instance_id event.generation
                  r.process_generations,
            ),
            ground (
              arith,
              other,
              waits,
              find-insert_or_assign String_discrete event.instance_id instance_id protocol
                  r.negotiated_protocols,
            ),
          )
      by_message (publish_message message) h =
          SameSessions-IsWaiting instance_id generation r
            (replace r (published r event.instance_id message event.at) event.at)
            (replace-SameSessions r (published r event.instance_id message event.at) event.at) waits
      by_message (dismiss_message context_id) h = waits
      by_message action_result_message h = waits
      by_message log_message h = waits
      by_message (data_message snapshot transitions) h =
          SameSessions-IsWaiting instance_id generation r
            (consume_message r (sent (data_message snapshot transitions))).0
            (by_view snapshot transitions (find String_discrete event.instance_id r.views) refl)
            waits
