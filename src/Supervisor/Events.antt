-- ===== src/Supervisor/Events.antt =====
-- The queue of events: logs may be dropped or merged, nothing else may.
use gisland.Prelude.{
  leb, if◌then◌else◌, is_some, case_option-elim, if-elim, length, ℕ, ◌+◌, ◌≤◌, ◌≡◌, refl, sym, ap,
  ◌∙◌, ◌⊎◌, inl, some, List, [], ◌∷◌, ◌++◌, arith,
}
use gisland.Runtime.Types.{ViewLanguage, StderrLogEvent, SupervisorEvent, stderr_log}
use gisland.Supervisor.Queue.{
  event_capacity, is_same_log, as_log, count_repeat, count_last, last_log, drop_log, emit_log, emit,
}
use mathlib.Core.List.{append-nil}

module _ {V : ViewLanguage} where
  -- The events that are no logs, in their order.
  abbrev pub critical : List (SupervisorEvent V) → List (SupervisorEvent V)
  critical [] = []
  critical (event ∷ events) =
      if is_some (as_log event) then critical events else event ∷ critical events

  abbrev pub count_logs : List (SupervisorEvent V) → ℕ
  count_logs [] = 0
  count_logs (event ∷ events) = (if is_some (as_log event) then 1 else 0) + count_logs events

  critical-append :
      (events others : List (SupervisorEvent V))
      → critical (events ++ others) ≡ critical events ++ critical others
  critical-append [] others = refl
  critical-append (event ∷ events) others = ground (arith, critical-append events others)

  critical-count_repeat :
      (incoming : StderrLogEvent) (events : List (SupervisorEvent V))
      → critical (count_repeat incoming events) ≡ critical events
  unfolding count_repeat
  critical-count_repeat incoming [] = refl
  critical-count_repeat incoming (event ∷ events) =
      ground (arith, critical-count_repeat incoming events)

  critical-count_last :
      (incoming : StderrLogEvent) (events : List (SupervisorEvent V))
      → critical (count_last incoming events) ≡ critical events
  unfolding count_last
  critical-count_last incoming [] = refl
  critical-count_last incoming (event ∷ []) = critical-count_repeat incoming (event ∷ [])
  critical-count_last incoming (event ∷ other ∷ events) =
      ground (arith, critical-count_last incoming (other ∷ events))

  critical-drop_log :
      (events : List (SupervisorEvent V)) → critical (drop_log events) ≡ critical events
  unfolding drop_log
  critical-drop_log [] = refl
  critical-drop_log (event ∷ events) = ground (arith, critical-drop_log events)

  length-count_repeat :
      (incoming : StderrLogEvent) (events : List (SupervisorEvent V))
      → (length (count_repeat incoming events) ≡ length events)
        × (count_logs (count_repeat incoming events) ≡ count_logs events)
  unfolding count_repeat
  length-count_repeat incoming [] = (refl, refl)
  length-count_repeat incoming (event ∷ events) =
      ground (arith, length-count_repeat incoming events)

  length-count_last :
      (incoming : StderrLogEvent) (events : List (SupervisorEvent V))
      → (length (count_last incoming events) ≡ length events)
        × (count_logs (count_last incoming events) ≡ count_logs events)
  unfolding count_last
  length-count_last incoming [] = (refl, refl)
  length-count_last incoming (event ∷ []) = length-count_repeat incoming (event ∷ [])
  length-count_last incoming (event ∷ other ∷ events) =
      ground (arith, length-count_last incoming (other ∷ events))

  length-add :
      (events : List (SupervisorEvent V)) (event : SupervisorEvent V)
      → (length (events ++ event ∷ []) ≡ length events + 1)
        × (count_logs (events ++ event ∷ []) ≡ count_logs events + count_logs (event ∷ []))
  length-add [] event = ground arith
  length-add (first ∷ events) event = ground (arith, length-add events event)

  length-drop_log :
      (events : List (SupervisorEvent V))
      → ((count_logs events ≡ 0) × (count_logs (drop_log events) ≡ 0))
        ⊎ ((length (drop_log events) + 1 ≡ length events)
            × (count_logs (drop_log events) + 1 ≡ count_logs events))
  unfolding drop_log
  length-drop_log [] = inl (refl, refl)
  length-drop_log (event ∷ events) = ground (arith, length-drop_log events)

  -- What `emit` does with a log and with any other event.
  emit-log :
      (events : List (SupervisorEvent V)) (incoming : StderrLogEvent)
      → critical (emit_log events incoming) ≡ critical events
  unfolding emit_log
  emit-log events incoming =
      if-elim (λ r. critical r ≡ critical events) (is_same_log incoming (last_log events)) _ _
        (λ again. critical-count_last incoming events)
        (λ other.
          if-elim (λ r. critical r ≡ critical events) (leb event_capacity (length events)) _ _
            (λ full. critical-count_repeat incoming events)
            (λ room.
              critical-append events (stderr_log incoming ∷ []) ∙ append-nil (critical events)))

  critical-log :
      (events : List (SupervisorEvent V)) (event : SupervisorEvent V) {incoming : StderrLogEvent}
      → as_log event ≡ some incoming
      → critical events ++ critical (event ∷ []) ≡ critical events
  critical-log events event e = simp e (append-nil (critical events))

  -- However full the queue is, an event that is no log is kept, in its place, and only logs are
  -- merged or dropped: the others come out as they were emitted.
  pub emit-critical :
      (events : List (SupervisorEvent V)) (event : SupervisorEvent V)
      → critical (emit events event) ≡ critical events ++ critical (event ∷ [])
  unfolding emit
  emit-critical events event =
      case_option-elim (λ r. critical r ≡ critical events ++ critical (event ∷ [])) (as_log event) _
        _
        (λ other.
          if-elim (λ r. critical r ≡ critical events ++ critical (event ∷ []))
            (leb event_capacity (length events)) _ _
            (λ full.
              critical-append (drop_log events) (event ∷ [])
              ∙ ap (λ c. c ++ critical (event ∷ [])) (critical-drop_log events))
            (λ room. critical-append events (event ∷ [])))
        (λ incoming log. emit-log events incoming ∙ sym (critical-log events event log))

  -- A queue is bounded: it has at most 4096 events, or no logs are in it.
  abbrev pub IsBounded : List (SupervisorEvent V) → Type 0
  IsBounded events = (length events ≤ event_capacity) ⊎ (count_logs events ≡ 0)

  -- A queue that is bounded stays bounded: only events that may not be dropped exceed the 4096.
  pub emit-IsBounded :
      (events : List (SupervisorEvent V)) (event : SupervisorEvent V)
      → IsBounded events
      → IsBounded (emit events event)
  unfolding emit emit_log
  emit-IsBounded events event h =
      case_option-elim IsBounded (as_log event) _ _
        (λ other.
          if-elim IsBounded (leb event_capacity (length events)) _ _
            (λ full.
              ground
                (arith, h, full, length-drop_log events, length-add (drop_log events) event, other))
            (λ room. ground (arith, h, room, length-add events event)))
        (λ incoming log.
          if-elim IsBounded (is_same_log incoming (last_log events)) _ _
            (λ again. ground (arith, h, length-count_last incoming events))
            (λ other.
              if-elim IsBounded (leb event_capacity (length events)) _ _
                (λ full. ground (arith, h, length-count_repeat incoming events))
                (λ room. ground (arith, h, room, length-add events (stderr_log incoming)))))
