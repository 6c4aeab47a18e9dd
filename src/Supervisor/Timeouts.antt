-- ===== src/Supervisor/Timeouts.antt =====
-- How long the loop waits: up to 20 ms, and not past a deadline of an instance.
use gisland.Prelude.{
  leb, ◌==◌, if◌then◌else◌, Bool-cases, case_option, case_option-elim, if-elim, ℕ, ◌-◌, ◌*◌, ◌/◌,
  ◌≤◌, ◌<◌, min, max, String, ◌≡◌, inl, inr, Option, none, some, List, [], ◌∷◌, arith,
}
use gisland.Prelude.Maps.{Entries}
use gisland.Lifecycle.State.{next_deadline}
use gisland.Runtime.Types.{ViewLanguage}
use gisland.Supervisor.Types.{Instance, Supervisor}
use gisland.Supervisor.Loop.{
  maximum_poll_interval, remaining_milliseconds, poll_timeout_from, poll_timeout,
}

-- A wait in milliseconds is none when the deadline has come, and else ends within a millisecond of
-- it or earlier.
abbrev pub Wakes : ℕ → ℕ → Option ℕ → Type 0
Wakes timeout now none = Unit {0}
Wakes timeout now (some deadline) =
    (deadline ≤ now → timeout ≡ 0)
    × (now < deadline → timeout * 1_000_000 ≤ max (deadline - now) 1_000_000)

remaining-bounded :
    (deadline now : ℕ)
    → now < deadline
    → remaining_milliseconds deadline now * 1_000_000 ≤ max (deadline - now) 1_000_000
unfolding remaining_milliseconds
remaining-bounded deadline now h =
    if-elim (λ r. r * 1_000_000 ≤ max (deadline - now) 1_000_000)
      ((deadline - now) / 1_000_000 == 0) _ _ (λ none_left. omega arith) (λ left. omega arith)

module _ {V : ViewLanguage} where
  timeout-shrinks :
      (timeout : ℕ) (instances : List (String × Instance V)) (now : ℕ)
      → poll_timeout_from timeout instances now ≤ timeout
  unfolding poll_timeout_from
  timeout-shrinks timeout [] now = ground arith
  timeout-shrinks timeout ((key, i) ∷ instances) now =
      case_option-elim (λ r. r ≤ timeout) (next_deadline i.lifecycle) _ _
        (λ idle. timeout-shrinks timeout instances now)
        (λ deadline due.
          if-elim (λ r. r ≤ timeout) (leb deadline now) _ _ (λ past. ground arith)
            (λ coming. ground (
              arith,
              timeout-shrinks (min timeout (remaining_milliseconds deadline now)) instances now,
            )))

  -- What the turn for one instance leaves of the bound, and what it leaves to the others.
  Wakes-one :
      (r timeout : ℕ) (deadline : Option ℕ) (instances : List (String × Instance V)) (now : ℕ)
      → r
        ≤ case_option deadline (poll_timeout_from timeout instances now) (λ deadline.
          if leb deadline now
          then 0
          else poll_timeout_from (min timeout (remaining_milliseconds deadline now)) instances now)
      → Wakes r now deadline × ((t : ℕ) × (r ≤ poll_timeout_from t instances now))
  Wakes-one r timeout none instances now h = (tt, (timeout, h))
  Wakes-one r timeout (some deadline) instances now h = elim (Bool-cases (leb deadline now)) [
    | inl past ↦
        let zero_wait : r ≡ 0 = ground (arith, h, past) in
        (
          (λ come. zero_wait, λ coming. ground (arith, zero_wait)),
          (timeout, ground (arith, zero_wait)),
        )
    | inr coming ↦
        let t = min timeout (remaining_milliseconds deadline now) in
        let bound : r ≤ poll_timeout_from t instances now = ground (arith, h, coming) in
        let below = timeout-shrinks t instances now in
        (
          (
            λ come. absurd (ground (arith, come, coming)),
            λ soon. ground (arith, bound, below, remaining-bounded deadline now soon),
          ),
          (t, bound),
        )
  ]

  Wakes-all :
      (r timeout : ℕ) (instances : List (String × Instance V)) (now : ℕ)
      → r ≤ poll_timeout_from timeout instances now
      → Entries (λ key i. Wakes r now (next_deadline i.lifecycle)) instances
  unfolding poll_timeout_from
  Wakes-all r timeout [] now h = tt
  Wakes-all r timeout ((key, i) ∷ instances) now h =
      let one = Wakes-one r timeout (next_deadline i.lifecycle) instances now h in
      (one.0, Wakes-all r one.1.0 instances now one.1.1)

  -- The loop waits for 20 ms at most, not at all once the deadline of an instance has come, and
  -- otherwise for no more than what is left until the deadline of each instance, or 1 ms if less
  -- than that is left.
  pub poll_timeout-Wakes :
      (s : Supervisor V) (now : ℕ)
      → (poll_timeout s now ≤ 20)
        × Entries (λ key i. Wakes (poll_timeout s now) now (next_deadline i.lifecycle)) s.instances
  unfolding poll_timeout
  poll_timeout-Wakes s now = (
    timeout-shrinks maximum_poll_interval s.instances now,
    Wakes-all (poll_timeout s now) maximum_poll_interval s.instances now (ground arith),
  )
