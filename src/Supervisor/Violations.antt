-- ===== src/Supervisor/Violations.antt =====
-- Violations of the protocol: how many an instance may make before it is stopped.
use gisland.Prelude.{
  leb, if◌then◌else◌, Bool-cases, length, length-append, ℕ, suc, ◌+◌, ◌≤◌, ◌≡◌, refl, sym, ap, ◌∙◌,
  subst, ◌↔◌, ◌⊎◌, inl, inr, true, false, List, [], ◌∷◌, ◌++◌, arith,
}
use gisland.Lifecycle.Types.{starting, running, stopping}
use gisland.Lifecycle.Failures.{Rises, snoc-Rises}
use gisland.Runtime.Types.{ViewLanguage, ProtocolError}
use gisland.Supervisor.Types.{Instance}
use gisland.Supervisor.Work.{
  Work, drop_before, is_live, state_of, emit_context_removal, complete_restart, emit_transition,
  failed_with, begin_failure, count_violation, violates_limit, record_violation,
}
use gisland.Lifecycle

-- How many of the times lie within the 60 s, in nanoseconds, that end `now`.
abbrev pub within_a_minute : ℕ → List ℕ → ℕ
within_a_minute now [] = 0
within_a_minute now (time ∷ times) =
    let rest = within_a_minute now times in
    if leb now (time + 60_000_000_000) then suc rest else rest

within_a_minute-all :
    (now low high : ℕ) (times : List ℕ)
    → now ≤ low + 60_000_000_000
    → Rises low times high
    → within_a_minute now times ≡ length times
within_a_minute-all now low high [] h r = refl
within_a_minute-all now low high (time ∷ times) h r =
    ground (arith, within_a_minute-all now time high times)

drop_before-count :
    (now low high : ℕ) (times : List ℕ)
    → Rises low times high
    → (length (drop_before now times) ≡ within_a_minute now times)
      × (within_a_minute now (drop_before now times) ≡ within_a_minute now times)
unfolding drop_before
drop_before-count now low high [] r = (refl, refl)
drop_before-count now low high (time ∷ times) r = (
  ground (arith, within_a_minute-all now time high times, drop_before-count now time high times),
  ground (arith, within_a_minute-all now time high times, drop_before-count now time high times),
)

drop_before-Rises :
    (now low high : ℕ) (times : List ℕ)
    → Rises low times high
    → Rises low (drop_before now times) high
unfolding drop_before
drop_before-Rises now low high [] r = r
drop_before-Rises now low high (time ∷ times) r =
    ground (
      arith,
      from_lower low time high (drop_before now times),
      drop_before-Rises now time high times,
    )
  where
    from_lower : (a b c : ℕ) (xs : List ℕ) → a ≤ b → Rises b xs c → Rises a xs c
    from_lower a b c [] h k = omega arith
    from_lower a b c (x ∷ xs) h k = (omega arith, k.1)

within_a_minute-snoc :
    (now : ℕ) (times : List ℕ)
    → within_a_minute now (times ++ now ∷ []) ≡ suc (within_a_minute now times)
within_a_minute-snoc now [] = ground arith
within_a_minute-snoc now (time ∷ times) = ground (arith, within_a_minute-snoc now times)

module _ {V : ViewLanguage} where
  -- Why a violation stops an instance: it is starting, it has violated twice before with no valid
  -- message in between, or nine times before within the last 60 s.
  abbrev pub IsOneTooMany : Instance V → ℕ → Type 0
  IsOneTooMany i now =
      (state_of i ≡ starting)
      ⊎ (3 ≤ i.consecutive_violations + 1)
      ⊎ (10 ≤ within_a_minute now i.violation_times + 1)

  counted :
      (i : Instance V) (now low high : ℕ)
      → Rises low i.violation_times high
      → (length (drop_before now i.violation_times ++ now ∷ [])
          ≡ within_a_minute now i.violation_times + 1)
        × (within_a_minute now (drop_before now i.violation_times ++ now ∷ [])
            ≡ within_a_minute now i.violation_times + 1)
  counted i now low high r =
      let (kept, same) = drop_before-count now low high i.violation_times r in
      (
        omega (arith, kept, length-append (drop_before now i.violation_times) (now ∷ [])),
        omega (arith, same, within_a_minute-snoc now (drop_before now i.violation_times)),
      )

  violates_limit_iff :
      (i : Instance V) (now low high : ℕ)
      → Rises low i.violation_times high
      → (violates_limit (count_violation i now) ≡ true) ↔ IsOneTooMany i now
  violates_limit_iff i now low high r = (
    λ h. ground (arith, h, counted i now low high r),
    λ h. ground (arith, h, counted i now low high r),
  )

  violation-stops :
      (w : Work V) (error : ProtocolError) (now : ℕ)
      → is_live (state_of w.inst) ≡ true
      → violates_limit (count_violation w.inst now) ≡ true
      → let i = (record_violation w error now).inst in
        (state_of i ≡ stopping)
        × (i.contexts_removed ≡ true)
        × (i.violation_times ≡ drop_before now w.inst.violation_times ++ now ∷ [])
  unfolding record_violation begin_failure failed_with emit_context_removal emit_transition
      complete_restart gisland.Lifecycle.fail
  violation-stops w error now h over = ground (arith, h, over)

  violation-counts :
      (w : Work V) (error : ProtocolError) (now : ℕ)
      → is_live (state_of w.inst) ≡ true
      → violates_limit (count_violation w.inst now) ≡ false
      → let i = (record_violation w error now).inst in
        (state_of i ≡ running)
        × (i.contexts_removed ≡ w.inst.contexts_removed)
        × (i.consecutive_violations ≡ w.inst.consecutive_violations + 1)
        × (i.violation_times ≡ drop_before now w.inst.violation_times ++ now ∷ [])
  unfolding record_violation
  violation-counts w error now h under = ground (arith, h, under)

  -- A violation by an instance that is starting stops it, and so does the third in a row or the
  -- tenth within 60 s of one that is running: its contexts are removed. Otherwise a running
  -- instance goes on with its contexts as they were, and the violation is counted, in the row and
  -- among those of the last 60 s. The times of the violations before rise to a time that is not
  -- after this violation, and with this one they rise again.
  pub record_violation-state :
      (w : Work V) (error : ProtocolError) (now low high : ℕ)
      → is_live (state_of w.inst) ≡ true
      → Rises low w.inst.violation_times high
      → high ≤ now
      → let i = (record_violation w error now).inst in
        Rises low i.violation_times now
        × (IsOneTooMany w.inst now → (state_of i ≡ stopping) × (i.contexts_removed ≡ true))
        × (¬ IsOneTooMany w.inst now
            → (state_of i ≡ running)
              × (i.contexts_removed ≡ w.inst.contexts_removed)
              × (i.consecutive_violations ≡ w.inst.consecutive_violations + 1)
              × (within_a_minute now i.violation_times
                  ≡ within_a_minute now w.inst.violation_times + 1))
  record_violation-state w error now low high h r k =
      elim (Bool-cases (violates_limit (count_violation w.inst now))) [
        | inl over ↦
            let facts = violation-stops w error now h over in
            (
              subst (λ times. Rises low times now) (sym facts.2) rises,
              λ _. (facts.0, facts.1),
              λ few. absurd (few (limit.0 over)),
            )
        | inr under ↦
            let facts = violation-counts w error now h under in
            (
              subst (λ times. Rises low times now) (sym facts.3) rises,
              λ many. absurd (ground (arith, under, limit.1 many)),
              λ _. (
                facts.0,
                facts.1,
                facts.2,
                ap (within_a_minute now) facts.3 ∙ (counted w.inst now low high r).1,
              ),
            )
      ]
    where
      limit : (violates_limit (count_violation w.inst now) ≡ true) ↔ IsOneTooMany w.inst now
      limit = violates_limit_iff w.inst now low high r

      rises : Rises low (drop_before now w.inst.violation_times ++ now ∷ []) now
      rises =
          snoc-Rises now low high (drop_before now w.inst.violation_times) k
            (drop_before-Rises now low high w.inst.violation_times r)
