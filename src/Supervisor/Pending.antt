-- ===== src/Supervisor/Pending.antt =====
-- The loop over the starts that wait for room.
use gisland.Prelude.{
  if◌then◌else◌, if-elim, length, All, ℕ, zero, suc, ◌≤◌, ◌≡◌, refl, sym, ap, ◌∙◌, subst, ◌⊎◌, inl,
  true, false, not, ◌||◌, List, [], ◌∷◌, ◌++◌, arith,
}
use gisland.Runtime.Types.{ViewLanguage}
use gisland.Supervisor.Types.{ModuleStartRequest, ModuleProtocol, Supervisor, ProcessBackend}
use gisland.Supervisor.Fleet.{has_room, handle_start}
use gisland.Supervisor.Reconfigure.{with_pending, start_while, start_pending_reconfiguration}
use gisland.Supervisor.Started.{
  HasInstance, HasInstances, handle_start-pending, handle_start-HasInstance,
}

module _ {V : ViewLanguage} where
  -- The loop is over: nothing is pending, or nothing more may start.
  abbrev pub IsOver : Supervisor V → Type 0
  IsOver s =
      (s.pending_reconfiguration_starts ≡ []) ⊎ (s.global_shutdown ≡ true) ⊎ (has_room s ≡ false)

  -- The loop is over, and the starts that it took from the front of those that were pending have
  -- their instances.
  abbrev pub Settled : Supervisor V → Supervisor V → Type 0
  Settled s s' =
      IsOver s'
      × ((taken : List (ModuleStartRequest V)) × (s.pending_reconfiguration_starts
            ≡ taken ++ s'.pending_reconfiguration_starts)
          × All (λ request. HasInstance s' request.instance_id) taken)
      × HasInstances s s'

module _ {V : ViewLanguage} (P : ModuleProtocol V) (B : ProcessBackend) where
  go_on :
      (s : Supervisor V) (request : ModuleStartRequest V) (pending : List (ModuleStartRequest V))
      (now : ℕ) (s' : Supervisor V)
      → s.pending_reconfiguration_starts ≡ request ∷ pending
      → s.global_shutdown || not (has_room s) ≡ false
      → Settled (handle_start P B (with_pending s pending) request now) s'
      → Settled s s'
  go_on s request pending now s' e go (over, (taken, split, there), kept) =
      let started =
        handle_start-HasInstance P B (with_pending s pending) request now (ground (arith, go))
          (ground (arith, go)) in
      let same = handle_start-pending P B (with_pending s pending) request now in
      (
        over,
        (
          request ∷ taken,
          e ∙ ap (λ rest. request ∷ rest) (sym same.0 ∙ split),
          (kept request.instance_id started.0, there),
        ),
        λ key here. kept key (started.1 key here),
      )

  start_while-Settled :
      (turns : ℕ) (s : Supervisor V) (now : ℕ)
      → length s.pending_reconfiguration_starts ≤ turns
      → Settled s (start_while P B turns s now)
  unfolding start_while
  start_while-Settled zero s now h =
      (inl (length-zero s.pending_reconfiguration_starts h), ([], refl, tt), λ key there. there)
    where
      length-zero : (xs : List (ModuleStartRequest V)) → length xs ≤ 0 → xs ≡ []
      length-zero [] k = refl
      length-zero (x ∷ xs) k = absurd (omega arith)
  start_while-Settled (suc turns) s now h =
      by_pending s.pending_reconfiguration_starts refl
        (λ s' h'. start_while-Settled turns s' now h')
    where
      by_pending :
          (pending : List (ModuleStartRequest V))
          → s.pending_reconfiguration_starts ≡ pending
          → ((s' : Supervisor V)
              → length s'.pending_reconfiguration_starts ≤ turns
              → Settled s' (start_while P B turns s' now))
          → Settled s (start_while P B (suc turns) s now)
      by_pending [] e rest =
          let turn : start_while P B (suc turns) s now ≡ s =
            unfold start_while in ground (arith, e) in
          subst (Settled s) (sym turn) (inl e, ([], refl, tt), λ key there. there)
      by_pending (request ∷ pending) e rest = subst (Settled s) (sym turn) (
          if-elim (Settled s) (s.global_shutdown || not (has_room s)) _ _
            (λ stay. (ground (arith, stay), ([], refl, tt), λ key there. there))
            (λ go. go_on s request pending now after e go (rest started (fewer request pending e))))
        where
          started : Supervisor V
          started = handle_start P B (with_pending s pending) request now

          after : Supervisor V
          after = start_while P B turns started now

          turn :
              start_while P B (suc turns) s now
              ≡ (if s.global_shutdown || not (has_room s) then s else after)
          turn = unfold start_while in ground (arith, e)

          fewer :
              (request : ModuleStartRequest V) (pending : List (ModuleStartRequest V))
              → s.pending_reconfiguration_starts ≡ request ∷ pending
              → length
                  (handle_start P B
                    (with_pending s pending)
                    request
                    now).pending_reconfiguration_starts
                ≤ turns
          fewer request pending e =
              let same = handle_start-pending P B (with_pending s pending) request now in
              let shorter : length s.pending_reconfiguration_starts ≡ suc (length pending) =
                ap length e in
              let equal : length
                    (handle_start P B (with_pending s pending) request
                      now).pending_reconfiguration_starts
                  ≡ length pending =
                ap length same.0 in
              omega (arith, shorter, equal)

  -- The loop over the pending starts ends in as many turns as there are such starts. Then nothing
  -- is pending, the supervisor is in a shutdown, or 32 instances are active; and of the starts
  -- that were pending those at the front were taken, in order, and have their instances, while the
  -- others are still pending and no instance went away.
  pub start_pending-Settled :
      (s : Supervisor V) (now : ℕ) → Settled s (start_pending_reconfiguration P B s now)
  unfolding start_pending_reconfiguration
  start_pending-Settled s now =
      start_while-Settled (length s.pending_reconfiguration_starts) s now (omega arith)
