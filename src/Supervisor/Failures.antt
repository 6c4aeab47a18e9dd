-- ===== src/Supervisor/Failures.antt =====
-- What becomes of a stop while an instance is failing.
use gisland.Prelude.{
  case_option-elim, if-elim, String_discrete, ℕ, String, ◌≡◌, refl, sym, ap, ◌∙◌, subst, ◌≢◌, ◌⊎◌,
  true, false, some, List, [], ◌∷◌, arith,
}
use gisland.Prelude.Maps.{find}
use gisland.Lifecycle.Types.{
  stopped, starting, running, backoff, stopping, failed, StopCause, never, state_eq,
}
use gisland.Lifecycle.State.{ModuleLifecycle, is_failure}
use gisland.Lifecycle.Exit.{exited}
use gisland.Lifecycle.Backoff.{stop-exited, fail-exited}
use gisland.Runtime.Types.{ViewLanguage}
use gisland.Supervisor.Types.{ModuleProtocol, Instance, Supervisor, ProcessBackend}
use gisland.Supervisor.Work.{state_of}
use gisland.Supervisor.Fleet.{assign, find_instance}
use gisland.Supervisor.Commands.{handle_stop}
use gisland.Lifecycle
use gisland.Supervisor.Fleet

fail-stopping :
    (l : ModuleLifecycle) (reason : StopCause) (at : ℕ)
    → (l.state ≡ starting) ⊎ (l.state ≡ running)
    → is_failure reason ≡ true
    → (gisland.Lifecycle.fail l reason at).0.state ≡ stopping
unfolding gisland.Lifecycle.fail
fail-stopping l reason at live failure = ground arith

module _ {V : ViewLanguage} where
  assign-found :
      (key : String) (i : Instance V) (m : List (String × Instance V))
      → find String_discrete key m ≡ some i
      → assign key i m ≡ m
  unfolding find gisland.Supervisor.Fleet.assign
  assign-found key i [] e = refl
  assign-found key i ((k, u) ∷ m) e = ground (arith, assign-found key i m)

  state-same :
      (s : Supervisor V) (key : String) (i j : Instance V)
      → find_instance s key ≡ some i
      → find_instance s key ≡ some j
      → state_of j ≡ state_of i
  state-same s key i j found found' = cc

  stopping-ignored :
      (P : ModuleProtocol V) (B : ProcessBackend) (s : Supervisor V) (key : String) (i : Instance V)
      (now : ℕ)
      → find_instance s key ≡ some i
      → state_of i ≡ stopping
      → handle_stop P B s key now false ≡ s
  unfolding handle_stop
  stopping-ignored P B s key i now found h =
      case_option-elim (λ r. r ≡ s) (find_instance s key) _ _
        (λ absent. absurd (ground (arith, absent, found)))
        (λ j found'.
          if-elim (λ r. r ≡ s) (state_eq (state_of j) stopping) _ _
            (λ is_stopping.
              ap (λ m. record s { instances = m }) (assign-found key j s.instances found'))
            (λ other. absurd (ground (arith, other, h, state-same s key i j found found'))))

  -- A stop of an instance that is stopping because it has failed, after it was starting or running
  -- and with a policy that restarts it, changes nothing. So the end of its process puts the
  -- instance into `backoff`, to be restarted, or into `failed`, while the same stop before the
  -- failure has it `stopped`, whatever the process ends with and when.
  pub handle_stop-stopping :
      (P : ModuleProtocol V) (B : ProcessBackend) (s : Supervisor V) (key : String) (i : Instance V)
      (l : ModuleLifecycle) (reason cause : StopCause) (at now later : ℕ)
      → find_instance s key ≡ some i
      → (l.state ≡ starting) ⊎ (l.state ≡ running)
      → is_failure reason ≡ true
      → l.policy ≢ never
      → i.lifecycle ≡ (gisland.Lifecycle.fail l reason at).0
      → (handle_stop P B s key now false ≡ s)
        × (((exited i.lifecycle cause later).0.state ≡ failed)
            ⊎ ((exited i.lifecycle cause later).0.state ≡ backoff))
        × ((exited (gisland.Lifecycle.stop l at).0 cause later).0.state ≡ stopped)
  handle_stop-stopping P B s key i l reason cause at now later found live failure restarts failing =
      (
        stopping-ignored P B s key i now found
            (ap (λ m. m.state) failing ∙ fail-stopping l reason at live failure),
        subst
            (λ m.
              ((exited m cause later).0.state ≡ failed)
              ⊎ ((exited m cause later).0.state ≡ backoff))
            (sym failing) (fail-exited l reason cause at later live failure restarts),
        stop-exited l cause at later live,
      )
