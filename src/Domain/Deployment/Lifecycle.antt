-- ===== src/Domain/Deployment/Lifecycle.antt =====
-- The life of a deployment: pending, running, then failed or succeeded.
use seelf.Prelude.{
  ℕ, String, ◌≡◌, ◌⊎◌, refl, true, Option, none, some, List, [], ◌∷◌, arith, is_some, Error,
  message, ok, get_or, if◌then◌else◌,
}
use seelf.Pkg.Action.{Time}
use seelf.Pkg.Event.{run, run-Inv}
use seelf.Domain.Values.{Environment, SourceData}
use seelf.Domain.Services.{Service}
use seelf.Domain.App.{App}
use seelf.Domain.DeploymentState.{
  DeploymentStatus, pending, running, failed, succeeded, zero_state, deployment_status_eq,
}
use seelf.Domain.Deployment.{Deployment, new_deployment, has_started, has_ended}

pub data Call : Type 0 where
  starts : Time → Call
  ends : Option (List Service) → Option Error → Time → Call

unfoldable pub call : Deployment → Call → Deployment
call d (starts now) = (has_started d now).0
call d (ends services e now) = (has_ended d services e now).0

unfoldable pub outcome : Deployment → Call → Option Error
outcome d (starts now) = (has_started d now).1
outcome d (ends services e now) = (has_ended d services e now).1

-- The diagram of the statuses.
infix 40 ◌⟶◌
pub data ◌⟶◌ : DeploymentStatus → DeploymentStatus → Type 0 where
  begin : pending ⟶ running
  break_down : running ⟶ failed
  complete : running ⟶ succeeded

-- A call without an error follows an edge of the diagram; one with an error changes nothing.
pub call_edge :
    (d : Deployment) (c : Call)
    → ((outcome d c ≡ none) × (d.state.status ⟶ (call d c).state.status))
      ⊎ ((is_some (outcome d c) ≡ true) × (call d c ≡ d))
unfolding call outcome has_started has_ended
call_edge d (starts now) = grind (arith, begin, break_down, complete)
call_edge d (ends services (some e) now) = grind (arith, begin, break_down, complete)
call_edge d (ends none none now) = grind (arith, begin, break_down, complete)
call_edge d (ends (some services) none now) = grind (arith, begin, break_down, complete)

-- What the fields of a state hold, by its status.
pub record Inv (d : Deployment) : Type 0 where
  pub at_pending : d.state.status ≡ pending → d.state ≡ zero_state
  pub at_running :
      d.state.status ≡ running
      → (is_some d.state.started_at ≡ true)
        × (d.state.finished_at ≡ none)
        × (d.state.errcode ≡ none)
        × (d.state.services ≡ none)
  pub at_failed :
      d.state.status ≡ failed
      → (is_some d.state.started_at ≡ true)
        × (is_some d.state.finished_at ≡ true)
        × (is_some d.state.errcode ≡ true)
        × (d.state.services ≡ none)
  pub at_succeeded :
      d.state.status ≡ succeeded
      → (is_some d.state.started_at ≡ true)
        × (is_some d.state.finished_at ≡ true)
        × (d.state.errcode ≡ none)
        × (is_some d.state.services ≡ true)

deployment_call-Inv : (d : Deployment) (c : Call) → Inv d → Inv (call d c)
unfolding call has_started has_ended
deployment_call-Inv d (starts now) v = ground arith
deployment_call-Inv d (ends services (some e) now) v = ground arith
deployment_call-Inv d (ends none none now) v = ground arith
deployment_call-Inv d (ends (some services) none now) v = ground arith

new_deployment-Inv :
    (a : App) (n : ℕ) (meta : SourceData) (env : Environment) (by : String) (now : Time)
    (d : Deployment)
    → new_deployment a n meta env by now ≡ ok d
    → Inv d
unfolding new_deployment
new_deployment-Inv a n meta env by now d h = ground arith

-- A deployment created from an application, whatever calls follow: while it is pending nothing is
-- recorded; running, it has a start and no result; failed, an error and no services; succeeded,
-- services and no error; and finished, an end.
pub deployment-Inv :
    (a : App) (n : ℕ) (meta : SourceData) (env : Environment) (by : String) (now : Time)
    (d : Deployment) (cs : List Call)
    → new_deployment a n meta env by now ≡ ok d
    → Inv (run call d cs)
deployment-Inv a n meta env by now d cs h =
    run-Inv call Inv deployment_call-Inv d cs (new_deployment-Inv a n meta env by now d h)

abbrev pub IsOver : Deployment → Type 0
IsOver d = (d.state.status ≡ failed) ⊎ (d.state.status ≡ succeeded)

over_step : (d : Deployment) (c : Call) → IsOver d → call d c ≡ d
unfolding call has_started has_ended
over_step d (starts now) o = ground arith
over_step d (ends services (some e) now) o = ground arith
over_step d (ends none none now) o = ground arith
over_step d (ends (some services) none now) o = ground arith

-- A deployment that has failed or succeeded stays as it is, whatever is called on it.
pub over_absorbs : (d : Deployment) (cs : List Call) → IsOver d → run call d cs ≡ d
unfolding run
over_absorbs d [] o = refl
over_absorbs d (c ∷ cs) o = rw (over_step d c o) (over_absorbs d cs o)

-- A pending deployment that starts and then ends is over: failed with the text of the error if one
-- is given, and otherwise succeeded, with no services at all where none are given.
pub start_end :
    (d : Deployment) (t t' : Time) (services : Option (List Service)) (e : Option Error)
    → d.state.status ≡ pending
    → let s = (run call d (starts t ∷ ends services e t' ∷ [])).state in
      (s.status ≡ (if is_some e then failed else succeeded))
      × (s.started_at ≡ some t)
      × (s.finished_at ≡ some t')
      × (s.services ≡ (if is_some e then d.state.services else some (get_or services [])))
      × (s.errcode ≡ (elim e [ none ↦ d.state.errcode | some cause ↦ some (message cause) ]))
unfolding run call has_started has_ended
start_end d t t' services (some e) h = ground arith
start_end d t t' none none h = ground arith
start_end d t t' (some services) none h = ground arith
