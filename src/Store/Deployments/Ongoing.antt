-- ===== src/Store/Deployments/Ongoing.antt =====
-- The two questions that a cleanup asks the table of deployments
-- (internal/deployment/infra/sqlite/deployments.go), against what holds of its rows.
use seelf.Prelude.{
  String, Bool, true, false, ◌≡◌, ◌≢◌, ◌↔◌, ◌⊎◌, inl, inr, refl, arith, ◌&&◌, ◌==◌, string_eq, leb,
  ◌≤◌, List, [], ◌∷◌, any, All, Any, Bool-cases,
}
use seelf.Pkg.Action.{Time}
use seelf.Domain.Values.{Environment}
use seelf.Domain.DeploymentState.{DeploymentStatus, failed, succeeded, deployment_status_eq}
use seelf.Store.Deployments.{
  DeploymentRow, Deployments, is_ongoing, is_on, has_ongoing_on_target,
  has_deployments_on_app_target_env,
}

-- A deployment with this status has come to its end.
abbrev pub Over : DeploymentStatus → Type 0
Over s = (s ≡ failed) ⊎ (s ≡ succeeded)

-- The deployment is another application's, or of another environment, or stands on another target.
abbrev pub NotOn : String → String → Environment → DeploymentRow → Type 0
NotOn app target env r =
    (r.id.app_id ≢ app) ⊎ ((r.config.target ≢ target) ⊎ (r.config.environment ≢ env))

-- The deployment succeeded there, and was requested between the two times.
pub record SucceededOn (app target : String) (env : Environment) (from to : Time)
    (r : DeploymentRow) : Type 0 where
  pub its_app : r.id.app_id ≡ app
  pub its_target : r.config.target ≡ target
  pub its_environment : r.config.environment ≡ env
  pub success : r.state.status ≡ succeeded
  pub after : from ≤ r.requested_at
  pub before : r.requested_at ≤ to

module _ {A : Type 0} {Holds : A → Type 0} (p : A → Bool) where
  any-false :
      ((a : A) → (p a ≡ false) ↔ Holds a) → (xs : List A) → (any p xs ≡ false) ↔ All Holds xs
  unfolding any
  any-false h [] = ((λ _. tt), (λ _. refl))
  any-false h (x ∷ xs) = (
    (λ e. ((h x).0 (ground (arith, e)), (any-false h xs).0 (ground (arith, e)))),
    (λ (here, rest). ground (arith, (h x).1 here, (any-false h xs).1 rest)),
  )

  any-true : ((a : A) → (p a ≡ true) ↔ Holds a) → (xs : List A) → (any p xs ≡ true) ↔ Any Holds xs
  unfolding any
  any-true h [] = ((λ e. absurd (ground (arith, e))), (λ e. absurd e))
  any-true h (x ∷ xs) = (
    (λ e. elim (Bool-cases (p x)) [
      | inl yes_here ↦ inl ((h x).0 yes_here)
      | inr not_here ↦ inr ((any-true h xs).0 (ground (arith, e, not_here)))
    ]),
    (λ v. elim v [
      | inl here ↦ ground (arith, (h x).1 here)
      | inr rest ↦ ground (arith, (any-true h xs).1 rest)
    ]),
  )

pub on_target-Over :
    (target : String) (rows : Deployments)
    → (has_ongoing_on_target rows target ≡ false)
      ↔ All (λ r. (r.config.target ≢ target) ⊎ Over r.state.status) rows
unfolding has_ongoing_on_target
on_target-Over target rows =
    any-false (λ r. r.config.target == target && is_ongoing r.state.status) (λ r. ground arith) rows

pub on_app-Over :
    (app target : String) (env : Environment) (from to : Time) (rows : Deployments)
    → ((has_deployments_on_app_target_env rows app target env (record { from = from; to = to })).0
        ≡ false)
      ↔ All (λ r. NotOn app target env r ⊎ Over r.state.status) rows
unfolding has_deployments_on_app_target_env
on_app-Over app target env from to rows =
    any-false (λ r. is_on app target env r && is_ongoing r.state.status) (λ r. ground arith) rows

pub on_app_success :
    (app target : String) (env : Environment) (from to : Time) (rows : Deployments)
    → ((has_deployments_on_app_target_env rows app target env (record { from = from; to = to })).1
        ≡ true)
      ↔ Any (SucceededOn app target env from to) rows
unfolding has_deployments_on_app_target_env
on_app_success app target env from to rows =
    any-true
      (λ r.
        (is_on app target env r && r.state.status == succeeded)
        && (leb from r.requested_at && leb r.requested_at to))
      (λ r. (
        (λ e. record {
          its_app = ground (arith, e);
          its_target = ground (arith, e);
          its_environment = ground (arith, e);
          success = ground (arith, e);
          after = ground (arith, e);
          before = ground (arith, e);
        }),
        (λ v.
            ground
              (arith, v.its_app, v.its_target, v.its_environment, v.success, v.after, v.before)),
      ))
      rows
