-- ===== src/Prelude/Errors.antt =====
-- pkg/apperr/error.go and the application errors that the packages declare with `apperr.New`: one
-- constructor for each code. `validation_failed` carries the errors of the fields as its detail (the
-- `FieldErrors` of pkg/validate), and `infra` is any error that is no `apperr.Error`, with its text.
use mathlib.Core.Option.{Option, none, some}
use Prim.Native.String.{String, ◌++◌}
use mathlib.Core.Logic.{◌⊎◌, inl, inr}
use mathlib.Core.Path.{◌≡◌, refl}
use mathlib.Core.Bool.{Bool, true, false}

mutual
  pub data Error : Type 0 where
    not_found invalid_time_interval : Error
    invalid_environment_name app_name_already_taken version_control_not_configured : Error
    app_cleanup_needed app_cleanup_requested app_target_changed : Error
    could_not_promote_production_deployment running_or_pending_deployments : Error
    invalid_source_deployment not_in_pending_state not_in_running_state : Error
    url_already_taken config_already_taken target_in_use target_configuration_in_progress : Error
    target_configuration_failed target_provider_update_not_permitted target_cleanup_needed : Error
    target_cleanup_requested : Error
    email_already_taken invalid_email_or_password no_handler_registered : Error
    no_valid_provider_found no_valid_source_found : Error
    invalid_port invalid_provider_payload invalid_app_name invalid_url : Error
    required invalid_email : Error
    min invalid_host invalid_ssh_key : Error
    validation_failed : FieldErrors → Error
    infra : String → Error

  pub data FieldErrors : Type 0 where
    no_fields : FieldErrors
    field : String → Error → FieldErrors → FieldErrors

-- `err.Error()`
unfoldable mutual
  pub message : Error → String
  message not_found = "not_found"
  message invalid_time_interval = "invalid_time_interval"
  message invalid_environment_name = "invalid_environment_name"
  message app_name_already_taken = "app_name_already_taken"
  message version_control_not_configured = "version_control_not_configured"
  message app_cleanup_needed = "app_cleanup_needed"
  message app_cleanup_requested = "app_cleanup_requested"
  message app_target_changed = "app_target_changed"
  message could_not_promote_production_deployment = "could_not_promote_production_deployment"
  message running_or_pending_deployments = "running_or_pending_deployments"
  message invalid_source_deployment = "invalid_source_deployment"
  message not_in_pending_state = "not_in_pending_state"
  message not_in_running_state = "not_in_running_state"
  message url_already_taken = "url_already_taken"
  message config_already_taken = "config_already_taken"
  message target_in_use = "target_in_use"
  message target_configuration_in_progress = "target_configuration_in_progress"
  message target_configuration_failed = "target_configuration_failed"
  message target_provider_update_not_permitted = "target_provider_update_not_permitted"
  message target_cleanup_needed = "target_cleanup_needed"
  message target_cleanup_requested = "target_cleanup_requested"
  message email_already_taken = "email_already_taken"
  message invalid_email_or_password = "invalid_email_or_password"
  message no_handler_registered = "no_handler_registered"
  message no_valid_provider_found = "no_valid_provider_found"
  message no_valid_source_found = "no_valid_source_found"
  message invalid_port = "invalid_port"
  message invalid_provider_payload = "invalid_provider_payload"
  message invalid_app_name = "invalid_app_name"
  message invalid_url = "invalid_url"
  message required = "required"
  message invalid_email = "invalid_email"
  message min = "min"
  message invalid_host = "invalid_host"
  message invalid_ssh_key = "invalid_ssh_key"
  message (validation_failed fields) = "validation_failed" ++ (":" ++ fields_message fields)
  message (infra s) = s

  pub fields_message : FieldErrors → String
  fields_message no_fields = ""
  fields_message (field name e rest) =
      "\n\t" ++ (name ++ (": " ++ (message e ++ fields_message rest)))

-- `errors.Is(err, apperr.ErrNotFound)`
abbrev pub is_not_found : Error → Bool
is_not_found not_found = true
is_not_found _ = false

-- `errors.Is(err, domain.ErrTargetConfigurationInProgress)`
abbrev pub is_in_progress : Error → Bool
is_in_progress target_configuration_in_progress = true
is_in_progress _ = false

-- A Go function that returns a value and an error, where the caller reads the value only if the
-- error is nil.
pub data Result {ℓ} (A : Type ℓ) : Type ℓ where
  ok : A → Result A
  err : Error → Result A

infixl 5 ◌>>=◌
abbrev pub ◌>>=◌ {ℓ κ} : {A : Type ℓ} {B : Type κ} → Result A → (A → Result B) → Result B
ok a >>= f = f a
err e >>= f = err e

pub Result-cases {ℓ} :
    {A : Type ℓ} (r : Result A) → ((a : A) × (r ≡ ok a)) ⊎ ((e : Error) × (r ≡ err e))
Result-cases (ok a) = inl (a, refl)
Result-cases (err e) = inr (e, refl)

-- The two parts of a chain that has a result.
module _ {ℓ κ} {A : Type ℓ} {B : Type κ} where
  pub bind-ok :
      (first : Result A) (next : A → Result B) {last : B}
      → (first >>= next) ≡ ok last
      → (made : A) × (first ≡ ok made) × (next made ≡ ok last)
  bind-ok (err e) next h = absurd (cc)
  bind-ok (ok made) next h = (made, refl, h)

-- The error of a method, or the aggregate that it leaves.
abbrev pub checked {ℓ} : {A : Type ℓ} → A × Option Error → Result A
checked (a, none) = ok a
checked (a, some e) = err e

-- `if err != nil { return err }`, and what follows.
abbrev pub unless {ℓ} : {A : Type ℓ} → Option Error → Result A → Result A
unless none next = next
unless (some e) next = err e

pub unless-ok {ℓ} :
    {A : Type ℓ} (o : Option Error) (next : Result A) (a : A)
    → unless o next ≡ ok a
    → (o ≡ none) × (next ≡ ok a)
unless-ok none next a h = (refl, h)
unless-ok (some e) next a h = absurd (cc)

pub checked-ok {ℓ} :
    {A : Type ℓ} (called : A × Option Error) (a : A)
    → checked called ≡ ok a
    → (called.1 ≡ none) × (called.0 ≡ a)
checked-ok (x, none) a h = (refl, cc)
checked-ok (x, some e) a h = absurd (cc)
