-- ===== src/Handlers/Targets.antt =====
-- app/create_target, app/update_target and app/expose_seelf_container. The provider is an interface: its
-- answers are arguments, as `url.Parse`, the user and the identifier are.
pub mod Updating
use seelf.Prelude.{
  String, Bool, true, false, Option, none, some, List, [], ◌∷◌, if◌then◌else◌, Result, ok, err,
  Error, ◌>>=◌, checked, unless, get_or, is_not_found, is_some,
}
use seelf.Pkg.Action.{Time}
use seelf.Pkg.Validate.{struct, value_error, value_target, if_set, is_required}
use seelf.Domain.Values.{UrlValue, Userinfo, zero_url}
use seelf.Domain.Urls.{url_from}
use seelf.Domain.Provider.{ProviderConfig, provider_kind}
use seelf.Domain.Requirement.{UrlRequirement, url_error, ProviderConfigRequirement, config_error}
use seelf.Domain.Entrypoints.{TargetEntrypointsAssigned}
use seelf.Domain.Target.{Target, new_target, rename, has_url, has_provider, configured}
use seelf.Store.Targets.{
  Targets, get_by_id, get_local_target, check_url_availability, check_config_availability, write,
}
use seelf.Handlers.Configure.{assigned_of, setup_error}

-- The commands. `Payload` is what the provider is configured with.
pub record CreateTarget (Payload : Type 0) : Type 0 where
  pub name : String
  pub url : String
  pub provider : Payload

pub record UpdateTarget (Payload : Type 0) : Type 0 where
  pub id : String
  pub name : Option String
  pub url : Option String
  pub provider : Option Payload

pub record ExposeContainer : Type 0 where
  pub container : String
  pub url : String

-- A method that is called if its argument is given.
abbrev pub if_given :
    {A : Type 0} → Option A → (Target → A → Target × Option Error) → Target → Result Target
if_given none method t = ok t
if_given (some a) method t = checked (method t a)

module _ (parse : String → Option (UrlValue × Option Userinfo))
    (engine : Targets → Option Error) where
  module _ {Payload : Type 0}
      (prepare : Payload → List ProviderConfig → Result ProviderConfig) where
    unfoldable pub validate_create : CreateTarget Payload → Option Error
    unfolding struct is_required url_from
    validate_create cmd =
        struct (("name", is_required cmd.name) ∷ ("url", value_error (url_from parse cmd.url)) ∷ [])

    unfoldable pub create_target_handler :
        Targets → CreateTarget Payload → String → String → Time → Result (Targets × String)
    unfolding validate_create check_url_availability check_config_availability struct url_error
        config_error new_target write url_from provider_kind
    create_target_handler rows cmd id by now = unless (validate_create cmd) (
        prepare cmd.provider [] >>= λ config.
        let urls =
          check_url_availability rows (value_target zero_url (url_from parse cmd.url)) [] in
        let configs = check_config_availability rows config [] in
        unless
          (struct (("url", url_error urls) ∷ (provider_kind config, config_error configs) ∷ []))
          (do
            t ← new_target id cmd.name urls configs by now
            rows' ← write engine rows t.events
            ok (rows', t.id)))

    unfoldable pub validate_update : UpdateTarget Payload → Option Error
    unfolding struct is_required url_from
    validate_update cmd = struct (
        ("name", if_set cmd.name is_required)
        ∷ ("url", if_set cmd.url (λ s. value_error (url_from parse s)))
        ∷ [])

    -- The requirement of the new url, if one is given.
    unfoldable pub url_requirement : Targets → Target → Option String → Option UrlRequirement
    unfolding check_url_availability url_from
    url_requirement rows t none = none
    url_requirement rows t (some raw) =
        some (check_url_availability rows (value_target zero_url (url_from parse raw)) (t.id ∷ []))

    -- The kind and the requirement of the new configuration, if a payload is given.
    unfoldable pub config_requirement :
        Targets → Target → Option Payload → Result (String × Option ProviderConfigRequirement)
    unfolding check_config_availability provider_kind
    config_requirement rows t none = ok ("", none)
    config_requirement rows t (some payload) = prepare payload (t.provider ∷ []) >>= λ config.
        ok (provider_kind config, some (check_config_availability rows config (t.id ∷ [])))

    unfoldable pub update_target_handler :
        Targets → UpdateTarget Payload → Time → Result (Targets × String)
    unfolding validate_update get_by_id url_requirement config_requirement struct url_error
        config_error rename has_url has_provider write
    update_target_handler rows cmd now = unless (validate_update cmd) (do
      t ← get_by_id rows cmd.id
      let urls = url_requirement rows t cmd.url
      (config_requirement rows t cmd.provider >>= λ configs.
          unless
            (struct
              (("url", if_set urls url_error) ∷ (configs.0, if_set configs.1 config_error) ∷ []))
            (do
              t1 ← if_given cmd.name rename t
              t2 ← if_given urls (λ u r. has_url u r now) t1
              t3 ← if_given configs.1 (λ u r. has_provider u r now) t2
              rows' ← write engine rows t3.events
              ok (rows', cmd.id))))

  -- The table afterwards, and the error. `prepare_local`, `setup` and `expose` are the provider's.
  module _ (prepare_local : Result ProviderConfig)
      (setup : Target → Result TargetEntrypointsAssigned)
      (expose : Target → String → Option Error) where
    unfoldable pub validate_expose : ExposeContainer → Option Error
    unfolding struct is_required url_from
    validate_expose cmd = struct (
        ("container", is_required cmd.container)
        ∷ ("url", value_error (url_from parse cmd.url))
        ∷ [])

    -- There is no local target yet.
    unfoldable pub create_local :
        Targets → ExposeContainer → String → String → Time → Result (Targets × Target)
    unfolding check_url_availability check_config_availability new_target configured write url_from
    create_local rows cmd id by now = do
      config ← prepare_local
      t ←
          new_target id "local"
            (check_url_availability rows (value_target zero_url (url_from parse cmd.url)) [])
            (check_config_availability rows config []) by now
      let out = setup t
      let t' = configured t t.state.version (assigned_of out) (setup_error out)
      rows' ← write engine rows t'.events
      ok (rows', t')

    unfoldable pub expose_seelf_container_handler :
        Targets → ExposeContainer → String → String → Time → Targets × Option Error
    unfolding validate_expose get_local_target create_local
    expose_seelf_container_handler rows cmd id by now =
        let created : Targets × Option Error = elim (create_local rows cmd id by now) [
          | err e ↦ (rows, some e)
          | ok (rows', t) ↦ (rows', expose t cmd.container)
        ] in
        let found : Targets × Option Error = elim (get_local_target rows) [
          | ok t ↦ (rows, expose t cmd.container)
          | err e ↦ if is_not_found e then created else (rows, some e)
        ] in
        elim (validate_expose cmd) [ some e ↦ (rows, some e) | none ↦ found ]
