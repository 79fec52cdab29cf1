-- ===== src/Handlers/Registries.antt =====
-- app/create_registry, app/update_registry and app/delete_registry. `url.Parse` is the parameter `parse`;
-- the user and the identifier are arguments.
pub mod Unique
use seelf.Prelude.{
  String, Bool, true, false, Option, none, some, List, [], ◌∷◌, if◌then◌else◌, Result, ok, err,
  Error, ◌>>=◌, checked, unless, get_or,
}
use seelf.Pkg.Action.{Time}
use seelf.Pkg.Maybe.{Patch}
use seelf.Pkg.Validate.{struct, value_error, value_target, if_set, if_patched, is_required, wrap}
use seelf.Domain.Values.{UrlValue, Userinfo, zero_url, Credentials}
use seelf.Domain.Urls.{url_from}
use seelf.Domain.Requirement.{UrlRequirement, url_error}
use seelf.Domain.Registry.{
  Registry, new_registry, rename, has_url, use_authentication, remove_authentication,
  delete_registry,
}
use seelf.Store.Registries.{Registries, get_by_id, check_url_availability, write}

-- The error under the name of a field.
abbrev pub wrapped : Option Error → String → Option Error
wrapped none field = none
wrapped (some e) field = some (wrap e (field ∷ []))

pub record CreateRegistry : Type 0 where
  pub name : String
  pub url : String
  pub credentials : Option Credentials

abbrev validate_credentials : Credentials → Option Error
validate_credentials c =
    struct (("username", is_required c.username) ∷ ("password", is_required c.password) ∷ [])

unfoldable pub with_credentials : Registry → Option Credentials → Registry
unfolding use_authentication
with_credentials r none = r
with_credentials r (some c) = use_authentication r c

-- What `update_registry` is told; a password that is not given stays.
pub record CredentialsUpdate : Type 0 where
  pub username : String
  pub password : Option String

pub record UpdateRegistry : Type 0 where
  pub id : String
  pub name : Option String
  pub url : Option String
  pub credentials : Patch CredentialsUpdate

abbrev validate_update_credentials : CredentialsUpdate → Option Error
validate_update_credentials c =
    struct (("username", is_required c.username) ∷ ("password", if_set c.password is_required) ∷ [])

abbrev pub renamed : Registry → Option String → Registry
renamed r none = r
renamed r (some name) = rename r name

abbrev update_credentials : Option Credentials → CredentialsUpdate → Credentials
update_credentials existing update =
    let base =
      get_or existing
        (record { username = update.username; password = get_or update.password "" }) in
    record { username = update.username; password = get_or update.password base.password }

unfoldable pub patch_credentials : Registry → Patch CredentialsUpdate → Registry
unfolding use_authentication remove_authentication
patch_credentials r patch =
    if patch.is_set
    then (if patch.has_value
        then use_authentication r (update_credentials r.credentials patch.value)
        else remove_authentication r)
    else r

module _ (parse : String → Option (UrlValue × Option Userinfo)) where
  unfoldable pub validate_create : CreateRegistry → Option Error
  unfolding struct is_required url_from
  validate_create cmd = struct (
      ("name", is_required cmd.name)
      ∷ ("url", value_error (url_from parse cmd.url))
      ∷ ("credentials", if_set cmd.credentials validate_credentials)
      ∷ [])

  unfoldable pub validate_update : UpdateRegistry → Option Error
  unfolding struct is_required url_from
  validate_update cmd = struct (
      ("name", if_set cmd.name is_required)
      ∷ ("url", if_set cmd.url (λ u. value_error (url_from parse u)))
      ∷ ("credentials", if_patched cmd.credentials validate_update_credentials)
      ∷ [])

  -- The new url, if one is given, once it was checked against the other registries.
  unfoldable pub change_url : Registries → Registry → Option String → Result Registry
  unfolding check_url_availability url_error has_url wrap url_from
  change_url rows r none = ok r
  change_url rows r (some raw) =
      let requirement =
        check_url_availability rows (value_target zero_url (url_from parse raw)) (r.id ∷ []) in
      unless (wrapped (url_error requirement) "url") (checked (has_url r requirement))

  module _ (engine : Registries → Option Error) where
    unfoldable pub create_registry_handler :
        Registries → CreateRegistry → String → String → Time → Result (Registries × String)
    unfolding validate_create check_url_availability url_error new_registry with_credentials write
        wrap url_from
    create_registry_handler rows cmd id by now = unless (validate_create cmd) (
        let requirement =
          check_url_availability rows (value_target zero_url (url_from parse cmd.url)) [] in
        unless (wrapped (url_error requirement) "url") (do
          r ← new_registry id cmd.name requirement by now
          rows' ← write engine rows (with_credentials r cmd.credentials).events
          ok (rows', r.id)))

    unfoldable pub update_registry_handler :
        Registries → UpdateRegistry → Result (Registries × String)
    unfolding validate_update get_by_id rename change_url patch_credentials write
    update_registry_handler rows cmd = unless (validate_update cmd) (do
      r ← get_by_id rows cmd.id
      changed ← change_url rows (renamed r cmd.name) cmd.url
      rows' ← write engine rows (patch_credentials changed cmd.credentials).events
      ok (rows', cmd.id))

-- `delete_registry`
unfoldable pub delete_registry_handler :
    (Registries → Option Error) → Registries → String → Result Registries
unfolding get_by_id delete_registry write
delete_registry_handler engine rows id = do
  r ← get_by_id rows id
  write engine rows (delete_registry r).events
