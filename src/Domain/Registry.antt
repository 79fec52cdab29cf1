-- ===== src/Domain/Registry.antt =====
-- internal/deployment/domain/registry.go: the aggregate of a custom registry of images.
pub mod Calls
use seelf.Prelude.{
  ℕ, String, ◌≡◌, Bool, true, false, Option, none, some, List, [], ◌∷◌, if◌then◌else◌, not, ◌==◌,
  string_eq, is_some, Result, ok, err, Error, ◌>>=◌,
}
use seelf.Pkg.Event.{store_event}
use seelf.Pkg.Action.{Action, Time, new_action}
use seelf.Domain.Values.{Url, url_eq, zero_url, Credentials, credentials_eq}
use seelf.Domain.Requirement.{UrlRequirement, url_met}

pub data RegistryEvent : Type 0 where
  registry_created : String → String → Url → Action → RegistryEvent
  registry_renamed : String → String → RegistryEvent
  registry_url_changed : String → Url → RegistryEvent
  registry_credentials_changed : String → Credentials → RegistryEvent
  registry_credentials_removed : String → RegistryEvent
  registry_deleted : String → RegistryEvent

-- `events` is the embedded `event.Emitter`.
pub record Registry : Type 0 where
  pub id : String
  pub name : String
  pub url : Url
  pub credentials : Option Credentials
  pub created : Action
  pub events : List RegistryEvent

-- The zero value of the struct.
abbrev pub zero_registry : Registry
zero_registry = record {
  id = "";
  name = "";
  url = zero_url;
  credentials = none;
  created = record { by = ""; at = 0 };
  events = [];
}

-- The switch of `apply`.
unfoldable pub absorb : Registry → RegistryEvent → Registry
absorb r (registry_created id name url created) = record r {
  id = id;
  name = name;
  url = url;
  created = created;
}
absorb r (registry_renamed id name) = record r { name = name }
absorb r (registry_credentials_changed id credentials) = record r { credentials = some credentials }
absorb r (registry_credentials_removed id) = record r { credentials = none }
absorb r (registry_url_changed id url) = record r { url = url }
absorb r (registry_deleted id) = r

unfoldable pub apply : Registry → RegistryEvent → Registry
unfolding absorb
apply r e = let r' = absorb r e in record r' { events = store_event r'.events e }

unfoldable pub new_registry : String → String → UrlRequirement → String → Time → Result Registry
unfolding apply url_met
new_registry id name requirement by now = do
  url ← url_met requirement
  ok (apply zero_registry (registry_created id name url (new_action by now)))

unfoldable pub rename : Registry → String → Registry
unfolding apply
rename r name = if r.name == name then r else apply r (registry_renamed r.id name)

unfoldable pub has_url : Registry → UrlRequirement → Registry × Option Error
unfolding apply url_met
has_url r requirement = elim (url_met requirement) [
  | err e ↦ (r, some e)
  | ok url ↦ if url == r.url then (r, none) else (apply r (registry_url_changed r.id url), none)
]

abbrev pub same_credentials : Option Credentials → Credentials → Bool
same_credentials none credentials = false
same_credentials (some existing) credentials = existing == credentials

unfoldable pub use_authentication : Registry → Credentials → Registry
unfolding apply
use_authentication r credentials =
    if same_credentials r.credentials credentials
    then r
    else apply r (registry_credentials_changed r.id credentials)

unfoldable pub remove_authentication : Registry → Registry
unfolding apply
remove_authentication r =
    if not (is_some r.credentials) then r else apply r (registry_credentials_removed r.id)

-- `Delete`
unfoldable pub delete_registry : Registry → Registry
unfolding apply
delete_registry r = apply r (registry_deleted r.id)
