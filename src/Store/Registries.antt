-- ===== src/Store/Registries.antt =====
-- internal/deployment/infra/sqlite/registries.go and `RegistryFrom` of the domain: the table of
-- registries. A url is encoded without its user part (`Url.Value`).
pub mod Urls
use seelf.Prelude.{
  String, Bool, Option, none, some, List, [], ◌∷◌, ◌++◌, if◌then◌else◌, ◌&&◌, ◌||◌, not, ◌==◌,
  string_eq, Result, ok, err, Error, not_found, any, get_or, map,
}
use seelf.Pkg.Action.{Time}
use seelf.Pkg.Table.{find, update, delete}
use seelf.Domain.Values.{Url, UrlValue, zero_url, url_eq, Credentials}
use seelf.Domain.Requirement.{UrlRequirement}
use seelf.Domain.Registry.{
  Registry, RegistryEvent, registry_created, registry_renamed, registry_url_changed,
  registry_credentials_changed, registry_credentials_removed, registry_deleted,
}

pub record RegistryRow : Type 0 where
  pub id : String
  pub name : String
  pub url : UrlValue
  pub credentials_username : Option String
  pub credentials_password : Option String
  pub created_at : Time
  pub created_by : String

abbrev pub Registries : Type 0
Registries = List RegistryRow

abbrev pub row_id : RegistryRow → String
row_id r = r.id

-- The statement that `Write` makes for an event.
unfoldable pub statement : Registries → RegistryEvent → Registries
statement rows (registry_created id name url created) =
    rows
    ++ (record {
      id = id;
      name = name;
      url = url.value;
      credentials_username = none;
      credentials_password = none;
      created_at = created.at;
      created_by = created.by;
    }
        ∷ [])
statement rows (registry_renamed id name) = update row_id id (λ r. record r { name = name }) rows
statement rows (registry_url_changed id url) =
    update row_id id (λ r. record r { url = url.value }) rows
statement rows (registry_credentials_changed id credentials) =
    update row_id id
      (λ r. record r {
        credentials_username = some credentials.username;
        credentials_password = some credentials.password;
      })
      rows
statement rows (registry_credentials_removed id) =
    update row_id id (λ r. record r { credentials_username = none; credentials_password = none })
      rows
statement rows (registry_deleted id) = delete row_id id rows

-- `RegistryFrom`
unfoldable pub registry_from : RegistryRow → Registry
registry_from r = record {
  id = r.id;
  name = r.name;
  url = record zero_url { value = r.url };
  credentials = elim r.credentials_username [
    | none ↦ none
    | some username ↦
        some (record { username = username; password = get_or r.credentials_password "" })
  ];
  created = record { by = r.created_by; at = r.created_at };
  events = [];
}

-- `GetByID`
unfoldable pub get_by_id : Registries → String → Result Registry
unfolding registry_from find
get_by_id rows id = elim (find row_id id rows) [
  | none ↦ err not_found
  | some r ↦ ok (registry_from r)
]

-- `GetAll`
unfoldable pub get_all : Registries → List Registry
unfolding registry_from
get_all rows = map registry_from rows

-- AND id NOT IN (excluded)
abbrev pub excludes : List String → String → Bool
excludes ids id = any (λ e. e == id) ids

-- `CheckUrlAvailability`: the url is compared as its column holds it.
unfoldable pub check_url_availability : Registries → Url → List String → UrlRequirement
unfolding any
check_url_availability rows url excluded = record {
  url = url;
  unique = not (
      any
        (λ r.
          record zero_url { value = r.url } == record zero_url { value = url.value }
          && not (excludes excluded r.id))
        rows);
}

-- The writing half of `WriteAndDispatch`; `engine` is the answer to a statement, `none` if it was accepted.
module _ (engine : Registries → Option Error) where
  unfoldable pub write : Registries → List RegistryEvent → Result Registries
  unfolding statement
  write rows [] = ok rows
  write rows (e ∷ es) =
      let next = statement rows e in
      let rest = write next es in elim (engine next) [ some x ↦ err x | none ↦ rest ]
