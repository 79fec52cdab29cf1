-- ===== src/Store/Targets.antt =====
-- internal/deployment/infra/sqlite/targets.go and `TargetFrom` of the domain: the table of targets.
-- A column holds the value that it encodes; a url is encoded without its user part (`Url.Value`).
pub mod RoundTrip
pub mod Availability
use seelf.Prelude.{
  ℕ, String, ◌≡◌, Bool, true, false, Option, none, some, List, [], ◌∷◌, ◌++◌, if◌then◌else◌, not,
  ◌&&◌, ◌||◌, ◌==◌, string_eq, Result, ok, err, Error, ◌>>=◌, is_some, not_found, any, get_or,
}
use seelf.Pkg.Action.{Action, Time}
use seelf.Pkg.Table.{find, update, delete}
use seelf.Domain.Values.{Url, UrlValue, zero_url, url_eq}
use seelf.Domain.Provider.{ProviderConfig, provider_kind, fingerprint}
use seelf.Domain.Requirement.{UrlRequirement, ProviderConfigRequirement}
use seelf.Domain.Entrypoints.{TargetEntrypoints}
use seelf.Domain.TargetState.{TargetState}
use seelf.Domain.Target.{
  Target, TargetEvent, target_created, target_state_changed, target_renamed, target_url_changed,
  target_provider_changed, target_entrypoints_changed, target_marked_for_cleanup, target_deleted,
}

pub record TargetRow : Type 0 where
  pub id : String
  pub name : String
  pub url : UrlValue
  pub provider_kind : String
  pub provider_fingerprint : String
  pub provider : ProviderConfig
  pub state : TargetState
  pub entrypoints : TargetEntrypoints
  pub cleanup_requested_at : Option Time
  pub cleanup_requested_by : Option String
  pub created_at : Time
  pub created_by : String

abbrev pub Targets : Type 0
Targets = List TargetRow

abbrev pub row_id : TargetRow → String
row_id r = r.id

-- The statement that `Write` makes for an event.
unfoldable pub statement : Targets → TargetEvent → Targets
unfolding fingerprint
statement rows (target_created id name url provider state entrypoints created) =
    rows
    ++ (record {
      id = id;
      name = name;
      url = url.value;
      provider_kind = provider_kind provider;
      provider_fingerprint = fingerprint provider;
      provider = provider;
      state = state;
      entrypoints = entrypoints;
      cleanup_requested_at = none;
      cleanup_requested_by = none;
      created_at = created.at;
      created_by = created.by;
    }
        ∷ [])
statement rows (target_state_changed id state) =
    update row_id id (λ r. record r { state = state }) rows
statement rows (target_renamed id name) = update row_id id (λ r. record r { name = name }) rows
statement rows (target_url_changed id url) =
    update row_id id (λ r. record r { url = url.value }) rows
statement rows (target_provider_changed id provider) =
    update row_id id
      (λ r. record r {
        provider_kind = provider_kind provider;
        provider_fingerprint = fingerprint provider;
        provider = provider;
      })
      rows
statement rows (target_entrypoints_changed id entrypoints) =
    update row_id id (λ r. record r { entrypoints = entrypoints }) rows
statement rows (target_marked_for_cleanup id requested) =
    update row_id id
      (λ r. record r {
        cleanup_requested_at = some requested.at;
        cleanup_requested_by = some requested.by;
      })
      rows
statement rows (target_deleted id) = delete row_id id rows

-- `TargetFrom`: the time of the request decides whether there is one. One statement sets both
-- columns, so the code's `MustGet` on the user has a value.
unfoldable pub target_from : TargetRow → Target
target_from r = record {
  id = r.id;
  name = r.name;
  url = record zero_url { value = r.url };
  provider = r.provider;
  state = r.state;
  custom_entrypoints = r.entrypoints;
  cleanup_requested = elim r.cleanup_requested_at [
    | none ↦ none
    | some at ↦ some (record { by = get_or r.cleanup_requested_by ""; at = at })
  ];
  created = record { by = r.created_by; at = r.created_at };
  events = [];
}

-- `GetByID`
unfoldable pub get_by_id : Targets → String → Result Target
unfolding target_from find
get_by_id rows id = elim (find row_id id rows) [
  | none ↦ err not_found
  | some r ↦ ok (target_from r)
]

-- `GetLocalTarget`: the target with no host.
unfoldable pub get_local_target : Targets → Result Target
unfolding target_from
get_local_target [] = err not_found
get_local_target (r ∷ rs) =
    let later = get_local_target rs in
    if r.provider_fingerprint == "" then ok (target_from r) else later

-- `id NOT IN (excluded)`
abbrev pub excludes : List String → String → Bool
excludes excluded id = any (λ x. x == id) excluded

-- `CheckUrlAvailability`: the url is compared as its column holds it.
unfoldable pub check_url_availability : Targets → Url → List String → UrlRequirement
check_url_availability rows url excluded = record {
  url = url;
  unique = not (
      any
        (λ r.
          record zero_url { value = r.url } == record zero_url { value = url.value }
          && not (excludes excluded r.id))
        rows);
}

unfoldable pub check_config_availability :
    Targets → ProviderConfig → List String → ProviderConfigRequirement
unfolding fingerprint
check_config_availability rows config excluded = record {
  config = config;
  unique = not (
      any (λ r. r.provider_fingerprint == fingerprint config && not (excludes excluded r.id)) rows);
}

-- The writing half of `WriteAndDispatch`: one statement for each event, until the engine refuses
-- one. `engine` is its answer, `none` if the statement was accepted.
module _ (engine : Targets → Option Error) where
  unfoldable pub write : Targets → List TargetEvent → Result Targets
  unfolding statement
  write rows [] = ok rows
  write rows (e ∷ es) =
      let next = statement rows e in
      let rest = write next es in elim (engine next) [ some x ↦ err x | none ↦ rest ]
