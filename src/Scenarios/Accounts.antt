-- ===== src/Scenarios/Accounts.antt =====
-- The theorems on users, registries and the configuration of targets.
use seelf.Prelude.{
  String, ◌≡◌, ◌≢◌, refl, Bool, true, false, Option, none, some, List, [], ◌∷◌, ok, err, Result,
  Error, if◌then◌else◌, ◌==◌, string_eq, is_some, get_or, text_ne, infra, ◌↔◌, ◌⊎◌, arith,
  invalid_email_or_password,
}
use seelf.Pkg.Maybe.{Patch}
use seelf.Pkg.Table.{find}
use seelf.Pkg.Validate.{value_target}
use seelf.Domain.Values.{UrlValue, Userinfo, zero_url}
use seelf.Domain.Provider.{ProviderConfig, fingerprint}
use seelf.Domain.TargetState.{configuring}
use seelf.Domain.Target.{Target}
use seelf.Store.Users.{UserRow, Users}
use seelf.Store.Users.Emails.{EmailsUnique}
use seelf.Handlers.Users.{Login, UpdateUser, login_handler, email_from, invalid_login}
use seelf.Handlers.Users.Access.{Fits, login_lem}
use seelf.Handlers.Users.Unique.{update_user-EmailsUnique}
use seelf.Store.Registries.{RegistryRow, Registries}
use seelf.Store.Registries.Urls.{UrlsUnique}
use seelf.Handlers.Registries.{UpdateRegistry, CredentialsUpdate}
use seelf.Handlers.Registries.Unique.{update_registry-UrlsUnique}
use seelf.Docker.Prepare.{Body, prepare, pos, KeyOf, prepare_lem}
use seelf.Store.Targets.{Targets}
use seelf.Store.Targets
use seelf.Store.Targets.RoundTrip.{row_of, settled}
use seelf.Handlers.Targets.{UpdateTarget, update_target_handler}
use seelf.Domain.Target.Calls.{Inv, empty-IsClean}
use seelf.Handlers.Targets.Updating.{update_target_lem}
use seelf.Scenarios.{ready_target}

abbrev ann_row : UserRow
ann_row = record {
  id = "u1";
  email = "ann@example.com";
  password_hash = "#secret";
  api_key = "k1";
  registered_at = 1;
}

abbrev itself : String → Option String
itself value = some value

abbrev compares : String → String → Option Error
compares password hashed = if password == "secret" then none else some (infra "mismatch")

abbrev ann_login : Login
ann_login = record { email = "ann@example.com"; password = "secret" }

login_lem_example :
    ((login_handler itself compares (ann_row ∷ []) ann_login ≡ ok "u1")
      ↔ Fits itself compares
          (ann_row ∷ [])
          (value_target "" (email_from itself "ann@example.com"))
          "secret"
          "u1")
    × ((login_handler itself compares (ann_row ∷ []) ann_login ≡ err invalid_login)
        ⊎ ((other : String) × (login_handler itself compares (ann_row ∷ []) ann_login ≡ ok other)))
unfolding seelf.Handlers.Users.validate_login seelf.Prelude.ℕ_discrete
login_lem_example = login_lem itself compares (ann_row ∷ []) ann_login "u1" refl

abbrev hashes : String → Result String
hashes password = ok "#other"

abbrev accepts_users : Users → Option Error
accepts_users rows = none

abbrev move_ann : UpdateUser
move_ann = record { id = "u1"; email = some "a@example.com"; password = some "other" }

update_user-EmailsUnique_example :
    EmailsUnique (record ann_row { email = "a@example.com"; password_hash = "#other" } ∷ [])
unfolding seelf.Handlers.Users.update_user_handler seelf.Prelude.ℕ_discrete
    seelf.Prelude.String-discrete seelf.Pkg.Table.update
update_user-EmailsUnique_example =
    update_user-EmailsUnique itself hashes accepts_users (ann_row ∷ [])
      (record ann_row { email = "a@example.com"; password_hash = "#other" } ∷ []) move_ann "u1"
      (record { only = (((λ _. refl), tt), tt) }) refl

abbrev hub : UrlValue
hub = record zero_url.value { scheme = "https"; host = "hub.example.com" }

abbrev parses_hub : String → Option (UrlValue × Option Userinfo)
parses_hub raw = some (hub, none)

abbrev old_row : RegistryRow
old_row = record {
  id = "r1";
  name = "old";
  url = zero_url.value;
  credentials_username = none;
  credentials_password = none;
  created_at = 1;
  created_by = "ann";
}

abbrev new_row : RegistryRow
new_row = record old_row {
  name = "hub";
  url = hub;
  credentials_username = some "ann";
  credentials_password = some "secret";
}

abbrev accepts_registries : Registries → Option Error
accepts_registries rows = none

abbrev move_hub : UpdateRegistry
move_hub = record {
  id = "r1";
  name = some "hub";
  url = some "https://hub.example.com";
  credentials = record {
    maybe = record {
      has_value = true;
      value = record { username = "ann"; password = some "secret" };
    };
    is_set = true;
  };
}

update_registry-UrlsUnique_example : UrlsUnique (new_row ∷ [])
unfolding seelf.Handlers.Registries.update_registry_handler seelf.Prelude.ℕ_discrete
    seelf.Prelude.String-discrete seelf.Domain.Values.Url-discrete seelf.Pkg.Table.update
update_registry-UrlsUnique_example =
    update_registry-UrlsUnique parses_hub accepts_registries (old_row ∷ []) (new_row ∷ []) move_hub
      "r1" (record { only = (((λ _. refl), tt), tt) }) refl

abbrev no_key : Patch String
no_key = record { maybe = record { has_value = false; value = "" }; is_set = false }

abbrev remote_body : Body
remote_body = record {
  host = some "example.com";
  port = some (pos 2222);
  user = none;
  private_key = no_key;
}

abbrev keyed : ProviderConfig
keyed = record {
  host = some "old.com";
  port = some 22;
  user = some "docker";
  private_key = some "key";
}

abbrev moved : ProviderConfig
moved = record {
  host = some "example.com";
  port = some 2222;
  user = some "docker";
  private_key = some "key";
}

abbrev no_ip : String → Bool
no_ip value = false

-- The configuration before it had another key.
abbrev first_keyed : ProviderConfig
first_keyed = record keyed { private_key = some "old key" }

prepare_lem_example :
    (fingerprint moved ≡ "example.com") × KeyOf (first_keyed ∷ keyed ∷ []) moved.private_key
unfolding prepare seelf.Prelude.ℕ_discrete
prepare_lem_example =
    prepare_lem no_ip no_ip remote_body (first_keyed ∷ keyed ∷ []) moved "example.com" refl refl
      refl refl

ready-Inv : Inv (settled ready_target)
ready-Inv = record {
  frozen_settled = λ h. absurd (ground (arith, h));
  ready_version = λ h. refl;
  failed_cause = λ h. ground (arith, h);
  fine_no_cause = λ h. refl;
  clean = empty-IsClean;
}

abbrev quiet : Targets → Option Error
quiet rows = none

abbrev provides : String → List ProviderConfig → Result ProviderConfig
provides host existing = ok moved

abbrev move_target : UpdateTarget String
move_target = record {
  id = "t1";
  name = some "edge";
  url = some "https://hub.example.com";
  provider = none;
}

abbrev updated : Result (Targets × String)
updated = update_target_handler parses_hub quiet provides (row_of ready_target ∷ []) move_target 9

abbrev rows_of : Result (Targets × String) → Targets
rows_of (ok (rows, id)) = rows
rows_of (err e) = []

update_target_lem_example :
    ((t' : Target) × (Targets.get_by_id (rows_of updated) "t1" ≡ ok t')
      × (t'.name ≡ "edge")
      × ((t'.state.status ≡ configuring)
          ⊎ ((t'.url ≡ (settled ready_target).url) × (t'.provider ≡ ready_target.provider))))
    × (find Targets.row_id "t2" (rows_of updated)
        ≡ find Targets.row_id "t2" (row_of ready_target ∷ []))
unfolding update_target_handler seelf.Prelude.String-discrete seelf.Prelude.ℕ_discrete
    seelf.Prelude.any seelf.Domain.Values.Url-discrete
update_target_lem_example =
    update_target_lem parses_hub quiet provides (row_of ready_target ∷ []) (rows_of updated)
      ready_target move_target 9 "t1" "t2" ready-Inv refl refl refl (text_ne "t1" "t2" refl)
