-- ===== src/Scenarios/Naming.antt =====
-- The theorems on the names of deployments, on the applications of a table and on validations.
use seelf.Prelude.{
  String, ◌≡◌, ◌≢◌, refl, Bool, true, false, Option, none, some, List, [], ◌∷◌, ok, arith, inl, inr,
  text_ne, All, ◌↔◌, Error, invalid_port, required,
}
use seelf.Domain.Values.{UrlValue, Userinfo, production, staging}
use seelf.Domain.Deployment.{DeploymentConfig}
use seelf.Domain.Naming.{parse_port, port_string, protocol, new_entrypoint_name, sub_domain}
use seelf.Domain.Naming.Decimal.{parse_port-port_string}
use seelf.Store.Apps.{AppRow, Apps}
use seelf.Handlers.Apps.{CreateApp, create_app_handler}
use seelf.Handlers.Apps.Names.{Inv}
use seelf.Handlers.Apps.Unique.{create_app-Inv}
use seelf.Handlers.Apps.Apart.{apps_apart}
use seelf.Store.Targets.RoundTrip.{row_of}
use seelf.Scenarios.{on_t1, ready_target}

parse_port-port_string_example : parse_port (port_string 8080) ≡ ok 8080
parse_port-port_string_example = parse_port-port_string 8080 (omega arith)

abbrev shop : AppRow
shop = record {
  id = "a1";
  name = "shop";
  version_control_url = none;
  version_control_token = none;
  production = on_t1;
  staging = on_t1;
  cleanup_requested_at = none;
  cleanup_requested_by = none;
  created_at = 1;
  created_by = "ann";
}

abbrev blog : AppRow
blog = record shop { id = "a2"; name = "blog" }

abbrev two_apps : Apps
two_apps = shop ∷ blog ∷ []

two_apps-Inv : Inv two_apps
unfolding seelf.Domain.Naming.app_name_from seelf.Prelude.String-discrete
two_apps-Inv = record {
  unique = (((λ e. absurd (text_ne "shop" "blog" refl e)), tt), (tt, tt));
  checked = (refl, (refl, tt));
}

abbrev shop_production : DeploymentConfig
shop_production = record {
  app_id = "a1";
  app_name = "shop";
  environment = production;
  target = "t1";
  vars = none;
}

abbrev blog_staging : DeploymentConfig
blog_staging = record {
  app_id = "a2";
  app_name = "blog";
  environment = staging;
  target = "t1";
  vars = none;
}

apps_apart_example : sub_domain shop_production "web" true ≢ sub_domain blog_staging "web" false
apps_apart_example =
    apps_apart two_apps shop blog shop_production blog_staging "web" "web" true false two_apps-Inv
      ([], [], [], refl) (record { name = refl; target = inl (refl, refl) })
      (record { name = refl; target = inr (refl, refl) }) refl

abbrev no_url : String → Option (UrlValue × Option Userinfo)
no_url raw = none

abbrev accepts : Apps → Option Error
accepts rows = none

abbrev create_wiki : CreateApp no_url
create_wiki = record {
  name = "wiki";
  version_control = none;
  production = record { target = "t1"; vars = none };
  staging = record { target = "t1"; vars = none };
}

abbrev wiki : AppRow
wiki = record shop {
  id = "a3";
  name = "wiki";
  production = record { target = "t1"; version = 7; vars = none };
  staging = record { target = "t1"; version = 7; vars = none };
  created_at = 7;
}

create_app-Inv_example : Inv (shop ∷ blog ∷ wiki ∷ [])
unfolding create_app_handler seelf.Prelude.String-discrete seelf.Prelude.ℕ_discrete
create_app-Inv_example =
    create_app-Inv no_url accepts two_apps (shop ∷ blog ∷ wiki ∷ []) (row_of ready_target ∷ [])
      create_wiki "a3" "ann" "a3" 7 two_apps-Inv refl
