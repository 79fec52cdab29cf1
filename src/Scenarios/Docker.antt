-- ===== src/Scenarios/Docker.antt =====
-- The theorems on Compose projects and on the proxy.
use Prim.Native.String.{◌++◌}
use seelf.Prelude.{
  ℕ, String, ◌≡◌, ◌≢◌, refl, Bool, true, false, Option, none, some, List, [], ◌∷◌, arith, inl, inr,
  text_ne, All, ◌⊎◌, ◌↔◌, Error, Result, ok, err, Map, lookup, is_some, if◌then◌else◌, ◌==◌,
  string_eq,
}
use seelf.Domain.Values.{production}
use seelf.Domain.Entrypoints.{TargetEntrypointsAssigned, assign, port_of}
use seelf.Domain.Target.{Target}
use seelf.Docker.Project.{PortConfig, NetworkConfig, VolumeConfig, Project, builder_labels}
use seelf.Docker.ComposeFile.{
  Stat, exists, missing, service_files_affinity, find_compose_file, Chosen, find_compose_file_iff,
}
use seelf.Docker.Transform.{zero_definition, definition_name, transform}
use seelf.Docker.Transform.Apart.{service_names, SubdomainsDiffer}
use seelf.Docker.Transform.Subdomains.{subdomains_differ}
use seelf.Docker.Transform.Keeping.{Carries}
use seelf.Docker.Transform.Images.{has_build}
use seelf.Docker.Transform.Labelled.{Done, transform_labelled}
use seelf.Docker.Resolve.{build}
use seelf.Docker.Resolve.Known.{IsKnown, built-IsKnown}
use seelf.Scenarios.{ready_target, staging_config}

-- Only the file that is tried last is there.
abbrev only_yaml : String → Stat
only_yaml file = if file == "docker-compose.yaml" then exists else missing

find_compose_file_iff_example :
    (find_compose_file only_yaml production ≡ ok "docker-compose.yaml")
    ↔ Chosen only_yaml "docker-compose.yaml" (service_files_affinity production)
find_compose_file_iff_example = find_compose_file_iff only_yaml production "docker-compose.yaml"

abbrev http_port : PortConfig
http_port = record { target = 80; published = ""; protocol = "tcp" }

abbrev two_services : Project
two_services = record {
  name = "app";
  services =
      ("api", record zero_definition { name = "api"; image = "api"; ports = http_port ∷ [] })
      ∷ ("web", record zero_definition { name = "web"; build = some []; ports = http_port ∷ [] })
      ∷ [];
  disabled_services = [];
  networks = [];
  volumes = [];
}

abbrev both_names : List String
both_names = "api" ∷ "web" ∷ []

both-named : All (λ m. definition_name two_services.services m ≡ m) both_names
unfolding lookup seelf.Prelude.String-discrete
both-named = (refl, (refl, tt))

subdomains_differ_example :
    (service_names (transform staging_config [] "public" [] two_services both_names).1 ≡ both_names)
    × SubdomainsDiffer (transform staging_config [] "public" [] two_services both_names).1
subdomains_differ_example =
    subdomains_differ staging_config [] "public" [] two_services both_names
      ((text_ne "api" "web" refl, tt), (tt, tt)) both-named

abbrev labelled_project : Project
labelled_project =
    (transform staging_config (builder_labels "a1" staging_config) "public" [] two_services
      both_names).0

transform_labelled_example :
    Done "a1" staging_config labelled_project.services both_names
    × ((name : String) (n : NetworkConfig)
        → lookup name labelled_project.networks ≡ some n
        → (n.external ≡ true) ⊎ Carries "a1" staging_config n.labels)
    × ((name : String) (v : VolumeConfig)
        → lookup name labelled_project.volumes ≡ some v
        → Carries "a1" staging_config v.labels)
    × ((m : String) → has_build labelled_project.services m ≡ has_build two_services.services m)
transform_labelled_example =
    transform_labelled "a1" staging_config "public" [] two_services both_names both-named

abbrev exposing_target : Target
exposing_target = record ready_target {
  custom_entrypoints = ("a1", ("production", ("db-5432-tcp", none) ∷ []) ∷ []) ∷ [];
}

abbrev key_of : String → String → Result String
key_of proto port = ok (port ++ ("/" ++ proto))

abbrev starts_finder : List PortConfig → Option Error
starts_finder ports = none

abbrev host_ports : Result (Map (List String))
host_ports = ok (("8080/tcp", "32768" ∷ []) ∷ [])

abbrev built : Result (List String × List PortConfig × TargetEntrypointsAssigned)
built = build key_of starts_finder host_ports none exposing_target

abbrev command_of : Result (List String × List PortConfig × TargetEntrypointsAssigned) → List String
command_of (ok (command, ports, assigned)) = command
command_of (err e) = []

abbrev ports_of :
    Result (List String × List PortConfig × TargetEntrypointsAssigned) → List PortConfig
ports_of (ok (command, ports, assigned)) = ports
ports_of (err e) = []

abbrev assigned_in :
    Result (List String × List PortConfig × TargetEntrypointsAssigned) → TargetEntrypointsAssigned
assigned_in (ok (command, ports, assigned)) = assigned
assigned_in (err e) = []

abbrev has_built : Result (List String × List PortConfig × TargetEntrypointsAssigned) → Bool
has_built (ok _) = true
has_built (err _) = false

ok_of :
    (r : Result (List String × List PortConfig × TargetEntrypointsAssigned))
    → has_built r ≡ true
    → r ≡ ok (command_of r, ports_of r, assigned_in r)
ok_of (ok (command, ports, assigned)) h = refl
ok_of (err e) h = absurd (cc)

built-IsKnown_example :
    IsKnown
      (assign exposing_target.custom_entrypoints (assigned_in built)).0
      "a1"
      "production"
      "db-5432-tcp"
unfolding build port_of seelf.Prelude.String-discrete lookup seelf.Domain.Naming.digits
    seelf.Domain.Naming.digit seelf.Prelude.ℕ_discrete
built-IsKnown_example =
    built-IsKnown key_of starts_finder host_ports none exposing_target (command_of built)
      (ports_of built) (assigned_in built) "a1" "production" "db-5432-tcp" (ok_of built refl) refl
