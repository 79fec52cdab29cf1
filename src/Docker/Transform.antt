-- ===== src/Docker/Transform.antt =====
-- `transform` of internal/deployment/infra/provider/docker/deployment.go. The names come in the order of
-- Compose's `ServiceNames`; a key that is missing reads as the zero value.
pub mod Entries
pub mod Exposed
pub mod Apart
pub mod Subdomains
pub mod Keeping
pub mod Images
pub mod Labelled
use seelf.Prelude.{
  String, Bool, true, false, Option, none, some, List, [], ◌∷◌, ◌++◌, if◌then◌else◌, Map, lookup,
  insert, get_or,
}
use seelf.Domain.Values.{EnvVars}
use seelf.Domain.Services.{Service}
use seelf.Domain.Deployment.{DeploymentConfig}
use seelf.Domain.Naming.{environment_variables_for}
use seelf.Domain.Building.{new_service}
use seelf.Docker.Project.{
  Labels, PortConfig, ServiceDefinition, NetworkConfig, VolumeConfig, Project, append_labels,
  insert_all, Exposure, expose_ports,
}

abbrev pub zero_definition : ServiceDefinition
zero_definition = record {
  name = "";
  image = "";
  pull_policy = "";
  build = none;
  environment = [];
  labels = [];
  ports = [];
  networks = [];
}

-- The name that the definition under a key holds.
abbrev pub definition_name : Map ServiceDefinition → String → String
definition_name definitions name = (get_or (lookup name definitions) zero_definition).name

-- The image to build is forced: its name is the service's.
unfoldable pub force_build : Labels → Service → ServiceDefinition → ServiceDefinition
unfolding append_labels
force_build labels service d = elim d.build [
  | none ↦ d
  | some build_labels ↦ record d {
    image = service.image;
    pull_policy = "build";
    build = some (append_labels build_labels labels);
  }
]

abbrev as_pointers : EnvVars → Map (Option String)
as_pointers [] = []
as_pointers ((name, value) ∷ rest) = (name, some value) ∷ as_pointers rest

-- The variables that the configuration has for the service.
unfoldable pub attach_variables : DeploymentConfig → String → ServiceDefinition → ServiceDefinition
unfolding environment_variables_for insert_all
attach_variables conf service d = elim (environment_variables_for conf service) [
  | none ↦ d
  | some vars ↦ record d { environment = insert_all d.environment (as_pointers vars) }
]

-- What the builder holds while it goes through the services.
pub record Builder : Type 0 where
  pub definitions : Map ServiceDefinition
  pub services : List Service
  pub is_default_subdomain_available : Bool

-- len(ports) != 0
abbrev pub any_port : List PortConfig → Bool
any_port [] = false
any_port (_ ∷ _) = true

abbrev pub has_ports : ServiceDefinition → Bool
has_ports d = any_port d.ports

module _ (conf : DeploymentConfig) (labels : Labels) (network_name : String)
    (routers_by_port : Map String) where
  -- The loop over the ports, and what follows it.
  unfoldable pub publish : Service → ServiceDefinition → Bool → ServiceDefinition × Service × Bool
  unfolding expose_ports
  publish service d available =
      let x =
        expose_ports conf routers_by_port
          (record {
            labels = d.labels;
            service = service;
            http_main_entry_point_available = true;
            is_default_subdomain_available = available;
          })
          d.ports in
      (
        record d { labels = x.labels; ports = []; networks = insert network_name none d.networks },
        x.service,
        x.is_default_subdomain_available,
      )

  -- The definition of one service before its ports are read.
  unfoldable pub prepare : Service → ServiceDefinition → ServiceDefinition
  unfolding force_build attach_variables append_labels
  prepare service d =
      let d' = attach_variables conf service.name (force_build labels service d) in
      record d' { labels = append_labels d'.labels labels }

  -- The body of the loop over the services.
  unfoldable pub transform_service : Builder → String → Builder
  unfolding prepare publish new_service
  transform_service b name =
      let original = get_or (lookup name b.definitions) zero_definition in
      let service = new_service conf original.name original.image in
      let d = prepare service original in
      if has_ports d
      then (let (d', service', available) = publish service d b.is_default_subdomain_available in
          record {
            definitions = insert service.name d' b.definitions;
            services = b.services ++ (service' ∷ []);
            is_default_subdomain_available = available;
          })
      else record b {
        definitions = insert service.name d b.definitions;
        services = b.services ++ (service ∷ []);
      }

  unfoldable pub transform_services : Builder → List String → Builder
  unfolding transform_service
  transform_services b [] = b
  transform_services b (name ∷ names) = transform_services (transform_service b name) names

  unfoldable pub label_networks : Map NetworkConfig → Map NetworkConfig
  unfolding append_labels
  label_networks [] = []
  label_networks ((name, network) ∷ rest) =
      (name, record network { labels = append_labels network.labels labels }) ∷ label_networks rest

  unfoldable pub label_volumes : Map VolumeConfig → Map VolumeConfig
  unfolding append_labels
  label_volumes [] = []
  label_volumes ((name, volume) ∷ rest) =
      (name, record volume { labels = append_labels volume.labels labels }) ∷ label_volumes rest

  -- `transform`: the project and the services.
  unfoldable pub transform : Project → List String → Project × List Service
  unfolding transform_services label_networks label_volumes
  transform p service_names =
      let b =
        transform_services
          (record {
            definitions = p.services;
            services = [];
            is_default_subdomain_available = true;
          })
          service_names in
      (
        record p {
          disabled_services = [];
          services = b.definitions;
          networks =
              insert network_name (record { name = network_name; external = true; labels = [] })
                (label_networks p.networks);
          volumes = label_volumes p.volumes;
        },
        b.services,
      )
