-- ===== src/Docker/Project.antt =====
-- internal/deployment/infra/provider/docker/deployment.go: the project of a deployment. Compose's own
-- types are kept as far as the builder reads and writes them. The builder's project and its services
-- are passed on; what it logs is left out. A nil map reads as an empty one.
use Prim.Native.String.{◌++◌}
use seelf.Prelude.{
  ℕ, String, Bool, false, Option, none, some, List, [], ◌∷◌, if◌then◌else◌, not, ◌==◌, string_eq,
  Map, lookup, insert, get_or,
}
use seelf.Domain.Services.{Entrypoint, Service}
use seelf.Domain.Deployment.{DeploymentConfig}
use seelf.Domain.Naming.{has_char, port_string, to_lower}
use seelf.Domain.Building.{add_http_entrypoint, add_tcp_entrypoint, add_udp_entrypoint}

abbrev pub Labels : Type 0
Labels = Map String

pub record PortConfig : Type 0 where
  pub target : ℕ
  pub published : String
  pub protocol : String

-- `build` has the labels of the image to build, if there is one to build. The options of a network are
-- kept as text, `none` is nil.
pub record ServiceDefinition : Type 0 where
  pub name : String
  pub image : String
  pub pull_policy : String
  pub build : Option Labels
  pub environment : Map (Option String)
  pub labels : Labels
  pub ports : List PortConfig
  pub networks : Map (Option String)

pub record NetworkConfig : Type 0 where
  pub name : String
  pub external : Bool
  pub labels : Labels

pub record VolumeConfig : Type 0 where
  pub name : String
  pub labels : Labels

pub record Project : Type 0 where
  pub name : String
  pub services : Map ServiceDefinition
  pub disabled_services : Map ServiceDefinition
  pub networks : Map NetworkConfig
  pub volumes : Map VolumeConfig

abbrev pub app_label : String
app_label = "app.seelf.application"

abbrev pub environment_label : String
environment_label = "app.seelf.environment"

abbrev pub target_label : String
target_label = "app.seelf.target"

abbrev pub subdomain_label : String
subdomain_label = "app.seelf.subdomain"

abbrev pub custom_entrypoints_label : String
custom_entrypoints_label = "app.seelf.custom_entrypoints"

-- `targetPublicNetworkName`
unfoldable pub target_public_network_name : String → String
unfolding to_lower
target_public_network_name id = "seelf-gateway-" ++ to_lower id

-- for k, v := range more { m[k] = v }
unfoldable pub insert_all : {V : Type 0} → Map V → Map V → Map V
insert_all m [] = m
insert_all m ((k, v) ∷ more) = insert_all (insert k v m) more

-- `appendLabels`
unfoldable pub append_labels : Labels → Labels → Labels
unfolding insert_all
append_labels target labels_to_add = insert_all target labels_to_add

-- The labels of the builder (`newDeploymentProjectBuilder`).
unfoldable pub builder_labels : String → DeploymentConfig → Labels
builder_labels app c =
    (app_label, app) ∷ (target_label, c.target) ∷ (environment_label, c.environment) ∷ []

-- One mapping that `nat.ParsePortSpec` reads in a definition.
pub record PortMapping : Type 0 where
  pub host_port : String
  pub port : String
  pub proto : String

abbrev pub port_key : String → String → String → String
port_key published target protocol = published ++ (":" ++ (target ++ ("/" ++ protocol)))

-- The routers are texts, as in the source: a protocol is taken over as it stands.
unfoldable pub record_mappings : Map String → Bool → List PortMapping → Map String
record_mappings routers explicit [] = routers
record_mappings routers explicit (p ∷ rest) =
    record_mappings
      (if p.host_port == ""
        then routers
        else insert (port_key p.host_port p.port p.proto) (if not explicit then "http" else p.proto)
            routers)
      explicit rest

-- `parsePortDefinition`
module _ (parse_port_spec : String → List PortMapping) where
  unfoldable pub parse_port_definition : Map String → String → Map String
  unfolding record_mappings has_char
  parse_port_definition routers raw_value =
      record_mappings routers (has_char b'/' raw_value) (parse_port_spec raw_value)

-- `routerFor`
unfoldable pub router_for : Map String → PortConfig → Option String
unfolding port_string
router_for routers config =
    lookup (port_key config.published (port_string config.target) config.protocol) routers

-- The variables of the loop over the ports of one service.
pub record Exposure : Type 0 where
  pub labels : Labels
  pub service : Service
  pub http_main_entry_point_available : Bool
  pub is_default_subdomain_available : Bool

abbrev pub traefik : String → String → String → String → String
traefik router middle name end =
    "traefik." ++ (router ++ ("." ++ (middle ++ ("." ++ (name ++ ("." ++ end))))))

-- The labels for an entrypoint, after the switch on its router.
unfoldable pub attach : Exposure → String → Entrypoint → Exposure
unfolding port_string
attach x router e =
    let routed =
      if not e.is_custom
      then record x {
        labels = insert (traefik router "routers" e.name "entrypoints") "http" x.labels;
        is_default_subdomain_available = false;
      }
      else record x {
        labels =
            insert (traefik router "routers" e.name "entrypoints") e.name
              (insert custom_entrypoints_label "true" x.labels);
      } in
    record routed {
      labels =
          insert (traefik router "services" e.name "loadbalancer.server.port") (port_string e.port)
            (insert (traefik router "routers" e.name "service") e.name routed.labels);
    }

-- The switch. An HTTP entrypoint has a subdomain, so that `MustGet` has a value.
unfoldable pub expose_router : DeploymentConfig → Exposure → ℕ → String → Exposure
unfolding attach add_http_entrypoint add_tcp_entrypoint add_udp_entrypoint
expose_router conf x target router =
    if router == "http"
    then (let (s, e) =
          add_http_entrypoint x.service conf target x.http_main_entry_point_available
            x.is_default_subdomain_available in
        attach
          (record x {
            service = s;
            http_main_entry_point_available = false;
            labels = insert subdomain_label (get_or e.subdomain "") x.labels;
          })
          router e)
    else if router == "tcp"
    then (let (s, e) = add_tcp_entrypoint x.service target in
        attach
          (record x {
            service = s;
            labels = insert (traefik "tcp" "routers" e.name "rule") "HostSNI(`*`)" x.labels;
          })
          router e)
    else if router == "udp"
    then (let (s, e) = add_udp_entrypoint x.service target in
        attach (record x { service = s }) router e)
    else x

unfoldable pub expose_ports : DeploymentConfig → Map String → Exposure → List PortConfig → Exposure
unfolding router_for expose_router
expose_ports conf routers x [] = x
expose_ports conf routers x (p ∷ rest) =
    expose_ports conf routers
      (elim (router_for routers p) [
        | none ↦ x
        | some router ↦ expose_router conf x p.target router
      ])
      rest
