-- ===== src/Domain/Building.antt =====
-- The services of a deployment and their entrypoints: `NewService`, `AddHttpEntrypoint`,
-- `AddTCPEntrypoint` and `AddUDPEntrypoint` of internal/deployment/domain/service.go.
use seelf.Prelude.{
  ℕ, String, Bool, true, Option, none, some, List, [], ◌∷◌, ◌++◌, if◌then◌else◌, ◌&&◌, not, ◌==◌,
  string_eq, ℕ_eq, Eq, get_or,
}
use seelf.Domain.Services.{Router, http, tcp, udp, Entrypoint, Service}
use seelf.Domain.Deployment.{DeploymentConfig}
use seelf.Domain.Naming.{new_entrypoint_name, qualified_name, image_name, sub_domain}

-- `DeploymentConfig.NewService`
unfoldable pub new_service : DeploymentConfig → String → String → Service
unfolding qualified_name image_name
new_service c name image = record {
  name = name;
  qualified_name = qualified_name c name;
  image = if image == "" then image_name c name else image;
  entrypoints = [];
}

unfoldable pub Router-discrete : Discrete Router
Router-discrete = hlevel

instance abbrev pub router_eq : Eq Router
router_eq = record { dec = Router-discrete }

-- The first entrypoint of the router on the port.
unfoldable pub existing_entrypoint : Router → ℕ → List Entrypoint → Option Entrypoint
existing_entrypoint router port [] = none
existing_entrypoint router port (e ∷ rest) =
    if e.port == port && e.router == router then some e else existing_entrypoint router port rest

-- `Service.addEntrypoint`; the subdomain is an optional argument.
unfoldable pub add_entrypoint : Service → Router → Bool → ℕ → Option String → Service × Entrypoint
unfolding new_entrypoint_name existing_entrypoint
add_entrypoint s router is_custom port subdomain =
    elim (existing_entrypoint router port s.entrypoints) [
      | some e ↦ (s, e)
      | none ↦
          let e : Entrypoint = record {
            name = new_entrypoint_name s.qualified_name router port;
            is_custom = is_custom;
            router = router;
            subdomain = subdomain;
            port = port;
          } in
          (record s { entrypoints = s.entrypoints ++ (e ∷ []) }, e)
    ]

unfoldable pub first_http : List Entrypoint → Option Entrypoint
first_http [] = none
first_http (e ∷ rest) = if e.router == http then some e else first_http rest

-- `Service.AddHttpEntrypoint`
unfoldable pub add_http_entrypoint :
    Service → DeploymentConfig → ℕ → (managed use_default_subdomain : Bool) → Service × Entrypoint
unfolding add_entrypoint first_http sub_domain
add_http_entrypoint s conf port managed use_default = elim (first_http s.entrypoints) [
  | some e ↦ add_entrypoint s http (not managed) port (some (get_or e.subdomain ""))
  | none ↦ add_entrypoint s http (not managed) port (some (sub_domain conf s.name use_default))
]

unfoldable pub add_tcp_entrypoint : Service → ℕ → Service × Entrypoint
unfolding add_entrypoint
add_tcp_entrypoint s port = add_entrypoint s tcp true port none

unfoldable pub add_udp_entrypoint : Service → ℕ → Service × Entrypoint
unfolding add_entrypoint
add_udp_entrypoint s port = add_entrypoint s udp true port none
