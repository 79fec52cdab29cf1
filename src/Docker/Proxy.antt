-- ===== src/Docker/Proxy.antt =====
-- internal/deployment/infra/provider/docker/proxy.go: the project of the proxy of a target, and the ports
-- that its custom entrypoints get. `nat.NewPort`, Compose and the Docker client are parameters. The
-- finder's project and the labels of the proxy are left out.
use Prim.Native.String.{◌++◌}
use mathlib.Core.List.{◌++◌ as ◌++ᴸ◌}
use seelf.Prelude.{
  length, ℕ, ◌+◌, ◌%◌, ◌^◌, String, none, some, List, [], ◌∷◌, if◌then◌else◌, ◌==◌, string_eq,
  Result, ok, ◌>>=◌,
}
use seelf.Domain.Values.{use_ssl}
use seelf.Domain.Entrypoints.{Entries, AppEntries, TargetEntrypoints, TargetEntrypointsAssigned}
use seelf.Domain.Target.{Target}
use seelf.Domain.Naming.{to_lower, port_string, protocol}
use seelf.Docker.Project.{
  PortConfig, target_label, subdomain_label, custom_entrypoints_label, target_public_network_name,
}

abbrev pub exposed_label : String
exposed_label = "app.seelf.exposed"

abbrev pub ports_finder_starting_port : ℕ
ports_finder_starting_port = 8080

-- A custom entrypoint that has no port yet, and the key of its port in the finder's container.
pub record EntrypointDefinition : Type 0 where
  pub app : String
  pub env : String
  pub name : String
  pub key : String

-- The proxy service is its command, its ports and the sources of its volumes.
pub record ProxyBuilder : Type 0 where
  pub target : String
  pub host : String
  pub project_name : String
  pub network_name : String
  pub cert_resolver_name : String
  pub entrypoints : TargetEntrypoints
  pub assigned : TargetEntrypointsAssigned
  pub new_entrypoints : List EntrypointDefinition
  pub new_ports : List PortConfig
  pub command : List String
  pub ports : List PortConfig
  pub volumes : List String

-- `newProxyProjectBuilder`
unfoldable pub new_proxy_project_builder : Target → ProxyBuilder
unfolding use_ssl target_public_network_name to_lower
new_proxy_project_builder t = record {
  target = t.id;
  host = t.url.value.host;
  project_name = "seelf-internal-" ++ to_lower t.id;
  network_name = target_public_network_name t.id;
  cert_resolver_name = if use_ssl t.url then "seelf-resolver-" ++ to_lower t.id else "";
  entrypoints = t.custom_entrypoints;
  assigned = [];
  new_entrypoints = [];
  new_ports = [];
  command = [];
  ports = [];
  volumes = [];
}

-- The constraint by which Traefik takes the containers of the target.
abbrev constraints : String → String
constraints target =
    "--providers.docker.constraints=(Label(`"
    ++ (target_label
        ++ ("`, `"
            ++ (target
                ++ ("`) && (Label(`"
                    ++ (custom_entrypoints_label
                        ++ ("`, `true`) || LabelRegex(`"
                            ++ (subdomain_label
                                ++ ("`, `.+`))) || Label(`"
                                    ++ (exposed_label ++ "`, `true`)")))))))))

abbrev default_rule : String → String
default_rule host =
    "--providers.docker.defaultrule=Host(`{{ index .Labels \""
    ++ (subdomain_label ++ ("\"}}." ++ (host ++ "`)")))

abbrev common_command : ProxyBuilder → List String
common_command b =
    "--providers.docker"
    ∷ ("--providers.docker.network=" ++ b.network_name)
    ∷ constraints b.target
    ∷ default_rule b.host
    ∷ []

abbrev tls_command : String → List String
tls_command resolver =
    "--entrypoints.insecure.address=:80"
    ∷ "--entrypoints.insecure.http.redirections.entryPoint.to=http"
    ∷ "--entrypoints.insecure.http.redirections.entryPoint.scheme=https"
    ∷ "--entrypoints.http.address=:443"
    ∷ ("--certificatesresolvers." ++ (resolver ++ ".acme.tlschallenge=true"))
    ∷ ("--certificatesresolvers." ++ (resolver ++ ".acme.storage=/letsencrypt/acme.json"))
    ∷ ("--entrypoints.http.http.tls.certresolver=" ++ resolver)
    ∷ []

abbrev http_port : PortConfig
http_port = record { target = 80; published = "80"; protocol = "" }

abbrev https_port : PortConfig
https_port = record { target = 443; published = "443"; protocol = "" }

-- `createComposeProject`
unfoldable pub create_compose_project : ProxyBuilder → ProxyBuilder
create_compose_project b =
    if b.cert_resolver_name == ""
    then record b {
      command = common_command b ++ᴸ ("--entrypoints.http.address=:80" ∷ []);
      ports = http_port ∷ [];
      volumes = "/var/run/docker.sock" ∷ [];
    }
    else record b {
      command = common_command b ++ᴸ tls_command b.cert_resolver_name;
      ports = http_port ∷ https_port ∷ [];
      volumes = "/var/run/docker.sock" ∷ "letsencrypt" ∷ [];
    }

-- `addEntrypoint`
unfoldable pub add_entrypoint : ProxyBuilder → String → ℕ → ProxyBuilder
unfolding port_string protocol
add_entrypoint b name port =
    let published = port_string port in
    let proto = protocol name in
    record b {
      command =
          b.command
          ++ᴸ (("--entrypoints." ++ (name ++ (".address=:" ++ (published ++ ("/" ++ proto)))))
              ∷ []);
      ports =
          b.ports
          ++ᴸ (record { target = port % 2 ^ 32; published = published; protocol = proto } ∷ []);
    }

module _ (new_port : String → String → Result String) where
  -- An entrypoint whose port is not known.
  unfoldable pub add_new_entrypoint : ProxyBuilder → String → String → String → Result ProxyBuilder
  unfolding port_string protocol
  add_new_entrypoint b app env name = do
    let proto = protocol name
    let port = ports_finder_starting_port + length b.new_entrypoints
    key ← new_port proto (port_string port)
    ok (record b {
      new_ports =
          b.new_ports
          ++ᴸ (record { target = port % 2 ^ 32; published = ""; protocol = proto } ∷ []);
      new_entrypoints =
          b.new_entrypoints ++ᴸ (record { app = app; env = env; name = name; key = key } ∷ []);
    })

  -- The three loops of `prepareCustomEntrypoints`.
  unfoldable pub prepare_entries : ProxyBuilder → String → String → Entries → Result ProxyBuilder
  unfolding add_entrypoint add_new_entrypoint
  prepare_entries b app env [] = ok b
  prepare_entries b app env ((name, some port) ∷ rest) =
      prepare_entries (add_entrypoint b name port) app env rest
  prepare_entries b app env ((name, none) ∷ rest) =
      add_new_entrypoint b app env name >>= λ b'. prepare_entries b' app env rest

  unfoldable pub prepare_envs : ProxyBuilder → String → AppEntries → Result ProxyBuilder
  unfolding prepare_entries
  prepare_envs b app [] = ok b
  prepare_envs b app ((env, entries) ∷ rest) =
      prepare_entries b app env entries >>= λ b'. prepare_envs b' app rest

  unfoldable pub prepare_apps : ProxyBuilder → TargetEntrypoints → Result ProxyBuilder
  unfolding prepare_envs
  prepare_apps b [] = ok b
  prepare_apps b ((app, envs) ∷ rest) = prepare_envs b app envs >>= λ b'. prepare_apps b' rest

  -- `prepareCustomEntrypoints`
  unfoldable pub prepare_custom_entrypoints : ProxyBuilder → Result ProxyBuilder
  unfolding prepare_apps
  prepare_custom_entrypoints b = prepare_apps b b.entrypoints
