-- ===== src/Docker/Resolve.antt =====
-- `resolveNewEntrypoints`, `normalize` and `Build` of internal/deployment/infra/provider/docker/proxy.go.
-- The finder's container is started (`up`), read (`inspect`: the host ports by the key of the container's
-- port) and removed (`down`). An index out of range panics in the source, and is an error here.
pub mod Preparing
pub mod Covering
pub mod Known
pub mod Sorting
use Prim.Native.Nat.{Ordering}
use Prim.Native.String.{compare}
use seelf.Prelude.{
  ℕ, ◌≤◌, String, Bool, true, false, Option, none, some, List, [], ◌∷◌, if◌then◌else◌, leb, Map,
  lookup, get_or, Result, ok, err, infra, Error, ◌>>=◌,
}
use seelf.Domain.Entrypoints.{TargetEntrypointsAssigned, set_assigned}
use seelf.Domain.Target.{Target}
use seelf.Domain.Naming.{parse_port}
use seelf.Docker.Project.{PortConfig}
use seelf.Docker.Proxy.{
  EntrypointDefinition, ProxyBuilder, new_proxy_project_builder, create_compose_project,
  add_entrypoint, prepare_custom_entrypoints,
}

-- The first host port of a container's port.
abbrev pub first_host_port : List String → Result String
first_host_port [] = err (infra "runtime error: index out of range")
first_host_port (p ∷ _) = ok p

-- The loop over the new entrypoints.
unfoldable pub resolve_ports :
    Map (List String) → ProxyBuilder → List EntrypointDefinition → Result ProxyBuilder
unfolding add_entrypoint set_assigned parse_port
resolve_ports host_ports b [] = ok b
resolve_ports host_ports b (e ∷ rest) =
    first_host_port (get_or (lookup e.key host_ports) []) >>= λ raw. parse_port raw >>= λ port.
    let b' = add_entrypoint b e.name port in
    resolve_ports host_ports
      (record b' { assigned = set_assigned b'.assigned e.app e.env e.name port }) rest

abbrev pub lift : Option Error → Result (Unit {0})
lift none = ok tt
lift (some e) = err e

-- s <= t, as `slices.Sort` compares texts.
unfoldable pub text_le : String → String → Bool
text_le s t = elim (compare s t) [ Ordering.gt ↦ false | _ ↦ true ]

module _ {A : Type 0} (le : A → A → Bool) where
  unfoldable pub insert_sorted : A → List A → List A
  insert_sorted a [] = a ∷ []
  insert_sorted a (b ∷ rest) =
      let later = insert_sorted a rest in if le a b then a ∷ b ∷ rest else b ∷ later

  -- A sort; among equals the order is that of the list.
  unfoldable pub sort : List A → List A
  unfolding insert_sorted
  sort [] = []
  sort (a ∷ rest) = insert_sorted a (sort rest)

-- `ServicePortSortFunc`
abbrev pub port_le : PortConfig → PortConfig → Bool
port_le a b = leb a.target b.target

-- `normalize`
unfoldable pub normalize : ProxyBuilder → ProxyBuilder
unfolding sort text_le
normalize b = record b { command = sort text_le b.command; ports = sort port_le b.ports }

module _ (new_port : String → String → Result String) (up : List PortConfig → Option Error)
    (inspect : Result (Map (List String))) (down : Option Error) where
  unfoldable pub resolve_list : ProxyBuilder → List EntrypointDefinition → Result ProxyBuilder
  unfolding resolve_ports
  resolve_list b [] = ok b
  resolve_list b (e ∷ rest) = do
    started ← lift (up b.new_ports)
    host_ports ← inspect
    b' ← resolve_ports host_ports b (e ∷ rest)
    removed ← lift down
    ok b'

  unfoldable pub resolve_new_entrypoints : ProxyBuilder → Result ProxyBuilder
  unfolding resolve_list
  resolve_new_entrypoints b = resolve_list b b.new_entrypoints

  -- `Build`: the command and the ports of the proxy, and the ports that were assigned.
  unfoldable pub build : Target → Result (List String × List PortConfig × TargetEntrypointsAssigned)
  unfolding create_compose_project prepare_custom_entrypoints resolve_new_entrypoints normalize
      new_proxy_project_builder
  build t = do
    prepared ←
        prepare_custom_entrypoints new_port (create_compose_project (new_proxy_project_builder t))
    resolved ← resolve_new_entrypoints prepared
    let done = normalize resolved
    ok (done.command, done.ports, done.assigned)
