-- ===== src/Docker/Resolve/Covering.antt =====
-- The ports that the proxy of a target is assigned.
use seelf.Prelude.{
  bind-ok, ℕ, String, ◌≡◌, true, Option, none, some, List, [], ◌∷◌, arith, if◌then◌else◌, ◌&&◌,
  ◌||◌, ◌==◌, string_eq, Map, lookup, insert, lookup-insert, any, get_or, is_some, Result, ok,
  Error,
}
use seelf.Domain.Entrypoints.{TargetEntrypointsAssigned, at, port_of, set_assigned}
use seelf.Domain.Target.{Target}
use seelf.Domain.Naming.{parse_port}
use seelf.Docker.Project.{PortConfig}
use seelf.Docker.Proxy.{
  EntrypointDefinition, ProxyBuilder, new_proxy_project_builder, create_compose_project,
  add_entrypoint, prepare_custom_entrypoints,
}
use seelf.Docker.Resolve.{
  first_host_port, resolve_ports, resolve_list, lift, normalize, resolve_new_entrypoints, build,
}
use seelf.Docker.Resolve.Preparing.{names_it, apps-want}

-- The port that was assigned.
abbrev pub assigned_of : TargetEntrypointsAssigned → String → String → String → Option ℕ
assigned_of a app env name = lookup name (at env (at app a))

assigned_of-set :
    (a : TargetEntrypointsAssigned) (app env name c v n : String) (port : ℕ)
    → assigned_of (set_assigned a app env name port) c v n
      ≡ (if app == c && (env == v && name == n) then some port else assigned_of a c v n)
unfolding set_assigned lookup
assigned_of-set a app env name c v n port =
    let inner = insert name port (at env (at app a)) in
    let middle = insert env inner (at app a) in
    ground (
      arith,
      lookup-insert app c middle a,
      lookup-insert env v inner (at app a),
      lookup-insert name n port (at env (at app a)),
    )

-- The loop over the new entrypoints assigns a port to each, and forgets none.
resolve_ports-assigns :
    (host_ports : Map (List String)) (b b' : ProxyBuilder) (defs : List EntrypointDefinition)
    (app env name : String)
    → resolve_ports host_ports b defs ≡ ok b'
    → (is_some (assigned_of b.assigned app env name) || any (names_it app env name) defs) ≡ true
    → is_some (assigned_of b'.assigned app env name) ≡ true
unfolding resolve_ports any add_entrypoint
resolve_ports-assigns host_ports b b' [] app env name h some_ = ground (arith, h, some_)
resolve_ports-assigns host_ports b b' (e ∷ rest) app env name h some_ =
    let (raw, _, h') = bind-ok (first_host_port (get_or (lookup e.key host_ports) [])) _ h in
    let (port, _, later) = bind-ok (parse_port raw) _ h' in
    let next = add_entrypoint b e.name port in
    let after = record next { assigned = set_assigned next.assigned e.app e.env e.name port } in
    resolve_ports-assigns host_ports after b' rest app env name later
      (ground (arith, some_, assigned_of-set b.assigned e.app e.env e.name app env name port))

entrypoints-create : (b : ProxyBuilder) → (create_compose_project b).entrypoints ≡ b.entrypoints
unfolding create_compose_project
entrypoints-create b = ground arith

module _ (new_port : String → String → Result String) (up : List PortConfig → Option Error)
    (inspect : Result (Map (List String))) (down : Option Error) where
  resolve-assigns :
      (b b' : ProxyBuilder) (defs : List EntrypointDefinition) (app env name : String)
      → resolve_list new_port up inspect down b defs ≡ ok b'
      → any (names_it app env name) defs ≡ true
      → is_some (assigned_of b'.assigned app env name) ≡ true
  unfolding resolve_list any
  resolve-assigns b b' [] app env name h w = absurd (cc)
  resolve-assigns b b' (d ∷ defs) app env name h w =
      let (_, _, h1) = bind-ok (lift (up b.new_ports)) _ h in
      let (host_ports, _, h2) = bind-ok inspect _ h1 in
      let (found, resolved, h3) = bind-ok (resolve_ports host_ports b (d ∷ defs)) _ h2 in
      let (_, _, same) = bind-ok (lift down) _ h3 in
      let it =
        resolve_ports-assigns host_ports b found (d ∷ defs) app env name resolved
          (ground (arith, w)) in
      ground (arith, it, same)

  -- When the proxy of a target could be built, a port is assigned to each of the target's entrypoints
  -- that had none.
  pub build-covers :
      (t : Target) (command : List String) (ports : List PortConfig)
      (assigned : TargetEntrypointsAssigned) (app env name : String)
      → build new_port up inspect down t ≡ ok (command, ports, assigned)
      → port_of t.custom_entrypoints app env name ≡ some none
      → is_some (assigned_of assigned app env name) ≡ true
  unfolding build prepare_custom_entrypoints resolve_new_entrypoints new_proxy_project_builder
      normalize
  build-covers t command ports assigned app env name h here =
      let (prepared, p, h') =
        bind-ok
          (prepare_custom_entrypoints new_port
            (create_compose_project (new_proxy_project_builder t)))
          _ h in
      let (resolved, r, done) =
        bind-ok (resolve_new_entrypoints new_port up inspect down prepared) _ h' in
      let start = create_compose_project (new_proxy_project_builder t) in
      let w =
        apps-want new_port start start.entrypoints prepared app env name p
          (rw (entrypoints-create (new_proxy_project_builder t)) here) in
      let covered = resolve-assigns prepared resolved prepared.new_entrypoints app env name r w in
      ground (arith, covered, done)
