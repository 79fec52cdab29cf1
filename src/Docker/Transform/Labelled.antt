-- ===== src/Docker/Transform/Labelled.antt =====
-- The labels by which the resources of a deployment are found again: the whole project.
use seelf.Prelude.{
  String, ◌≡◌, refl, sym, ap, ◌∙◌, true, false, some, List, [], ◌∷◌, arith, string_eq, ◌⊎◌, inl,
  inr, Map, lookup, insert, lookup-insert, All, All-append, get_or, subst, String-discrete,
  Bool-cases, is_some,
}
use mathlib.Core.List.{append-nil, append_assoc, ◌++◌ as ◌++ᴸ◌}
use seelf.Domain.Services.{Service}
use seelf.Domain.Deployment.{DeploymentConfig}
use seelf.Domain.Building.{new_service}
use seelf.Docker.Project.{
  Labels, ServiceDefinition, NetworkConfig, VolumeConfig, Project, PortConfig, append_labels,
  builder_labels,
}
use seelf.Docker.Transform.Apart.{keep_named}
use seelf.Docker.Transform.Subdomains.{name-prepare}
use seelf.Docker.Transform.{
  zero_definition, definition_name, Builder, publish, any_port, has_ports, prepare,
  transform_service, transform_services, label_networks, label_volumes, transform,
}
use seelf.Docker.Transform.Keeping.{Carries, append_labels-Carries, expose_ports-Carries}
use seelf.Docker.Transform.Images.{has_build, insert-has_build, BuildCarries, prepare-build}

no_ports : (ports : List PortConfig) → any_port ports ≡ false → ports ≡ []
no_ports [] e = refl
no_ports (p ∷ rest) e = cc

module _ (app : String) (conf : DeploymentConfig) where
  -- A service as the builder leaves it: labelled, with the image to build, and with no port of its own.
  pub record IsReady (d : ServiceDefinition) : Type 0 where
    pub labelled : Carries app conf d.labels
    pub built : BuildCarries app conf d.build
    pub ports : d.ports ≡ []

  abbrev pub Done : Map ServiceDefinition → List String → Type 0
  Done definitions names =
      All (λ n. (d : ServiceDefinition) × (lookup n definitions ≡ some d) × IsReady d) names

  module _ (network : String) (routers : Map String) where
    abbrev labels : Labels
    labels = builder_labels app conf

    prepare-Carries :
        (s : Service) (d : ServiceDefinition)
        → Carries app conf (prepare conf labels network routers s d).labels
    unfolding prepare
    prepare-Carries s d = append_labels-Carries app conf _

    -- The definition that the loop leaves under the name.
    transform_service-IsReady :
        (b : Builder) (name : String)
        → (get_or (lookup name b.definitions) zero_definition).name ≡ name
        → (d : ServiceDefinition) × (d.name ≡ name)
          × IsReady d
          × (is_some d.build ≡ has_build b.definitions name)
          × ((transform_service conf labels network routers b name).definitions
              ≡ insert name d b.definitions)
    unfolding transform_service publish new_service
    transform_service-IsReady b name named =
        let original = get_or (lookup name b.definitions) zero_definition in
        let s = new_service conf original.name original.image in
        let d = prepare conf labels network routers s original in
        let its_name : d.name ≡ name =
          name-prepare conf labels network routers s original ∙ named in
        let available = b.is_default_subdomain_available in
        elim (Bool-cases (has_ports d)) [
          | inr silent ↦ (
            d,
            its_name,
            record {
              labelled = prepare-Carries s original;
              built = (prepare-build app conf network routers s original).0;
              ports = no_ports d.ports silent;
            },
            (prepare-build app conf network routers s original).1,
            rw (silent, transform_service) (ap (λ n. insert n d b.definitions) named),
          )
          | inl some_ports ↦
              let d' = (publish conf labels network routers s d available).0 in
              (
                d',
                its_name,
                record {
                  labelled =
                      expose_ports-Carries app conf routers _ d.ports (prepare-Carries s original);
                  built = (prepare-build app conf network routers s original).0;
                  ports = refl;
                },
                (prepare-build app conf network routers s original).1,
                rw (some_ports, transform_service) (ap (λ n. insert n d' b.definitions) named),
              )
        ]

    insert-Done :
        (definitions : Map ServiceDefinition) (name : String) (d : ServiceDefinition)
        (names : List String)
        → IsReady d
        → Done definitions names
        → Done (insert name d definitions) names
    insert-Done definitions name d [] ready _ = tt
    insert-Done definitions name d (m ∷ names) ready ((old, here, old_ready), rest) = (
      elim (String-discrete name m) [
        | yes p ↦ (d, ground (arith, p, lookup-insert name m d definitions), ready)
        | no p ↦ (old, ground (arith, p, here, lookup-insert name m d definitions), old_ready)
      ],
      insert-Done definitions name d names ready rest,
    )

    transform_services-Done :
        (b : Builder) (done names : List String)
        → Done b.definitions done
        → All (λ m. definition_name b.definitions m ≡ m) names
        → Done (transform_services conf labels network routers b names).definitions (done ++ᴸ names)
    unfolding transform_services
    transform_services-Done b done [] v _ = subst (Done b.definitions) (sym (append-nil done)) v
    transform_services-Done b done (name ∷ names) v (named, rest) =
        let (d, d_named, ready, _, e) = transform_service-IsReady b name named in
        let after = (transform_service conf labels network routers b name).definitions in
        let found : lookup name after ≡ some d =
          rw e (ground (arith, lookup-insert name name d b.definitions)) in
        let step = transform_service conf labels network routers b name in
        let all_done =
          All-append _ done (name ∷ [])
            (subst (λ m. Done m done) (sym e) (insert-Done b.definitions name d done ready v))
            ((d, found, ready), tt) in
        subst (Done _) (append_assoc done (name ∷ []) names) (
          transform_services-Done step (done ++ᴸ (name ∷ [])) names all_done (
            subst (λ m. All (λ n. definition_name m n ≡ n) names) (sym e)
              (keep_named b.definitions name d names d_named rest)))

    transform_services-has_build :
        (b : Builder) (names : List String)
        → All (λ m. definition_name b.definitions m ≡ m) names
        → (m : String)
        → has_build (transform_services conf labels network routers b names).definitions m
          ≡ has_build b.definitions m
    unfolding transform_services
    transform_services-has_build b [] _ m = refl
    transform_services-has_build b (name ∷ names) (named, rest) m =
        let (d, d_named, ready, kept, e) = transform_service-IsReady b name named in
        let step = transform_service conf labels network routers b name in
        let same = ap (λ l. has_build l m) e ∙ insert-has_build b.definitions name m d kept in
        transform_services-has_build step names
          (subst (λ l. All (λ n. definition_name l n ≡ n) names) (sym e)
            (keep_named b.definitions name d names d_named rest))
          m
        ∙ same

    label_networks-Carries :
        (networks : Map NetworkConfig) (name : String) (n : NetworkConfig)
        → lookup name (label_networks conf labels network routers networks) ≡ some n
        → Carries app conf n.labels
    unfolding label_networks lookup
    label_networks-Carries [] name n h = absurd (cc)
    label_networks-Carries ((key, first) ∷ rest) name n h = elim (String-discrete key name) [
      | yes p ↦
          let same : record first { labels = append_labels first.labels labels } ≡ n =
            ground (arith, p, h) in
          subst (λ m. Carries app conf m.labels) same (append_labels-Carries app conf first.labels)
      | no p ↦ label_networks-Carries rest name n (ground (arith, p, h))
    ]

    label_volumes-Carries :
        (volumes : Map VolumeConfig) (name : String) (v : VolumeConfig)
        → lookup name (label_volumes conf labels network routers volumes) ≡ some v
        → Carries app conf v.labels
    unfolding label_volumes lookup
    label_volumes-Carries [] name v h = absurd (cc)
    label_volumes-Carries ((key, first) ∷ rest) name v h = elim (String-discrete key name) [
      | yes p ↦
          let same : record first { labels = append_labels first.labels labels } ≡ v =
            ground (arith, p, h) in
          subst (λ m. Carries app conf m.labels) same (append_labels-Carries app conf first.labels)
      | no p ↦ label_volumes-Carries rest name v (ground (arith, p, h))
    ]

    -- The services of a project, the images to build for them, its networks and its volumes carry the labels
    -- of the application, the target and the environment, but the networks that are declared outside of
    -- it. No service publishes a port, and the services that had an image to build are those that have one.
    pub transform_labelled :
        (p : Project) (names : List String)
        → All (λ m. definition_name p.services m ≡ m) names
        → Done (transform conf labels network routers p names).0.services names
          × ((name : String) (n : NetworkConfig)
              → lookup name (transform conf labels network routers p names).0.networks ≡ some n
              → (n.external ≡ true) ⊎ Carries app conf n.labels)
          × ((name : String) (v : VolumeConfig)
              → lookup name (transform conf labels network routers p names).0.volumes ≡ some v
              → Carries app conf v.labels)
          × ((m : String)
              → has_build (transform conf labels network routers p names).0.services m
                ≡ has_build p.services m)
    unfolding transform
    transform_labelled p names named = (
      transform_services-Done
          (record {
            definitions = p.services;
            services = [];
            is_default_subdomain_available = true;
          })
          [] names tt named,
      λ name n h. elim (String-discrete network name) [
        | yes q ↦ inl (
            ground (
              arith,
              h,
              q,
              lookup-insert network name (record { name = network; external = true; labels = [] })
                  (label_networks conf labels network routers p.networks),
            ))
        | no q ↦ inr (
            label_networks-Carries p.networks name n (
              ground (
                arith,
                h,
                q,
                lookup-insert network name (record { name = network; external = true; labels = [] })
                    (label_networks conf labels network routers p.networks),
              )))
      ],
      label_volumes-Carries p.volumes,
      transform_services-has_build
          (record {
            definitions = p.services;
            services = [];
            is_default_subdomain_available = true;
          })
          names named,
    )
