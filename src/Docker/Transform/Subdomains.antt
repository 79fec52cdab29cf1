-- ===== src/Docker/Transform/Subdomains.antt =====
-- The subdomains of the services of one deployment.
use seelf.Prelude.{
  string_eq, String, ◌≡◌, refl, sym, ap, ◌∙◌, Bool, true, List, [], ◌∷◌, ◌++◌, arith, subst, get_or,
  All, Map, lookup, insert, Bool-cases, inl, inr,
}
use mathlib.Core.List.{append-nil, append_assoc}
use seelf.Domain.Services.{Service}
use seelf.Domain.Deployment.{DeploymentConfig}
use seelf.Domain.Naming.{sub_domain}
use seelf.Domain.Building.{new_service, router_eq, first_http}
use seelf.Docker.Project.{ServiceDefinition, Project, expose_ports}
use seelf.Docker.Transform.Entries.{IsGood}
use seelf.Docker.Transform.Exposed.{Inv, expose_ports-Inv}
use seelf.Docker.Transform.{
  zero_definition, definition_name, Builder, publish, has_ports, prepare, transform_service,
  transform_services, transform,
}
use seelf.Docker.Transform.Apart.{
  still, Assigned, left_after, Assigned-append, left_after-append, service_names,
  service_names-append, keep_named, Distinct, SubdomainsDiffer, Assigned-differ,
}

module _ (conf : DeploymentConfig) (labels : Map String) (network : String)
    (routers : Map String) where
  -- The services so far, and whether the default subdomain is left.
  record BuilderInv (b : Builder) (done : List String) : Type 0 where
    assigned : Assigned conf true b.services
    left : b.is_default_subdomain_available ≡ left_after true b.services
    named : service_names b.services ≡ done

  pub name-prepare :
      (s : Service) (d : ServiceDefinition)
      → (prepare conf labels network routers s d).name ≡ d.name
  unfolding prepare
  name-prepare s d = ground arith

  publish-Inv :
      (s : Service) (d : ServiceDefinition) (avail : Bool)
      → s.entrypoints ≡ []
      → Inv conf s.name avail (
          expose_ports conf routers
            (record {
              labels = d.labels;
              service = s;
              http_main_entry_point_available = true;
              is_default_subdomain_available = avail;
            })
            d.ports)
  unfolding first_http
  publish-Inv s d avail none_yet =
      expose_ports-Inv conf s.name avail routers _ d.ports
        (record { named = refl; good = rw none_yet tt; main = rw none_yet refl; left = refl })

  -- What one service adds.
  module _ (b : Builder) (name : String) (done : List String) where
    abbrev original : ServiceDefinition
    original = get_or (lookup name b.definitions) zero_definition

    abbrev fresh : Service
    fresh = new_service conf original.name original.image

    added-BuilderInv :
        (s : Service) (available : Bool) (definitions : Map ServiceDefinition)
        → BuilderInv b done
        → s.name ≡ name
        → All (IsGood (sub_domain conf s.name b.is_default_subdomain_available)) s.entrypoints
        → available ≡ still b.is_default_subdomain_available s
        → BuilderInv
            (record {
              definitions = definitions;
              services = b.services ++ (s ∷ []);
              is_default_subdomain_available = available;
            })
            (done ++ (name ∷ []))
    added-BuilderInv s available definitions v named good left = record {
      assigned =
          Assigned-append conf true b.services s v.assigned
            (subst (λ a. All (IsGood (sub_domain conf s.name a)) s.entrypoints) v.left good);
      left = left ∙ (ap (λ a. still a s) v.left ∙ sym (left_after-append true b.services s));
      named = service_names-append b.services s ∙ (λ i. v.named i ++ (named i ∷ []));
    }

    transform_service-BuilderInv :
        BuilderInv b done
        → original.name ≡ name
        → BuilderInv (transform_service conf labels network routers b name) (done ++ (name ∷ []))
          × ((d : ServiceDefinition) × (d.name ≡ name)
              × ((transform_service conf labels network routers b name).definitions
                  ≡ insert name d b.definitions))
    unfolding transform_service publish new_service
    transform_service-BuilderInv v named =
        let d = prepare conf labels network routers fresh original in
        let its_name : d.name ≡ name = name-prepare fresh original ∙ named in
        elim (Bool-cases (has_ports d)) [
          | inl ports ↦
              let (d', s', available) =
                publish conf labels network routers fresh d b.is_default_subdomain_available in
              let i = publish-Inv fresh d b.is_default_subdomain_available refl in
              rw (ports, transform_service)
                (
                  added-BuilderInv s' available (insert original.name d' b.definitions) v
                      (i.named ∙ named)
                      (subst
                        (λ n.
                          All (IsGood (sub_domain conf n b.is_default_subdomain_available))
                            s'.entrypoints)
                        (sym i.named) i.good)
                      (ground (arith, i.left, i.main)),
                  (d', its_name, ap (λ n. insert n d' b.definitions) named),
                )
          | inr silent ↦
              rw (silent, transform_service)
                (
                  added-BuilderInv fresh b.is_default_subdomain_available
                      (insert original.name d b.definitions) v named tt refl,
                  (d, its_name, ap (λ n. insert n d b.definitions) named),
                )
        ]

  transform_services-BuilderInv :
      (b : Builder) (done names : List String)
      → BuilderInv b done
      → All (λ m. definition_name b.definitions m ≡ m) names
      → BuilderInv (transform_services conf labels network routers b names) (done ++ names)
  unfolding transform_services
  transform_services-BuilderInv b done [] v _ =
      subst (λ l. BuilderInv b l) (sym (append-nil done)) v
  transform_services-BuilderInv b done (name ∷ names) v (named, rest) =
      let (v', (d, d_named, e)) = transform_service-BuilderInv b name done v named in
      subst (BuilderInv _) (append_assoc done (name ∷ []) names) (
        transform_services-BuilderInv (transform_service conf labels network routers b name)
          (done ++ (name ∷ [])) names v'
          (subst (λ m. All (λ n. definition_name m n ≡ n) names) (sym e)
            (keep_named b.definitions name d names d_named rest)))

  -- The services of a deployment come in the order of their names, and the HTTP entrypoints of two of
  -- them never have the same subdomain.
  pub subdomains_differ :
      (p : Project) (names : List String)
      → Distinct names
      → All (λ m. definition_name p.services m ≡ m) names
      → (service_names (transform conf labels network routers p names).1 ≡ names)
        × SubdomainsDiffer (transform conf labels network routers p names).1
  unfolding transform
  subdomains_differ p names distinct named =
      let v =
        transform_services-BuilderInv
          (record {
            definitions = p.services;
            services = [];
            is_default_subdomain_available = true;
          })
          [] names (record { assigned = tt; left = refl; named = refl }) named in
      (v.named, Assigned-differ conf true _ (subst Distinct (sym v.named) distinct) v.assigned)
