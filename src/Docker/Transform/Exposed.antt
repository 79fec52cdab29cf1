-- ===== src/Docker/Transform/Exposed.antt =====
-- The entrypoints that the loop over the ports of one service adds.
use seelf.Prelude.{
  string_eq, ℕ, String, ◌≡◌, ◌≢◌, refl, sym, ap, ◌∙◌, Bool, true, false, Option, none, some, List,
  [], ◌∷◌, arith, if◌then◌else◌, not, ◌==◌, ◌||◌, subst, is_some, get_or, All, All-append, Map,
  Option-cases, Bool-cases, inl, inr,
}
use seelf.Domain.Services.{Router, http, tcp, udp, Entrypoint, Service}
use seelf.Domain.Deployment.{DeploymentConfig}
use seelf.Domain.Naming.{sub_domain}
use seelf.Domain.Building.{
  router_eq, existing_entrypoint, first_http, add_entrypoint, add_http_entrypoint,
  add_tcp_entrypoint, add_udp_entrypoint,
}
use seelf.Docker.Project.{Exposure, PortConfig, expose_router, expose_ports, router_for, attach}
use seelf.Docker.Transform.Entries.{
  IsGoodAt, IsGood, existing-IsGood, first_http-IsGood, existing_none, existing_http,
  first_http-append,
}

-- What holds of the loop over the ports of the service `name`, where the default subdomain was
-- available before it if `avail` says so.
pub record Inv (conf : DeploymentConfig) (name : String) (avail : Bool) (x : Exposure)
    : Type 0 where
  pub named : x.service.name ≡ name
  pub good : All (IsGood (sub_domain conf name avail)) x.service.entrypoints
  pub main : x.http_main_entry_point_available ≡ not (is_some (first_http x.service.entrypoints))
  pub left :
      x.is_default_subdomain_available
      ≡ (if x.http_main_entry_point_available then avail else false)

module _ (conf : DeploymentConfig) (name : String) (avail : Bool) where
  abbrev sub : String
  sub = sub_domain conf name avail

  -- Adding an entrypoint that is good.
  add-IsGood :
      (s : Service) (r : Router) (custom : Bool) (port : ℕ) (subdomain : Option String)
      → All (IsGood sub) s.entrypoints
      → ((e : Entrypoint) → e.subdomain ≡ subdomain → e.is_custom ≡ custom → IsGoodAt sub r e)
      → All (IsGood sub) (add_entrypoint s r custom port subdomain).0.entrypoints
        × IsGoodAt sub r (add_entrypoint s r custom port subdomain).1
        × ((add_entrypoint s r custom port subdomain).0.name ≡ s.name)
        × (is_some (first_http (add_entrypoint s r custom port subdomain).0.entrypoints)
            ≡ (is_some (first_http s.entrypoints) || r == http))
  unfolding add_entrypoint
  add-IsGood s r custom port subdomain all fresh =
      elim (Option-cases (existing_entrypoint r port s.entrypoints)) [
        | inl gone ↦
            rw (gone, add_entrypoint)
              (
                All-append (IsGood sub) s.entrypoints _ all (fresh _ refl refl, tt),
                fresh _ refl refl,
                refl,
                first_http-append s.entrypoints _,
              )
        | inr (e, here) ↦
            rw (here, add_entrypoint)
              (
                all,
                existing-IsGood sub r port s.entrypoints e all here,
                refl,
                existing_http r port s.entrypoints e here,
              )
      ]

  service-attach :
      (x : Exposure) (router : String) (e : Entrypoint) → (attach x router e).service ≡ x.service
  unfolding attach
  service-attach x router e = ground arith

  is_custom-add :
      (s : Service) (r : Router) (custom : Bool) (port : ℕ) (subdomain : Option String)
      → existing_entrypoint r port s.entrypoints ≡ none
      → (add_entrypoint s r custom port subdomain).1.is_custom ≡ custom
  unfolding add_entrypoint
  is_custom-add s r custom port subdomain h = ground (arith, h)

  -- The labels do not matter, and a managed entrypoint takes the default subdomain.
  attach-Inv :
      (x : Exposure) (router : String) (e : Entrypoint)
      → (x.service.name ≡ name)
      → All (IsGood sub) x.service.entrypoints
      → (x.http_main_entry_point_available ≡ not (is_some (first_http x.service.entrypoints)))
      → (if e.is_custom then x.is_default_subdomain_available else false)
        ≡ (if x.http_main_entry_point_available then avail else false)
      → Inv conf name avail (attach x router e)
  unfolding attach
  attach-Inv x router e n g m l = record {
    named = ground arith;
    good = subst (λ s. All (IsGood sub) s.entrypoints) (sym (service-attach x router e)) g;
    main = ground arith;
    left = ground arith;
  }

  -- What the entrypoint that is added for a port has to satisfy.
  record IsAdded (x : Exposure) (r : Router) (still : Bool) (added : Service × Entrypoint)
      : Type 0 where
    named : added.0.name ≡ name
    good : All (IsGood sub) added.0.entrypoints
    one : IsGoodAt sub r added.1
    main : still ≡ not (is_some (first_http added.0.entrypoints))
    left :
        (if added.1.is_custom then x.is_default_subdomain_available else false)
        ≡ (if still then avail else false)

  first_http_port :
      (x : Exposure) (port : ℕ)
      → Inv conf name avail x
      → first_http x.service.entrypoints ≡ none
      → IsAdded x http false (
          add_http_entrypoint x.service conf port x.http_main_entry_point_available
            x.is_default_subdomain_available)
  unfolding add_http_entrypoint
  first_http_port x port v none_yet =
      let is_main : x.http_main_entry_point_available ≡ true = ground (arith, v.main, none_yet) in
      let is_left : x.is_default_subdomain_available ≡ avail = ground (arith, v.left, is_main) in
      let d = some (sub_domain conf x.service.name x.is_default_subdomain_available) in
      let same : d ≡ some sub = ap some (λ i. sub_domain conf (v.named i) (is_left i)) in
      let custom = not x.http_main_entry_point_available in
      let (good, one, named, https) =
        add-IsGood x.service http custom port d v.good (λ e p q. p ∙ same) in
      let managed =
        is_custom-add x.service http custom port d
          (existing_none port x.service.entrypoints none_yet) in
      rw (none_yet, add_http_entrypoint)
        (record {
          named = named ∙ v.named;
          good = good;
          one = one;
          main = ground (arith, https);
          left = ground (arith, managed, is_main);
        })

  next_http_port :
      (x : Exposure) (port : ℕ) (e : Entrypoint)
      → Inv conf name avail x
      → first_http x.service.entrypoints ≡ some e
      → IsAdded x http false (
          add_http_entrypoint x.service conf port x.http_main_entry_point_available
            x.is_default_subdomain_available)
  unfolding add_http_entrypoint
  next_http_port x port e v found =
      let is_main : x.http_main_entry_point_available ≡ false = ground (arith, v.main, found) in
      let is_left : x.is_default_subdomain_available ≡ false = ground (arith, v.left, is_main) in
      let its : e.subdomain ≡ some sub =
        first_http-IsGood sub x.service.entrypoints e v.good found in
      let same : some (get_or e.subdomain "") ≡ some sub = ap (λ o. some (get_or o "")) its in
      let (good, one, named, https) =
        add-IsGood x.service http (not x.http_main_entry_point_available) port
          (some (get_or e.subdomain "")) v.good (λ f p q. p ∙ same) in
      rw (found, add_http_entrypoint)
        (record {
          named = named ∙ v.named;
          good = good;
          one = one;
          main = ground (arith, https);
          left = ground (arith, is_left);
        })

  other_port :
      (x : Exposure) (r : Router) (port : ℕ)
      → Inv conf name avail x
      → r ≢ http
      → ((e : Entrypoint) → e.is_custom ≡ true → IsGoodAt sub r e)
      → (IsGoodAt sub r (add_entrypoint x.service r true port none).1
          → (add_entrypoint x.service r true port none).1.is_custom ≡ true)
      → IsAdded x r x.http_main_entry_point_available (add_entrypoint x.service r true port none)
  other_port x r port v other fresh custom =
      let (good, one, named, https) =
        add-IsGood x.service r true port none v.good (λ e p q. fresh e q) in
      record {
        named = named ∙ v.named;
        good = good;
        one = one;
        main = ground (arith, https, v.main);
        left = ground (arith, custom one, v.left);
      }

  added-Inv :
      (x : Exposure) (r : Router) (still : Bool) (added : Service × Entrypoint)
      (labels : Map String) (router : String)
      → IsAdded x r still added
      → Inv conf name avail (
          attach
            (record x {
              service = added.0;
              http_main_entry_point_available = still;
              labels = labels;
            })
            router
            added.1)
  added-Inv x r still added labels router a =
      attach-Inv
        (record x { service = added.0; http_main_entry_point_available = still; labels = labels })
        router added.1 a.named a.good a.main a.left

  expose_router-Inv :
      (x : Exposure) (port : ℕ) (router : String)
      → Inv conf name avail x
      → Inv conf name avail (expose_router conf x port router)
  unfolding expose_router add_tcp_entrypoint add_udp_entrypoint
  expose_router-Inv x port router v = elim (Bool-cases (router == "http")) [
    | inl h ↦ elim (Option-cases (first_http x.service.entrypoints)) [
      | inl gone ↦ rw h (added-Inv x http false _ _ router (first_http_port x port v gone))
      | inr (e, found) ↦ rw h (added-Inv x http false _ _ router (next_http_port x port e v found))
    ]
    | inr not_http ↦ elim (Bool-cases (router == "tcp")) [
      | inl t ↦
          rw (not_http, t)
            (added-Inv x tcp x.http_main_entry_point_available
              (add_entrypoint x.service tcp true port none) _ router
              (other_port x tcp port v (λ p. cc) (λ e c. c) (λ c. c)))
      | inr not_tcp ↦ elim (Bool-cases (router == "udp")) [
        | inl u ↦
            rw (not_http, not_tcp, u)
              (added-Inv x udp x.http_main_entry_point_available
                (add_entrypoint x.service udp true port none) x.labels router
                (other_port x udp port v (λ p. cc) (λ e c. c) (λ c. c)))
        | inr unsupported ↦ rw (not_http, not_tcp, unsupported) v
      ]
    ]
  ]

  pub expose_ports-Inv :
      (routers : Map String) (x : Exposure) (ports : List PortConfig)
      → Inv conf name avail x
      → Inv conf name avail (expose_ports conf routers x ports)
  unfolding expose_ports
  expose_ports-Inv routers x [] v = v
  expose_ports-Inv routers x (p ∷ rest) v = elim (Option-cases (router_for routers p)) [
    | inl unknown ↦ rw (unknown, expose_ports) (expose_ports-Inv routers x rest v)
    | inr (router, known) ↦
        rw (known, expose_ports)
          (expose_ports-Inv routers (expose_router conf x p.target router) rest
            (expose_router-Inv x p.target router v))
  ]
