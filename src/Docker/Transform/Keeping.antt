-- ===== src/Docker/Transform/Keeping.antt =====
-- The labels by which the resources of a deployment are found again: what the loop over the ports writes.
use Prim.Native.Char.{code}
use Prim.Native.String.{◌++◌}
use text.Mathlib.TextLemmas.{cons-append}
use seelf.Prelude.{
  ℕ, String, ◌≡◌, ◌≢◌, refl, ap, ◌∙◌, some, List, [], ◌∷◌, arith, ◌==◌, string_eq, inl, inr, Map,
  lookup, insert, lookup-insert, text_ne, Option-cases, Bool-cases,
}
use seelf.Domain.Services.{Entrypoint}
use seelf.Domain.Deployment.{DeploymentConfig}
use seelf.Domain.Building.{add_http_entrypoint, add_tcp_entrypoint, add_udp_entrypoint}
use seelf.Docker.Project.{
  Labels, PortConfig, Exposure, app_label, target_label, environment_label, subdomain_label,
  custom_entrypoints_label, append_labels, insert_all, builder_labels, traefik, attach,
  expose_router, expose_ports, router_for,
}

-- The labels name the application, the target and the environment.
pub record Carries (app : String) (conf : DeploymentConfig) (labels : Labels) : Type 0 where
  pub application : lookup app_label labels ≡ some app
  pub target : lookup target_label labels ≡ some conf.target
  pub environment : lookup environment_label labels ≡ some conf.environment

-- A key of none of these labels.
record IsOther (key : String) : Type 0 where
  not_app : key ≢ app_label
  not_target : key ≢ target_label
  not_environment : key ≢ environment_label

subdomain-IsOther : IsOther subdomain_label
subdomain-IsOther = record {
  not_app = text_ne _ _ refl;
  not_target = text_ne _ _ refl;
  not_environment = text_ne _ _ refl;
}

custom-IsOther : IsOther custom_entrypoints_label
custom-IsOther = record {
  not_app = text_ne _ _ refl;
  not_target = text_ne _ _ refl;
  not_environment = text_ne _ _ refl;
}

first_code : String → ℕ
first_code String.[] = 0
first_code (String.◌∷◌ c s) = code c

t_ne_a : (n : ℕ) → n ≡ b't' → n ≡ b'a' → ⊥
t_ne_a n p q = omega arith

traefik_first : (rest label : String) → first_code label ≡ b'a' → "traefik." ++ rest ≢ label
unfolding first_code
traefik_first rest label h e =
    t_ne_a (first_code ("traefik." ++ rest)) (ap first_code (cons-append "t" "raefik." rest))
      (ap first_code e ∙ h)

traefik-IsOther : (router middle name end : String) → IsOther (traefik router middle name end)
unfolding first_code
traefik-IsOther router middle name end =
    let rest = router ++ ("." ++ (middle ++ ("." ++ (name ++ ("." ++ end))))) in
    record {
      not_app = traefik_first rest app_label refl;
      not_target = traefik_first rest target_label refl;
      not_environment = traefik_first rest environment_label refl;
    }

module _ (app : String) (conf : DeploymentConfig) where
  insert-Carries :
      (key value : String) (labels : Labels)
      → IsOther key
      → Carries app conf labels
      → Carries app conf (insert key value labels)
  insert-Carries key value labels o c = record {
    application =
        ground (arith, o.not_app, c.application, lookup-insert key app_label value labels);
    target = ground (arith, o.not_target, c.target, lookup-insert key target_label value labels);
    environment =
        ground (
          arith,
          o.not_environment,
          c.environment,
          lookup-insert key environment_label value labels,
        );
  }

  pub append_labels-Carries :
      (labels : Labels) → Carries app conf (append_labels labels (builder_labels app conf))
  unfolding append_labels insert_all builder_labels
  append_labels-Carries labels =
      let first = insert app_label app labels in
      let second = insert target_label conf.target first in
      let app_target : app_label ≢ target_label = text_ne _ _ refl in
      let app_env : app_label ≢ environment_label = text_ne _ _ refl in
      let target_env : target_label ≢ environment_label = text_ne _ _ refl in
      record {
        application = ground (
          arith,
          lookup-insert environment_label app_label conf.environment second,
          lookup-insert target_label app_label conf.target first,
          lookup-insert app_label app_label app labels,
        );
        target = ground (
          arith,
          lookup-insert environment_label target_label conf.environment second,
          lookup-insert target_label target_label conf.target first,
        );
        environment =
            ground
              (arith, lookup-insert environment_label environment_label conf.environment second);
      }

  -- What the loop over the ports keeps.
  attach-Carries :
      (x : Exposure) (router : String) (e : Entrypoint)
      → Carries app conf x.labels
      → Carries app conf (attach x router e).labels
  unfolding attach
  attach-Carries x router e c = elim (Bool-cases e.is_custom) [
    | inl custom ↦ rw custom (
        insert-Carries _ _ _ (traefik-IsOther router "services" e.name "loadbalancer.server.port") (
          insert-Carries _ _ _ (traefik-IsOther router "routers" e.name "service") (
            insert-Carries _ _ _ (traefik-IsOther router "routers" e.name "entrypoints")
              (insert-Carries _ _ _ custom-IsOther c))))
    | inr managed ↦ rw managed (
        insert-Carries _ _ _ (traefik-IsOther router "services" e.name "loadbalancer.server.port") (
          insert-Carries _ _ _ (traefik-IsOther router "routers" e.name "service")
            (insert-Carries _ _ _ (traefik-IsOther router "routers" e.name "entrypoints") c)))
  ]

  expose_router-Carries :
      (x : Exposure) (port : ℕ) (router : String)
      → Carries app conf x.labels
      → Carries app conf (expose_router conf x port router).labels
  unfolding expose_router
  expose_router-Carries x port router c = elim (Bool-cases (router == "http")) [
    | inl h ↦ rw h (
        attach-Carries _ router
          (add_http_entrypoint x.service conf port x.http_main_entry_point_available
            x.is_default_subdomain_available).1
          (insert-Carries _ _ _ subdomain-IsOther c))
    | inr not_http ↦ elim (Bool-cases (router == "tcp")) [
      | inl t ↦
          rw (not_http, t)
            (attach-Carries _ router (add_tcp_entrypoint x.service port).1 (
              insert-Carries _ _ _
                (traefik-IsOther "tcp" "routers" (add_tcp_entrypoint x.service port).1.name "rule")
                c))
      | inr not_tcp ↦ elim (Bool-cases (router == "udp")) [
        | inl u ↦
            rw (not_http, not_tcp, u)
              (attach-Carries _ router (add_udp_entrypoint x.service port).1 c)
        | inr unsupported ↦ rw (not_http, not_tcp, unsupported) c
      ]
    ]
  ]

  pub expose_ports-Carries :
      (routers : Map String) (x : Exposure) (ports : List PortConfig)
      → Carries app conf x.labels
      → Carries app conf (expose_ports conf routers x ports).labels
  unfolding expose_ports
  expose_ports-Carries routers x [] c = c
  expose_ports-Carries routers x (p ∷ rest) c = elim (Option-cases (router_for routers p)) [
    | inl unknown ↦ rw (unknown, expose_ports) (expose_ports-Carries routers x rest c)
    | inr (router, known) ↦
        rw (known, expose_ports)
          (expose_ports-Carries routers (expose_router conf x p.target router) rest
            (expose_router-Carries x p.target router c))
  ]
