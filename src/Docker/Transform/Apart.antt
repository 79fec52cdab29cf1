-- ===== src/Docker/Transform/Apart.antt =====
-- Lists of services, and the rule of the builder for their subdomains.
use seelf.Prelude.{
  string_eq, String, ◌≡◌, ◌≢◌, refl, sym, ap, ◌∙◌, Bool, true, false, none, some, List, [], ◌∷◌,
  ◌++◌, arith, if◌then◌else◌, subst, is_some, All, Map, insert, lookup-insert, Option-cases, inl,
  inr,
}
use seelf.Domain.Services.{http, Entrypoint, Service}
use seelf.Domain.Deployment.{DeploymentConfig}
use seelf.Domain.Naming.{sub_domain}
use seelf.Domain.Naming.Domains.{sub_domain_inj, sub_domain_default}
use seelf.Domain.Building.{router_eq, first_http}
use seelf.Docker.Project.{ServiceDefinition}
use seelf.Docker.Transform.Entries.{IsGoodAt, IsGood}
use seelf.Docker.Transform.{definition_name}

-- Is the default subdomain still available after this service?
abbrev pub still : Bool → Service → Bool
still avail s = if is_some (first_http s.entrypoints) then false else avail

-- Services whose HTTP entrypoints have the subdomain of their name, where the first of them that has
-- such an entrypoint takes the default one if it is available.
abbrev pub Assigned : DeploymentConfig → Bool → List Service → Type 0
Assigned conf avail [] = Unit
Assigned conf avail (s ∷ rest) =
    All (IsGood (sub_domain conf s.name avail)) s.entrypoints × Assigned conf (still avail s) rest

-- Is the default subdomain still available after these services?
abbrev pub left_after : Bool → List Service → Bool
left_after avail [] = avail
left_after avail (s ∷ rest) = left_after (still avail s) rest

pub Assigned-append :
    (conf : DeploymentConfig) (avail : Bool) (front : List Service) (s : Service)
    → Assigned conf avail front
    → All (IsGood (sub_domain conf s.name (left_after avail front))) s.entrypoints
    → Assigned conf avail (front ++ (s ∷ []))
Assigned-append conf avail [] s _ good = (good, tt)
Assigned-append conf avail (t ∷ front) s (here, rest) good =
    (here, Assigned-append conf (still avail t) front s rest good)

pub left_after-append :
    (avail : Bool) (front : List Service) (s : Service)
    → left_after avail (front ++ (s ∷ [])) ≡ still (left_after avail front) s
left_after-append avail [] s = refl
left_after-append avail (t ∷ front) s = left_after-append (still avail t) front s

abbrev pub service_names : List Service → List String
service_names [] = []
service_names (s ∷ rest) = s.name ∷ service_names rest

pub service_names-append :
    (front : List Service) (s : Service)
    → service_names (front ++ (s ∷ [])) ≡ service_names front ++ (s.name ∷ [])
service_names-append [] s = refl
service_names-append (t ∷ front) s = ap (λ l. t.name ∷ l) (service_names-append front s)

-- No two of the names are equal.
abbrev pub Distinct : List String → Type 0
Distinct [] = Unit
Distinct (n ∷ rest) = All (λ m. n ≢ m) rest × Distinct rest

-- The HTTP entrypoints of two services have no subdomain in common.
abbrev pub Apart : Service → Service → Type 0
Apart s t =
    All
      (λ e. All (λ f. e.router ≡ http → f.router ≡ http → e.subdomain ≢ f.subdomain) t.entrypoints)
      s.entrypoints

abbrev pub SubdomainsDiffer : List Service → Type 0
SubdomainsDiffer [] = Unit
SubdomainsDiffer (s ∷ rest) = All (Apart s) rest × SubdomainsDiffer rest

module _ {A : Type 0} where
  pub All-map : (P Q : A → Type 0) (xs : List A) → ((a : A) → P a → Q a) → All P xs → All Q xs
  All-map P Q [] f _ = tt
  All-map P Q (a ∷ xs) f (p, ps) = (f a p, All-map P Q xs f ps)

  All-all : (P : A → Type 0) (xs : List A) → ((a : A) → P a) → All P xs
  All-all P [] f = tt
  All-all P (a ∷ xs) f = (f a, All-all P xs f)

subdomain_of :
    (sub : String) (e : Entrypoint) → IsGood sub e → e.router ≡ http → e.subdomain ≡ some sub
subdomain_of sub e good h = subst (λ r. IsGoodAt sub r e) h good

Apart-of :
    (s t : Service) (a b : String)
    → a ≢ b
    → All (IsGood a) s.entrypoints
    → All (IsGood b) t.entrypoints
    → Apart s t
Apart-of s t a b ne good good' =
    All-map _ _ s.entrypoints
      (λ e g.
        All-map _ _ t.entrypoints
          (λ f g' p q h.
            let clash = sym (subdomain_of a e g p) ∙ (h ∙ subdomain_of b f g' q) in ne (cc))
          good')
      good

still_gone : (b : Bool) → (if b then false else false) ≡ false
still_gone true = refl
still_gone false = refl

no_http_router : (es : List Entrypoint) → first_http es ≡ none → All (λ e. e.router ≢ http) es
unfolding first_http
no_http_router [] h = tt
no_http_router (e ∷ es) h = (ground (arith, h), no_http_router es (ground (arith, h)))

Apart-silent : (s t : Service) → first_http s.entrypoints ≡ none → Apart s t
Apart-silent s t h =
    All-map _ _ s.entrypoints (λ e ne. All-all _ t.entrypoints (λ f p q r. ne p))
      (no_http_router s.entrypoints h)

-- With the default subdomain gone, the services that have other names stay apart.
Apart-rest :
    (conf : DeploymentConfig) (s : Service) (avail : Bool) (rest : List Service)
    → All (IsGood (sub_domain conf s.name avail)) s.entrypoints
    → All (λ m. s.name ≢ m) (service_names rest)
    → Assigned conf false rest
    → All (Apart s) rest
Apart-rest conf s avail [] good _ _ = tt
Apart-rest conf s true (t ∷ rest) good (ne, nes) (here, later) = (
  Apart-of s t _ _ (sub_domain_default conf s.name t.name) good here,
  Apart-rest conf s true rest good nes (subst (λ b. Assigned conf b rest) (still_gone _) later),
)
Apart-rest conf s false (t ∷ rest) good (ne, nes) (here, later) = (
  Apart-of s t _ _ (λ h. ne (sub_domain_inj conf s.name t.name h)) good here,
  Apart-rest conf s false rest good nes (subst (λ b. Assigned conf b rest) (still_gone _) later),
)

pub Assigned-differ :
    (conf : DeploymentConfig) (avail : Bool) (services : List Service)
    → Distinct (service_names services)
    → Assigned conf avail services
    → SubdomainsDiffer services
Assigned-differ conf avail [] _ _ = tt
Assigned-differ conf avail (s ∷ rest) (ne, others) (here, later) =
    elim (Option-cases (first_http s.entrypoints)) [
      | inl silent ↦ (
        All-all _ rest (λ t. Apart-silent s t silent),
        Assigned-differ conf (still avail s) rest others later,
      )
      | inr (e, found) ↦
          let gone : still avail s ≡ false = ground (arith, found) in
          (
            Apart-rest conf s avail rest here ne (subst (λ b. Assigned conf b rest) gone later),
            Assigned-differ conf (still avail s) rest others later,
          )
    ]

-- Writing a definition under its own name.
pub keep_named :
    (definitions : Map ServiceDefinition) (name : String) (d : ServiceDefinition)
    (rest : List String)
    → d.name ≡ name
    → All (λ m. definition_name definitions m ≡ m) rest
    → All (λ m. definition_name (insert name d definitions) m ≡ m) rest
keep_named definitions name d rest h all =
    All-map _ _ rest (λ m e. ground (arith, h, e, lookup-insert name m d definitions)) all
