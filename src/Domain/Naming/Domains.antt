-- ===== src/Domain/Naming/Domains.antt =====
-- Subdomains: which deployments can share one.
use Prim.Native.String.{◌++◌, count}
use text.Mathlib.TextLemmas.{nil-append, cons-append, append_cancel_right, length-append}
use seelf.Prelude.{
  String, ◌≡◌, refl, sym, ap, ◌∙◌, Bool, true, false, ◌⊎◌, inl, inr, ok, arith, string_eq,
  String-discrete, ℕ_discrete,
}
use seelf.Domain.Values.{production, staging, environment_from}
use seelf.Domain.Deployment.{DeploymentConfig}
use seelf.Domain.Naming.{
  has_char, after_last, has_suffix, all_allowed, app_name_from, staging_suffix, sub_domain,
  base_domain,
}
use seelf.Domain.Naming.Texts.{
  after_last_none, has_char-append, after_last-append, has_suffix-append,
}

-- Services that differ have subdomains that differ, once the default one is taken.
pub sub_domain_inj :
    (c : DeploymentConfig) (s t : String) → sub_domain c s false ≡ sub_domain c t false → s ≡ t
unfolding sub_domain
sub_domain_inj c s t h = append_cancel_right s t ("." ++ base_domain c) h

-- The default subdomain is shorter than any other.
pub sub_domain_default :
    (c : DeploymentConfig) (s t : String) → sub_domain c s true ≡ sub_domain c t false → ⊥
unfolding sub_domain
sub_domain_default c s t h =
    let b = base_domain c in
    omega (arith, ap count h, length-append t ("." ++ b), length-append "." b)

no_dot : (s : String) → all_allowed s ≡ true → has_char b'.' s ≡ false
unfolding all_allowed has_char
no_dot String.[] h = refl
no_dot (String.◌∷◌ c s) h = ground (arith, no_dot s)

-- What the check of a name gives.
name_parts :
    (name : String)
    → app_name_from name ≡ ok name
    → (has_char b'.' name ≡ false) × (has_suffix name staging_suffix ≡ false)
unfolding app_name_from
name_parts name h = (no_dot name (ground arith), ground arith)

pub env_cases :
    (env : String) → environment_from env ≡ ok env → (env ≡ production) ⊎ (env ≡ staging)
unfolding environment_from
env_cases env h = elim (String-discrete env production) [
  | yes p ↦ inl p
  | no p ↦ elim (String-discrete env staging) [ yes q ↦ inr q | no q ↦ absurd (ground (arith, h)) ]
]

-- A configuration whose name and environment have passed the checks of the commands.
pub record IsChecked (c : DeploymentConfig) : Type 0 where
  pub name : app_name_from c.app_name ≡ ok c.app_name
  pub environment : environment_from c.environment ≡ ok c.environment

base_staging :
    (c : DeploymentConfig) → c.environment ≡ staging → base_domain c ≡ c.app_name ++ staging_suffix
unfolding base_domain String-discrete
base_staging c h = rw (h, base_domain) refl

base_production : (c : DeploymentConfig) → c.environment ≡ production → base_domain c ≡ c.app_name
unfolding base_domain String-discrete
base_production c h = rw (h, base_domain) refl

no_dot-base : (c : DeploymentConfig) → IsChecked c → has_char b'.' (base_domain c) ≡ false
unfolding has_char ℕ_discrete
no_dot-base c v =
    let (none_in_name, no_suffix) = name_parts c.app_name v.name in
    elim (env_cases c.environment v.environment) [
      | inl p ↦ rw (base_production c p) none_in_name
      | inr s ↦
          rw (base_staging c s)
            (has_char-append b'.' c.app_name staging_suffix ∙ rw none_in_name refl)
    ]

dot-append : (s : String) → "." ++ s ≡ String.◌∷◌ "." s
dot-append s = cons-append "." "" s ∙ ap (String.◌∷◌ ".") (nil-append s)

-- What stands behind the last dot of a subdomain.
after_dot :
    (c : DeploymentConfig) (service : String) (is_default : Bool)
    → IsChecked c
    → after_last b'.' (sub_domain c service is_default) ≡ base_domain c
unfolding sub_domain
after_dot c service true v = after_last_none b'.' (base_domain c) (no_dot-base c v)
after_dot c service false v =
    ap (λ t. after_last b'.' (service ++ t)) (dot-append (base_domain c))
    ∙ after_last-append "." service (base_domain c) (no_dot-base c v)

suffix_clash :
    (name other : String)
    → has_suffix name staging_suffix ≡ false
    → name ≡ other ++ staging_suffix
    → ⊥
suffix_clash name other h e =
    let k = ap (λ t. has_suffix t staging_suffix) e ∙ has_suffix-append other staging_suffix in cc

base_domain_inj :
    (c d : DeploymentConfig)
    → IsChecked c
    → IsChecked d
    → base_domain c ≡ base_domain d
    → (c.app_name ≡ d.app_name) × (c.environment ≡ d.environment)
base_domain_inj c d v w h =
    let (_, no_suffix) = name_parts c.app_name v.name in
    let (_, no_suffix') = name_parts d.app_name w.name in
    elim (env_cases c.environment v.environment) [
      | inl p ↦ elim (env_cases d.environment w.environment) [
        | inl q ↦ (sym (base_production c p) ∙ (h ∙ base_production d q), p ∙ sym q)
        | inr t ↦ absurd (
            suffix_clash c.app_name d.app_name no_suffix
              (sym (base_production c p) ∙ (h ∙ base_staging d t)))
      ]
      | inr s ↦ elim (env_cases d.environment w.environment) [
        | inl q ↦ absurd (
            suffix_clash d.app_name c.app_name no_suffix'
              (sym (base_production d q) ∙ (sym h ∙ base_staging c s)))
        | inr t ↦ (
          append_cancel_right c.app_name d.app_name staging_suffix
              (sym (base_staging c s) ∙ (h ∙ base_staging d t)),
          s ∙ sym t,
        )
      ]
    ]

-- Two deployments whose names and environments have passed the checks use a common subdomain only if
-- they are of applications with one name, on one environment.
pub sub_domain-eq :
    (c d : DeploymentConfig) (service other : String) (is_default other_default : Bool)
    → IsChecked c
    → IsChecked d
    → sub_domain c service is_default ≡ sub_domain d other other_default
    → (c.app_name ≡ d.app_name) × (c.environment ≡ d.environment)
sub_domain-eq c d service other b b' v w h =
    base_domain_inj c d v w
      (sym (after_dot c service b v) ∙ (ap (after_last b'.') h ∙ after_dot d other b' w))
