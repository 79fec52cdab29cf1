-- ===== src/Docker/Transform/Entries.antt =====
-- The entrypoints of one service: what the searches in their list find.
use seelf.Prelude.{
  string_eq, ℕ, String, ◌≡◌, refl, true, none, some, List, [], ◌∷◌, ◌++◌, arith, ◌==◌, ◌||◌, subst,
  ℕ_discrete, is_some, All,
}
use seelf.Domain.Services.{Router, http, Entrypoint}
use seelf.Domain.Building.{router_eq, Router-discrete, existing_entrypoint, first_http}

-- An HTTP entrypoint has this subdomain, any other is a custom one.
abbrev pub IsGoodAt : String → Router → Entrypoint → Type 0
IsGoodAt sub http e = e.subdomain ≡ some sub
IsGoodAt sub _ e = e.is_custom ≡ true

abbrev pub IsGood : String → Entrypoint → Type 0
IsGood sub e = IsGoodAt sub e.router e

pub existing-IsGood :
    (sub : String) (r : Router) (port : ℕ) (es : List Entrypoint) (e : Entrypoint)
    → All (IsGood sub) es
    → existing_entrypoint r port es ≡ some e
    → IsGoodAt sub r e
unfolding existing_entrypoint
existing-IsGood sub r port [] e _ h = absurd (cc)
existing-IsGood sub r port (a ∷ es) e (good, rest) h = elim (Router-discrete a.router r) [
  | yes p ↦ elim (ℕ_discrete a.port port) [
    | yes q ↦
        let same : a ≡ e = ground (arith, h, p, q) in
        subst (IsGoodAt sub r) same (subst (λ x. IsGoodAt sub x a) p good)
    | no q ↦ existing-IsGood sub r port es e rest (ground (arith, h, q))
  ]
  | no p ↦ existing-IsGood sub r port es e rest (ground (arith, h, p))
]

pub first_http-IsGood :
    (sub : String) (es : List Entrypoint) (e : Entrypoint)
    → All (IsGood sub) es
    → first_http es ≡ some e
    → e.subdomain ≡ some sub
unfolding first_http
first_http-IsGood sub [] e _ h = absurd (cc)
first_http-IsGood sub (a ∷ es) e (good, rest) h = elim (Router-discrete a.router http) [
  | yes p ↦
      let same : a ≡ e = ground (arith, h, p) in
      subst (λ b. b.subdomain ≡ some sub) same (subst (λ r. IsGoodAt sub r a) p good)
  | no q ↦ first_http-IsGood sub es e rest (ground (arith, h, q))
]

pub existing_none :
    (port : ℕ) (es : List Entrypoint)
    → first_http es ≡ none
    → existing_entrypoint http port es ≡ none
unfolding existing_entrypoint first_http
existing_none port [] h = refl
existing_none port (a ∷ es) h = ground (arith, existing_none port es)

pub existing_http :
    (r : Router) (port : ℕ) (es : List Entrypoint) (e : Entrypoint)
    → existing_entrypoint r port es ≡ some e
    → is_some (first_http es) ≡ (is_some (first_http es) || r == http)
unfolding existing_entrypoint first_http
existing_http r port [] e h = absurd (cc)
existing_http r port (a ∷ es) e h = ground (arith, existing_http r port es e)

pub first_http-append :
    (es : List Entrypoint) (e : Entrypoint)
    → is_some (first_http (es ++ (e ∷ []))) ≡ (is_some (first_http es) || e.router == http)
unfolding first_http
first_http-append [] e = ground arith
first_http-append (a ∷ es) e = ground (arith, first_http-append es e)
