-- ===== src/Domain/Naming/Protocol.antt =====
-- The protocol that is read off the name of an entrypoint.
use Prim.Native.String.{◌++◌}
use text.Mathlib.TextLemmas.{nil-append, cons-append}
use seelf.Prelude.{ℕ, String, ◌≡◌, refl, ap, ◌∙◌, false, string_eq, String-discrete, ℕ_discrete}
use seelf.Domain.Services.{Router, http, tcp, udp}
use seelf.Domain.Naming.{
  router_string, protocol_text, port_string, new_entrypoint_name, has_char, after_last, protocol,
}
use seelf.Domain.Naming.Texts.{after_last-append}

dash-append : (s : String) → "-" ++ s ≡ String.◌∷◌ "-" s
dash-append s = cons-append "-" "" s ∙ ap (String.◌∷◌ "-") (nil-append s)

-- The protocol that the name of a new entrypoint gives, whatever its service and port.
abbrev pub protocol_of : Router → String
protocol_of http = "tcp"
protocol_of tcp = "tcp"
protocol_of udp = "udp"

no_dash : (r : Router) → has_char b'-' (router_string r) ≡ false
unfolding has_char router_string ℕ_discrete
no_dash http = refl
no_dash tcp = refl
no_dash udp = refl

protocol_router : (r : Router) → protocol_text (router_string r) ≡ protocol_of r
unfolding router_string String-discrete
protocol_router http = refl
protocol_router tcp = refl
protocol_router udp = refl

-- The protocol that is read off a generated name is that of the router, whatever the service is called
-- and whatever the port is.
pub protocol-new_entrypoint_name :
    (suffix : String) (r : Router) (port : ℕ)
    → protocol (new_entrypoint_name suffix r port) ≡ protocol_of r
unfolding protocol new_entrypoint_name
protocol-new_entrypoint_name suffix r port =
    let prefix = suffix ++ ("-" ++ port_string port) in
    let last =
      ap (λ t. after_last b'-' (prefix ++ t)) (dash-append (router_string r))
      ∙ after_last-append "-" prefix (router_string r) (no_dash r) in
    ap protocol_text last ∙ protocol_router r
