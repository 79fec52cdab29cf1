-- ===== src/Domain/Naming.antt =====
-- internal/deployment/domain/deployment_config.go: the names that a deployment gives to its project,
-- services, images and subdomains; and the names and ports of internal/deployment/domain/service.go.
-- `strings.ToLower` is written out for ASCII letters: the identifiers that it is applied to are
-- KSUIDs, letters and digits.
pub mod Decimal
pub mod Texts
pub mod Protocol
pub mod Domains
use Prim.Native.Char.{Char, char, nul, code, IsScalar}
use mathlib.Core.Logic.{dite}
use Prim.Native.Nat.{◌/◌}
use Prim.Native.String.{◌++◌}
use seelf.Prelude.{
  ℕ, zero, suc, ◌+◌, ◌-◌, ◌*◌, ◌%◌, ◌^◌, String, ◌≡◌, refl, Bool, true, false, Option, none, some,
  List, [], ◌∷◌, if◌then◌else◌, ◌&&◌, ◌||◌, not, ltb, leb, ◌==◌, string_eq, ℕ_eq, String-discrete,
  ℕ_discrete, ◌<◌, arith, dec_lt, lookup, Result, ok, err, invalid_port, invalid_app_name, get_or,
}
use seelf.Domain.Values.{is_production, EnvVars}
use seelf.Domain.Services.{Router, http, tcp, udp}
use seelf.Domain.Deployment.{DeploymentConfig}

small_scalar : (n : ℕ) → n < 55296 → IsScalar n
small_scalar n h = ground arith

-- The character of a code below the surrogates.
unfoldable pub to_char : ℕ → Char
unfolding small_scalar dec_lt
to_char n = dite (dec_lt n 55296) (λ h. char n (small_scalar n h)) (λ _. nul)

-- The decimal digit of a number below ten.
unfoldable pub digit : ℕ → Char
unfolding to_char
digit d = to_char (b'0' + d)

-- The fuel bounds the number of digits; `n + 1` of it is enough.
unfoldable pub digits : ℕ → ℕ → String → String
digits zero n out = out
digits (suc fuel) n out =
    let rest = digits fuel (n / 10) (String.◌∷◌ (digit (n % 10)) out) in
    if ltb n 10 then String.◌∷◌ (digit n) out else rest

-- `Port.String`
unfoldable pub port_string : ℕ → String
port_string p = digits (suc p) p ""

-- A port is a `uint`, 64 bits wide.
abbrev pub max_port : ℕ
max_port = 2 ^ 64 - 1

-- The digits that `strconv.ParseUint` reads in base ten, with its test for the overflow.
unfoldable pub scan : String → ℕ → Option ℕ
scan String.[] n = some n
scan (String.◌∷◌ c s) n =
    let d = code c - b'0' in
    if ltb (code c) b'0' || ltb b'9' (code c)
    then none
    else if ltb max_port (n * 10 + d)
    then none
    else scan s (n * 10 + d)

abbrev pub or_invalid : Option ℕ → Result ℕ
or_invalid none = err invalid_port
or_invalid (some p) = ok p

-- `ParsePort`
unfoldable pub parse_port : String → Result ℕ
unfolding scan
parse_port String.[] = err invalid_port
parse_port (String.◌∷◌ c s) = or_invalid (scan (String.◌∷◌ c s) 0)

unfoldable pub router_string : Router → String
router_string http = "http"
router_string tcp = "tcp"
router_string udp = "udp"

unfoldable pub new_entrypoint_name : String → Router → ℕ → String
unfolding port_string router_string
new_entrypoint_name suffix router port =
    (suffix ++ ("-" ++ port_string port)) ++ ("-" ++ router_string router)

-- Does the text have the character?
unfoldable pub has_char : ℕ → String → Bool
has_char sep String.[] = false
has_char sep (String.◌∷◌ c s) = code c == sep || has_char sep s

-- s[strings.LastIndex(s, sep)+1:]
unfoldable pub after_last : ℕ → String → String
unfolding has_char
after_last sep String.[] = ""
after_last sep (String.◌∷◌ c s) =
    let later = after_last sep s in
    if has_char sep s then later else if code c == sep then s else String.◌∷◌ c s

abbrev pub protocol_text : String → String
protocol_text p = if p == "http" then "tcp" else p

-- `EntrypointName.Protocol`
unfoldable pub protocol : String → String
unfolding after_last
protocol e = protocol_text (after_last b'-' e)

-- `unicode.ToLower` on ASCII.
unfoldable pub lower_char : Char → Char
unfolding to_char
lower_char c = if leb b'A' (code c) && leb (code c) b'Z' then to_char (code c + 32) else c

unfoldable pub to_lower : String → String
unfolding lower_char
to_lower String.[] = ""
to_lower (String.◌∷◌ c s) = String.◌∷◌ (lower_char c) (to_lower s)

-- `ProjectName`
unfoldable pub project_name : DeploymentConfig → String
unfolding to_lower
project_name c = c.app_name ++ ("-" ++ (c.environment ++ ("-" ++ to_lower c.app_id)))

-- `QualifiedName`
unfoldable pub qualified_name : DeploymentConfig → String → String
unfolding project_name
qualified_name c service = project_name c ++ ("-" ++ service)

-- `ImageName`
unfoldable pub image_name : DeploymentConfig → String → String
unfolding to_lower
image_name c service =
    c.app_name ++ ("-" ++ (to_lower c.app_id ++ ("/" ++ (service ++ (":" ++ c.environment)))))

-- The subdomain before a service is put in front of it.
unfoldable pub base_domain : DeploymentConfig → String
base_domain c =
    if not (is_production c.environment) then c.app_name ++ ("-" ++ c.environment) else c.app_name

-- `SubDomain`
unfoldable pub sub_domain : DeploymentConfig → String → Bool → String
unfolding base_domain
sub_domain c service is_default =
    if not is_default then service ++ ("." ++ base_domain c) else base_domain c

-- `EnvironmentVariablesFor`
unfoldable pub environment_variables_for : DeploymentConfig → String → Option EnvVars
environment_variables_for c service = elim c.vars [ none ↦ none | some env ↦ lookup service env ]

-- `strings.HasSuffix`
unfoldable pub has_suffix : String → String → Bool
has_suffix String.[] suffix = suffix == ""
has_suffix (String.◌∷◌ c s) suffix = suffix == String.◌∷◌ c s || has_suffix s suffix

-- ^[a-z0-9-_]+$
unfoldable pub is_allowed : Char → Bool
is_allowed c =
    (leb b'a' (code c) && leb (code c) b'z')
    || ((leb b'0' (code c) && leb (code c) b'9') || (code c == b'-' || code c == b'_'))

unfoldable pub all_allowed : String → Bool
unfolding is_allowed
all_allowed String.[] = true
all_allowed (String.◌∷◌ c s) = is_allowed c && all_allowed s

abbrev pub staging_suffix : String
staging_suffix = "-staging"

-- `AppNameFrom`, of internal/deployment/domain/appname.go.
unfoldable pub app_name_from : String → Result String
unfolding has_suffix all_allowed
app_name_from value =
    if (value == "" || not (all_allowed value)) || has_suffix value staging_suffix
    then err invalid_app_name
    else ok value
