-- ===== src/Docker/Prepare.antt =====
-- `Prepare` of internal/deployment/infra/provider/docker/provider.go, with the payload of body.go, the
-- host of pkg/ssh and `Min` of pkg/validate/numbers. `net.ParseIP` and the parser of private keys of
-- golang.org/x/crypto are parameters: does the text parse?
use Prim.Native.String.{String}
use Prim.Native.Char.{code}
use seelf.Prelude.{
  ℕ, zero, suc, ◌≡◌, Bool, true, false, Option, none, some, List, [], ◌∷◌, if◌then◌else◌, ◌&&◌,
  ◌||◌, not, leb, ◌==◌, ℕ_eq, Result, ok, err, Error, get_or, arith, min, invalid_host,
  invalid_ssh_key, invalid_provider_payload, unless, unless-ok, Bool-cases, inl, inr, subst, ◌⊎◌,
  ◌++◌, refl, ap, ◌∙◌,
}
use seelf.Pkg.Maybe.{Patch, is_nil}
use seelf.Pkg.Validate.{Of, struct, value_error, value_target, if_set, if_patched, is_required}
use seelf.Pkg.Validate.Fields.{IsReal, struct_first}
use seelf.Domain.Provider.{ProviderConfig, fingerprint}

-- Go's `int`, as far as the payload uses it: the port may be below zero.
pub data ℤ : Type 0 where
  pos : ℕ → ℤ
  negsuc : ℕ → ℤ

-- `numbers.Min(0)`
abbrev pub min_zero : ℤ → Option Error
min_zero (pos n) = none
min_zero (negsuc n) = some min

abbrev pub to_port : ℤ → ℕ
to_port (pos n) = n
to_port (negsuc n) = 0

pub record Body : Type 0 where
  pub host : Option String
  pub port : Option ℤ
  pub user : Option String
  pub private_key : Patch String

unfoldable pub is_alphanumeric : ℕ → Bool
is_alphanumeric c =
    (leb b'a' c && leb c b'z') || ((leb b'A' c && leb c b'Z') || (leb b'0' c && leb c b'9'))

-- `hostRegex`: labels that begin with a letter or a digit and have at most 63 characters, between dots.
-- `none` is at the start of a label, `some n` where the label may have `n` more.
unfoldable pub match_host : Option ℕ → String → Bool
unfolding is_alphanumeric
match_host none String.[] = false
match_host (some n) String.[] = true
match_host none (String.◌∷◌ c s) = is_alphanumeric (code c) && match_host (some 62) s
match_host (some zero) (String.◌∷◌ c s) = code c == b'.' && match_host none s
match_host (some (suc n)) (String.◌∷◌ c s) =
    let label = match_host (some n) s in
    let next = match_host none s in
    if code c == b'.' then next else (is_alphanumeric (code c) || code c == b'-') && label

-- data.PrivateKey = d.PrivateKey, for each of the existing ones
unfoldable pub last_key : Option String → List ProviderConfig → Option String
last_key key [] = key
last_key key (d ∷ rest) = last_key d.private_key rest

-- The key of the configuration at the end of the list.
abbrev pub KeyOf : List ProviderConfig → Option String → Type 0
KeyOf existing key =
    ((existing ≡ []) × (key ≡ none))
    ⊎ ((front : List ProviderConfig) × (d : ProviderConfig) × (existing ≡ front ++ (d ∷ []))
        × (key ≡ d.private_key))

last_key-last :
    (key : Option String) (front : List ProviderConfig) (d : ProviderConfig)
    → last_key key (front ++ (d ∷ [])) ≡ d.private_key
unfolding last_key
last_key-last key [] d = refl
last_key-last key (a ∷ front) d = last_key-last a.private_key front d

last_of :
    (a : ProviderConfig) (rest : List ProviderConfig)
    → (front : List ProviderConfig) × (d : ProviderConfig) × (a ∷ rest ≡ front ++ (d ∷ []))
last_of a [] = ([], a, refl)
last_of a (b ∷ rest) = let (front, d, e) = last_of b rest in (a ∷ front, d, ap (λ l. a ∷ l) e)

last_key-KeyOf : (existing : List ProviderConfig) → KeyOf existing (last_key none existing)
unfolding last_key
last_key-KeyOf [] = inl (refl, refl)
last_key-KeyOf (a ∷ rest) =
    let (front, d, e) = last_of a rest in
    inr (front, d, e, ap (last_key none) e ∙ last_key-last none front d)

module _ (parse_ip : String → Bool) (parse_key : String → Bool) where
  -- `ParseHost`
  unfoldable pub parse_host : String → Result String
  unfolding match_host
  parse_host value =
      if not (parse_ip value) && not (match_host none value) then err invalid_host else ok value

  -- `ParsePrivateKey`
  unfoldable pub parse_private_key : String → Result String
  parse_private_key value = if parse_key value then ok value else err invalid_ssh_key

  abbrev other_fields : Body → Of
  other_fields b =
      ("docker.user", if_set b.user is_required)
      ∷ ("docker.port", if_set b.port min_zero)
      ∷ ("docker.private_key", if_patched b.private_key (λ s. value_error (parse_private_key s)))
      ∷ []

  unfoldable pub validate_body : Body → Option Error
  unfolding struct is_required parse_host parse_private_key
  validate_body b =
      struct (("docker.host", if_set b.host (λ s. value_error (parse_host s))) ∷ other_fields b)

  abbrev pub key_for : Patch String → List ProviderConfig → Option String
  key_for patch existing =
      if is_nil patch
      then none
      else if patch.has_value
      then some (value_target "" (parse_private_key patch.value))
      else last_key none existing

  abbrev pub data_for : Body → List ProviderConfig → ProviderConfig
  data_for b existing = elim b.host [
    | none ↦ record { host = none; port = none; user = none; private_key = none }
    | some host ↦ record {
      host = some (value_target "" (parse_host host));
      port = some (to_port (get_or b.port (pos 22)));
      user = some (get_or b.user "docker");
      private_key = key_for b.private_key existing;
    }
  ]

  -- `Prepare`; a payload of another type is `none`.
  unfoldable pub prepare : Option Body → List ProviderConfig → Result ProviderConfig
  unfolding validate_body is_nil last_key parse_host parse_private_key
  prepare none existing = err invalid_provider_payload
  prepare (some b) existing = unless (validate_body b) (ok (data_for b existing))

  host_fits :
      (b : Body) (host : String)
      → b.host ≡ some host
      → validate_body b ≡ none
      → value_target "" (parse_host host) ≡ host
  unfolding validate_body parse_host IsReal
  host_fits b host given valid =
      elim (Bool-cases (not (parse_ip host) && not (match_host none host))) [
        | inl bad ↦
            let first : if_set b.host (λ s. value_error (parse_host s)) ≡ some invalid_host =
              ground (arith, given, bad) in
            absurd (
              struct_first "docker.host" invalid_host (other_fields b) tt
                (subst (λ o. struct (("docker.host", o) ∷ other_fields b) ≡ none) first valid))
        | inr good ↦ ground (arith, good)
      ]

  -- A configuration that was prepared for a remote host with no word on the key has the host for its
  -- fingerprint, and the key of the last of the existing configurations, if there is one.
  pub prepare_lem :
      (b : Body) (existing : List ProviderConfig) (c : ProviderConfig) (host : String)
      → b.host ≡ some host
      → b.private_key.is_set ≡ false
      → b.private_key.has_value ≡ false
      → prepare (some b) existing ≡ ok c
      → (fingerprint c ≡ host) × KeyOf existing c.private_key
  unfolding prepare fingerprint is_nil
  prepare_lem b existing c host given unset empty h =
      let (valid, made) = unless-ok (validate_body b) (ok (data_for b existing)) c h in
      let kept : last_key none existing ≡ c.private_key =
        ground (arith, made, given, unset, empty) in
      (
        ground (arith, made, given, host_fits b host given valid),
        subst (KeyOf existing) kept (last_key-KeyOf existing),
      )
