-- ===== src/Domain/EnvVars.antt =====
-- `reflect.DeepEqual` on the environment variables of environment.go: two maps are equal if they
-- hold the same keys with equal values. The order of the entries does not count.
use seelf.Prelude.{
  String, ◌≡◌, ◌↔◌, refl, Bool, true, false, Option, none, some, [], ◌∷◌, arith, ◌==◌, string_eq,
  ◌&&◌, Map, lookup, is_some, Option-cases, inl, inr,
}
use seelf.Domain.Values.{EnvVars, ServicesEnv, EnvironmentConfig}

module _ {ℓ} {V : Type ℓ} (eqv : V → V → Bool) where
  abbrev pub same_entry : Option V → Option V → Bool
  same_entry none none = true
  same_entry (some v) (some w) = eqv v w
  same_entry _ _ = false

  unfoldable pub same_on : Map V → Map V → Map V → Bool
  same_on [] m n = true
  same_on ((k, _) ∷ rest) m n = same_entry (lookup k m) (lookup k n) && same_on rest m n

  unfoldable pub same_map : Map V → Map V → Bool
  unfolding same_on
  same_map m n = same_on m m n && same_on n m n

  same_on-at :
      (xs m n : Map V) (k : String)
      → same_on xs m n ≡ true
      → is_some (lookup k xs) ≡ true
      → same_entry (lookup k m) (lookup k n) ≡ true
  unfolding same_on lookup
  same_on-at [] m n k h s = absurd (cc)
  same_on-at ((j, v) ∷ rest) m n k h s = ground (arith, same_on-at rest m n k)

  same_on_intro :
      (xs m n : Map V)
      → ((k : String) → same_entry (lookup k m) (lookup k n) ≡ true)
      → same_on xs m n ≡ true
  unfolding same_on
  same_on_intro [] m n h = refl
  same_on_intro ((j, v) ∷ rest) m n h = ground (arith, h j, same_on_intro rest m n h)

  -- The comparison looks at every key, and only at what a lookup shows.
  pub same_map_iff :
      (m n : Map V)
      → (same_map m n ≡ true) ↔ ((k : String) → same_entry (lookup k m) (lookup k n) ≡ true)
  unfolding same_map
  same_map_iff m n = (
    λ h k. elim (Option-cases (lookup k m)) [
      | inr (v, e) ↦ same_on-at m m n k (ground arith) (rw e)
      | inl e ↦ elim (Option-cases (lookup k n)) [
        | inr (w, f) ↦ same_on-at n m n k (ground arith) (rw f)
        | inl f ↦ rw (e, f)
      ]
    ],
    λ h. ground (arith, same_on_intro m m n h, same_on_intro n m n h),
  )

abbrev pub same_text : String → String → Bool
same_text s t = s == t

unfoldable pub same_vars : EnvVars → EnvVars → Bool
unfolding same_map
same_vars = same_map same_text

unfoldable pub same_services_env : Option ServicesEnv → Option ServicesEnv → Bool
unfolding same_vars
same_services_env = same_entry (same_map same_vars)

-- `EnvironmentConfig.Equals`: the version is not compared.
unfoldable pub config_equals : EnvironmentConfig → EnvironmentConfig → Bool
unfolding same_services_env
config_equals e other = e.target == other.target && same_services_env e.vars other.vars
