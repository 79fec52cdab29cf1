-- ===== src/Handlers/Apps/Apart.antt =====
-- What unique names mean for the subdomains of two applications.
use seelf.Prelude.{
  String, ◌≡◌, ◌≢◌, refl, sym, ap, ◌∙◌, Bool, List, [], ◌∷◌, ◌++◌, ◌⊎◌, inl, inr, All, map, ok,
  subst, String-discrete,
}
use mathlib.Core.List.{map-append}
use seelf.Domain.Values.{production, staging, environment_from, production-ne-staging}
use seelf.Domain.Deployment.{DeploymentConfig}
use seelf.Domain.Naming.{app_name_from, sub_domain}
use seelf.Domain.Naming.Domains.{IsChecked, sub_domain-eq}
use seelf.Store.Apps.{AppRow, Apps}
use seelf.Handlers.Apps.Names.{Naming, naming, Differs, Unique, Inv}

-- The configuration of a deployment of the application of a row, on one of its environments.
pub record IsOf (r : AppRow) (c : DeploymentConfig) : Type 0 where
  pub name : c.app_name ≡ r.name
  pub target :
      ((c.environment ≡ production) × (c.target ≡ r.production.target))
      ⊎ ((c.environment ≡ staging) × (c.target ≡ r.staging.target))

-- Two applications of a table.
abbrev pub Both : Apps → AppRow → AppRow → Type 0
Both apps r s =
    (front : Apps) × (middle : Apps) × (back : Apps) × (apps
      ≡ front ++ (r ∷ (middle ++ (s ∷ back))))

All-middle :
    (P : Naming → Type 0) (front : List Naming) (n : Naming) (back : List Naming)
    → All P (front ++ (n ∷ back))
    → P n
All-middle P [] n back (h, _) = h
All-middle P (m ∷ front) n back (_, h) = All-middle P front n back h

Unique-both :
    (front middle back : List Naming) (n m : Naming)
    → Unique (front ++ (n ∷ (middle ++ (m ∷ back))))
    → Differs n m
Unique-both [] middle back n m (h, _) = All-middle (Differs n) middle m back h
Unique-both (k ∷ front) middle back n m (_, h) = Unique-both front middle back n m h

namings :
    (front middle back : Apps) (r s : AppRow)
    → map naming (front ++ (r ∷ (middle ++ (s ∷ back))))
      ≡ map naming front ++ (naming r ∷ (map naming middle ++ (naming s ∷ map naming back)))
namings front middle back r s =
    map-append naming front _
    ∙ ap (λ l. map naming front ++ (naming r ∷ l)) (map-append naming middle (s ∷ back))

All-second :
    (P : Naming → Type 0) (front middle back : List Naming) (n m : Naming)
    → All P (front ++ (n ∷ (middle ++ (m ∷ back))))
    → P m
All-second P [] middle back n m (_, h) = All-middle P middle m back h
All-second P (k ∷ front) middle back n m (_, h) = All-second P front middle back n m h

IsOf-IsChecked :
    (r : AppRow) (c : DeploymentConfig) → IsOf r c → app_name_from r.name ≡ ok r.name → IsChecked c
unfolding environment_from String-discrete
IsOf-IsChecked r c o h = record {
  name = subst (λ n. app_name_from n ≡ ok n) (sym o.name) h;
  environment = elim o.target [
    | inl (p, _) ↦ subst (λ e. environment_from e ≡ ok e) (sym p) refl
    | inr (s, _) ↦ subst (λ e. environment_from e ≡ ok e) (sym s) refl
  ];
}

targets_clash :
    (r s : AppRow) (c d : DeploymentConfig)
    → Differs (naming r) (naming s)
    → IsOf r c
    → IsOf s d
    → c.target ≡ d.target
    → c.app_name ≡ d.app_name
    → c.environment ≡ d.environment
    → ⊥
targets_clash r s c d differ of_r of_s same names envs =
    let (on_production, on_staging) = differ (sym of_r.name ∙ (names ∙ of_s.name)) in
    elim of_r.target [
      | inl (p, t) ↦ elim of_s.target [
        | inl (q, u) ↦ on_production (sym t ∙ (same ∙ u))
        | inr (q, u) ↦ production-ne-staging (sym p ∙ (envs ∙ q))
      ]
      | inr (p, t) ↦ elim of_s.target [
        | inl (q, u) ↦ production-ne-staging (sym q ∙ (sym envs ∙ p))
        | inr (q, u) ↦ on_staging (sym t ∙ (same ∙ u))
      ]
    ]

-- Two applications of a table with unique names never use a common subdomain on one target.
pub apps_apart :
    (apps : Apps) (r s : AppRow) (c d : DeploymentConfig) (service other : String)
    (is_default other_default : Bool)
    → Inv apps
    → Both apps r s
    → IsOf r c
    → IsOf s d
    → c.target ≡ d.target
    → sub_domain c service is_default ≢ sub_domain d other other_default
apps_apart apps r s c d service other b b' v (front, middle, back, e) of_r of_s same h =
    let list = ap (map naming) e ∙ namings front middle back r s in
    let fr = map naming front in
    let mi = map naming middle in
    let ba = map naming back in
    let differ = Unique-both fr mi ba (naming r) (naming s) (subst Unique list v.unique) in
    let checked = subst (All (λ n. app_name_from n.name ≡ ok n.name)) list v.checked in
    let c_ok = IsOf-IsChecked r c of_r (All-middle _ fr (naming r) _ checked) in
    let d_ok = IsOf-IsChecked s d of_s (All-second _ fr mi ba (naming r) (naming s) checked) in
    let (names, envs) = sub_domain-eq c d service other b b' c_ok d_ok h in
    targets_clash r s c d differ of_r of_s same names envs
