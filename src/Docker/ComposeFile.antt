-- ===== src/Docker/ComposeFile.antt =====
-- `findComposeFile` of internal/deployment/infra/provider/docker/deployment.go. `stat` is the file system's
-- answer for a file of the build directory.
use Prim.Native.String.{◌++◌}
use seelf.Prelude.{
  String, ◌≡◌, refl, List, [], ◌∷◌, arith, ok, err, infra, Result, ◌↔◌, ◌⊎◌, inl, inr, subst,
}
use seelf.Domain.Values.{Environment}

-- What `os.Stat` says of a file.
pub data Stat : Type 0 where
  exists missing unreadable : Stat

unfoldable pub service_files_affinity : Environment → List String
service_files_affinity env =
    ("compose.seelf." ++ (env ++ ".yml"))
    ∷ ("compose.seelf." ++ (env ++ ".yaml"))
    ∷ ("docker-compose.seelf." ++ (env ++ ".yml"))
    ∷ ("docker-compose.seelf." ++ (env ++ ".yaml"))
    ∷ ("compose." ++ (env ++ ".yml"))
    ∷ ("compose." ++ (env ++ ".yaml"))
    ∷ ("docker-compose." ++ (env ++ ".yml"))
    ∷ ("docker-compose." ++ (env ++ ".yaml"))
    ∷ "compose.seelf.yml"
    ∷ "compose.seelf.yaml"
    ∷ "docker-compose.seelf.yml"
    ∷ "docker-compose.seelf.yaml"
    ∷ "compose.yml"
    ∷ "compose.yaml"
    ∷ "docker-compose.yml"
    ∷ "docker-compose.yaml"
    ∷ []

module _ (stat : String → Stat) where
  unfoldable pub first_file : List String → Result String
  first_file [] = err (infra "compose_file_open_failed")
  first_file (file ∷ rest) =
      let later = first_file rest in
      elim (stat file) [
        | missing ↦ later
        | exists ↦ ok file
        | unreadable ↦ err (infra "compose_file_open_failed")
      ]

  -- `findComposeFile`: the file's name in the build directory.
  unfoldable pub find_compose_file : Environment → Result String
  unfolding first_file service_files_affinity
  find_compose_file env = first_file (service_files_affinity env)

  -- The file is on the list, and all before it are missing.
  pub data Chosen (file : String) : List String → Type 0 where
    here : (files : List String) → stat file ≡ exists → Chosen file (file ∷ files)
    later :
        (other : String) (files : List String)
        → stat other ≡ missing
        → Chosen file files
        → Chosen file (other ∷ files)

  Stat-cases : (s : Stat) → (s ≡ exists) ⊎ ((s ≡ missing) ⊎ (s ≡ unreadable))
  Stat-cases exists = inl refl
  Stat-cases missing = inr (inl refl)
  Stat-cases unreadable = inr (inr refl)

  first_file-Chosen :
      (files : List String) (file : String) → first_file files ≡ ok file → Chosen file files
  unfolding first_file
  first_file-Chosen [] file h = absurd (cc)
  first_file-Chosen (f ∷ files) file h = elim (Stat-cases (stat f)) [
    | inl e ↦
        let same : f ≡ file = ground (arith, h, e) in
        subst (λ g. Chosen g (f ∷ files)) same (here files e)
    | inr (inl m) ↦ later f files m (first_file-Chosen files file (ground (arith, h, m)))
    | inr (inr u) ↦ absurd (ground (arith, h, u))
  ]

  Chosen-first_file :
      (file : String) (files : List String) → Chosen file files → first_file files ≡ ok file
  unfolding first_file
  Chosen-first_file file _ (here files e) = ground (arith, e)
  Chosen-first_file file _ (later other files m rest) =
      ground (arith, m, Chosen-first_file file files rest)

  -- The file that is used is exactly the first of the list that is not missing, if it can be read.
  pub find_compose_file_iff :
      (env : Environment) (file : String)
      → (find_compose_file env ≡ ok file) ↔ Chosen file (service_files_affinity env)
  unfolding find_compose_file
  find_compose_file_iff env file = (
    first_file-Chosen (service_files_affinity env) file,
    Chosen-first_file file (service_files_affinity env),
  )
