-- ===== src/Domain/Services.antt =====
-- The data of internal/deployment/domain/service.go and the entrypoints that a list of services
-- exposes.
use seelf.Prelude.{
  ℕ, String, Bool, true, false, Option, List, [], ◌∷◌, ◌++◌, if◌then◌else◌, not, ◌==◌, string_eq,
}

pub data Router : Type 0 where
  http tcp udp : Router

pub record Entrypoint : Type 0 where
  pub name : String
  pub is_custom : Bool
  pub router : Router
  pub subdomain : Option String
  pub port : ℕ

pub record Service : Type 0 where
  pub name : String
  pub qualified_name : String
  pub image : String
  pub entrypoints : List Entrypoint

-- `Services.Entrypoints`
unfoldable pub entrypoints_of : List Service → List Entrypoint
entrypoints_of [] = []
entrypoints_of (s ∷ rest) = s.entrypoints ++ entrypoints_of rest

-- `slices.DeleteFunc(_, isNotCustom)`
unfoldable pub delete_not_custom : List Entrypoint → List Entrypoint
delete_not_custom [] = []
delete_not_custom (e ∷ rest) =
    let kept = delete_not_custom rest in if not e.is_custom then kept else e ∷ kept

unfoldable pub custom_entrypoints : List Service → List Entrypoint
unfolding entrypoints_of delete_not_custom
custom_entrypoints s = delete_not_custom (entrypoints_of s)

-- Does the list name this entrypoint? (`entry.name == existing` in a loop.)
unfoldable pub names : List Entrypoint → String → Bool
names [] n = false
names (e ∷ rest) n = let later = names rest n in if e.name == n then true else later
