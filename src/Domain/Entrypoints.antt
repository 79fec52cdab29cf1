-- ===== src/Domain/Entrypoints.antt =====
-- The maps of custom entrypoints of internal/deployment/domain/target.go. The inner maps are shared
-- by reference in the code: here a changed inner map is written back under its key.
pub mod Ports
pub mod Merge
pub mod Remove
pub mod Assign
use seelf.Prelude.{
  ℕ, String, ◌≡◌, Bool, true, false, Option, none, some, List, [], ◌∷◌, if◌then◌else◌, ◌==◌,
  string_eq, Map, lookup, insert, delete, is_empty, is_some, get_or,
}
use seelf.Domain.Services.{Entrypoint, names}

-- By the entrypoint's name; `none` is a port that is not assigned yet.
abbrev pub Entries : Type 0
Entries = Map (Option ℕ)

-- By the environment.
abbrev pub AppEntries : Type 0
AppEntries = Map Entries

-- By the application.
abbrev pub TargetEntrypoints : Type 0
TargetEntrypoints = Map AppEntries

abbrev pub TargetEntrypointsAssigned : Type 0
TargetEntrypointsAssigned = Map (Map (Map ℕ))

-- `e[app]` and `e[app][env]` read as empty where the key is missing.
abbrev pub at {ℓ} : {V : Type ℓ} → String → Map (Map V) → Map V
at k m = get_or (lookup k m) []

-- port, found := e[app][env][name]
unfoldable pub port_of : TargetEntrypoints → String → String → String → Option (Option ℕ)
port_of e app env name = lookup name (at env (at app e))

-- The entries that the list no longer names are deleted; the flag says that there was one.
unfoldable pub remove_old : Entries → List Entrypoint → Entries × Bool
remove_old [] eps = ([], false)
remove_old ((n, p) ∷ rest) eps =
    let (kept, updated) = remove_old rest eps in
    if names eps n then ((n, p) ∷ kept, updated) else (kept, true)

-- New entries are added with no port; existing ones are not overwritten.
unfoldable pub add_new : Entries → Bool → List Entrypoint → Entries × Bool
add_new m updated [] = (m, updated)
add_new m updated (e ∷ rest) =
    let found = is_some (lookup e.name m) in
    add_new (if found then m else insert e.name none m) (if found then updated else true) rest

-- "Clean useless entries": an empty inner map is deleted, any other is written back.
unfoldable pub put_or_delete {ℓ} : {V : Type ℓ} → String → Map V → Map (Map V) → Map (Map V)
put_or_delete k inner m = if is_empty inner then delete k m else insert k inner m

unfoldable pub merge :
    TargetEntrypoints → String → String → List Entrypoint → TargetEntrypoints × Bool
merge e app env eps =
    let app_entries = at app e in
    let (kept, removed) = remove_old (at env app_entries) eps in
    let (entries, updated) = add_new kept removed eps in
    (put_or_delete app (put_or_delete env entries app_entries) e, updated)

unfoldable pub remove_envs : AppEntries → Bool → List String → AppEntries × Bool
remove_envs m updated [] = (m, updated)
remove_envs m updated (env ∷ rest) =
    let found = is_some (lookup env m) in
    remove_envs (if found then delete env m else m) (if found then true else updated) rest

-- No environment given means all of them.
unfoldable pub remove_found :
    TargetEntrypoints → String → AppEntries → List String → TargetEntrypoints × Bool
remove_found e app app_entries [] = (delete app e, true)
remove_found e app app_entries (env ∷ envs) =
    let (left, updated) = remove_envs app_entries false (env ∷ envs) in
    (put_or_delete app left e, updated)

unfoldable pub remove : TargetEntrypoints → String → List String → TargetEntrypoints × Bool
unfolding remove_found
remove e app envs = elim (lookup app e) [
  | none ↦ (e, false)
  | some app_entries ↦ remove_found e app app_entries envs
]

-- e[app][env][name] = port
unfoldable pub set_port :
    TargetEntrypoints → String → String → String → Option ℕ → TargetEntrypoints
set_port e app env name port =
    let app_entries = at app e in
    insert app (insert env (insert name port (at env app_entries)) app_entries) e

unfoldable pub assign_names :
    TargetEntrypoints → Bool → String → String → Map ℕ → TargetEntrypoints × Bool
assign_names e updated app env [] = (e, updated)
assign_names e updated app env ((name, port) ∷ rest) =
    let found = is_some (port_of e app env name) in
    assign_names (if found then set_port e app env name (some port) else e)
      (if found then true else updated) app env rest

unfoldable pub assign_envs :
    TargetEntrypoints → Bool → String → Map (Map ℕ) → TargetEntrypoints × Bool
assign_envs e updated app [] = (e, updated)
assign_envs e updated app ((env, entries) ∷ rest) =
    let (e', updated') = assign_names e updated app env entries in assign_envs e' updated' app rest

unfoldable pub assign_apps :
    TargetEntrypoints → Bool → TargetEntrypointsAssigned → TargetEntrypoints × Bool
assign_apps e updated [] = (e, updated)
assign_apps e updated ((app, envs) ∷ rest) =
    let (e', updated') = assign_envs e updated app envs in assign_apps e' updated' rest

unfoldable pub assign : TargetEntrypoints → TargetEntrypointsAssigned → TargetEntrypoints × Bool
assign e mapping = assign_apps e false mapping

-- `TargetEntrypointsAssigned.Set`
unfoldable pub set_assigned :
    TargetEntrypointsAssigned → String → String → String → ℕ → TargetEntrypointsAssigned
set_assigned e app env name port =
    let app_entries = at app e in
    insert app (insert env (insert name port (at env app_entries)) app_entries) e

-- No inner map is empty.
pub record IsClean (e : TargetEntrypoints) : Type 0 where
  pub apps : (app : String) (m : AppEntries) → lookup app e ≡ some m → is_empty m ≡ false
  pub envs : (app env : String) (m : Entries) → lookup env (at app e) ≡ some m → is_empty m ≡ false
