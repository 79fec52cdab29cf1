-- ===== src/Domain/Entrypoints/Remove.antt =====
-- `TargetEntrypoints.remove`: what is exposed afterwards, and what its result says.
use seelf.Prelude.{
  String, ◌≡◌, refl, Bool, true, false, none, List, [], ◌∷◌, arith, if◌then◌else◌, ◌==◌, string_eq,
  ◌&&◌, lookup, delete, lookup-delete, Option-cases, inl, inr,
}
use seelf.Domain.Entrypoints.{
  AppEntries, TargetEntrypoints, at, port_of, remove_envs, remove, put_or_delete, IsClean,
}
use seelf.Domain.Entrypoints.Ports.{
  at-delete, at-put_or_delete, put_or_delete_same, write_app-IsClean,
}

-- Is this environment among those to remove? No environment given means every one.
unfoldable pub listed : List String → String → Bool
listed [] v = false
listed (env ∷ rest) v = let later = listed rest v in if env == v then true else later

abbrev pub covers : List String → String → Bool
covers [] v = true
covers (env ∷ rest) v = listed (env ∷ rest) v

lookup-remove_envs :
    (m : AppEntries) (updated : Bool) (envs : List String) (v : String)
    → lookup v (remove_envs m updated envs).0 ≡ (if listed envs v then none else lookup v m)
unfolding remove_envs listed
lookup-remove_envs m updated [] v = refl
lookup-remove_envs m updated (env ∷ rest) v = ground (
  arith,
  lookup-delete env v m,
  lookup-remove_envs m updated rest v,
  lookup-remove_envs (delete env m) true rest v,
)

remove_envs_same :
    (m : AppEntries) (updated : Bool) (envs : List String)
    → (remove_envs m updated envs).1 ≡ false
    → ((remove_envs m updated envs).0 ≡ m) × (updated ≡ false)
unfolding remove_envs
remove_envs_same m updated [] h = (refl, h)
remove_envs_same m updated (env ∷ rest) h =
    ground (arith, remove_envs_same m updated rest, remove_envs_same (delete env m) true rest)

port_of-nothing :
    (e : TargetEntrypoints) (a v n : String) → at v (at a e) ≡ [] → port_of e a v n ≡ none
unfolding port_of lookup
port_of-nothing e a v n h = rw h

-- Afterwards nothing is exposed for the application in the given environments (in all of them, if
-- none is given), and everything else is as it was.
pub port_of-remove :
    (e : TargetEntrypoints) (app : String) (envs : List String) (a v n : String)
    → port_of (remove e app envs).0 a v n
      ≡ (if app == a && covers envs v then none else port_of e a v n)
unfolding remove port_of lookup
port_of-remove e app [] a v n = ground (arith, at-delete app a e)
port_of-remove e app (env ∷ envs) a v n = elim (Option-cases (lookup app e)) [
  | inl gone ↦ rw (gone, remove) (ground arith)
  | inr (m, here) ↦
      rw (here, remove)
        (ground (
          arith,
          at-put_or_delete app a (remove_envs m false (env ∷ envs)).0 e,
          lookup-remove_envs m false (env ∷ envs) v,
        ))
]

pub remove-IsClean :
    (e : TargetEntrypoints) (app : String) (envs : List String)
    → IsClean e
    → IsClean (remove e app envs).0
unfolding remove put_or_delete lookup
remove-IsClean e app [] c = elim (Option-cases (lookup app e)) [
  | inl gone ↦ rw (gone, remove) c
  | inr (m, here) ↦ rw (here, remove) (write_app-IsClean e app [] c (λ v x h. cc))
]
remove-IsClean e app (env ∷ envs) c = elim (Option-cases (lookup app e)) [
  | inl gone ↦ rw (gone, remove) c
  | inr (m, here) ↦
      rw (here, remove)
        (write_app-IsClean e app _ c
          λ v x h. ground (arith, lookup-remove_envs m false (env ∷ envs) v, c.envs app v x))
]

-- A removal that reports no update has changed nothing.
pub remove_same :
    (e : TargetEntrypoints) (app : String) (envs : List String)
    → IsClean e
    → (remove e app envs).1 ≡ false
    → (remove e app envs).0 ≡ e
unfolding remove
remove_same e app [] c h = ground arith
remove_same e app (env ∷ envs) c h = elim (Option-cases (lookup app e)) [
  | inl gone ↦ rw (gone, remove)
  | inr (m, here) ↦
      rw (here, remove)
        (rw ((remove_envs_same m false (env ∷ envs) (rw (here, remove) at h)).0)
          (let same = put_or_delete_same app e (c.apps app) in ground (arith, same)))
]
