-- ===== src/Domain/Registry/Calls.antt =====
-- The calls that the program makes on a registry.
use seelf.Prelude.{
  String, ◌≡◌, refl, none, some, List, [], ◌∷◌, arith, is_some, ok, if◌then◌else◌, ◌==◌, ◌||◌, not,
  string_eq,
}
use seelf.Pkg.Event.{Source, store_event, replay, run, run-IsRebuilt}
use seelf.Pkg.Action.{Time}
use seelf.Domain.Values.{url_eq, Credentials, credentials_eq}
use seelf.Domain.Requirement.{UrlRequirement}
use seelf.Domain.Registry.{
  Registry, RegistryEvent, registry_created, registry_renamed, registry_url_changed,
  registry_credentials_changed, registry_credentials_removed, registry_deleted, zero_registry,
  apply, new_registry, rename, has_url, use_authentication, remove_authentication, delete_registry,
}

pub data Call : Type 0 where
  renames : String → Call
  changes_url : UrlRequirement → Call
  authenticates : Credentials → Call
  removes_authentication : Call
  deletes : Call

unfoldable pub call : Registry → Call → Registry
call r (renames name) = rename r name
call r (changes_url requirement) = (has_url r requirement).0
call r (authenticates credentials) = use_authentication r credentials
call r removes_authentication = remove_authentication r
call r deletes = delete_registry r

pub stores : (r : Registry) (e : RegistryEvent) → (apply r e).events ≡ store_event r.events e
unfolding apply
stores r (registry_created id name url created) = refl
stores r _ = refl

abbrev pub registry_source : Source Registry RegistryEvent
registry_source = record { apply = apply; events = λ r. r.events; stores = stores }

pub emitted : Registry → Call → List RegistryEvent
emitted r (renames name) = if r.name == name then [] else registry_renamed r.id name ∷ []
emitted r (changes_url requirement) =
    if not requirement.unique || requirement.url == r.url
    then []
    else registry_url_changed r.id requirement.url ∷ []
emitted r (authenticates credentials) = elim r.credentials [
  | none ↦ registry_credentials_changed r.id credentials ∷ []
  | some existing ↦
      if existing == credentials then [] else registry_credentials_changed r.id credentials ∷ []
]
emitted r removes_authentication =
    if is_some r.credentials then registry_credentials_removed r.id ∷ [] else []
emitted r deletes = registry_deleted r.id ∷ []

registry_call-emitted :
    (r : Registry) (c : Call) → Unit {0} → call r c ≡ replay registry_source r (emitted r c)
unfolding call emitted replay rename has_url use_authentication remove_authentication
    delete_registry
registry_call-emitted r (renames name) v = ground arith
registry_call-emitted r (changes_url requirement) v = ground arith
registry_call-emitted r (authenticates credentials) v = ground arith
registry_call-emitted r removes_authentication v = ground arith
registry_call-emitted r deletes v = ground arith

created-IsRebuilt :
    (id name : String) (u : UrlRequirement) (by : String) (now : Time) (r : Registry)
    → new_registry id name u by now ≡ ok r
    → replay registry_source zero_registry r.events ≡ r
unfolding new_registry replay
created-IsRebuilt id name u by now r h = ground arith

-- Created, and then used by any calls at all, a registry is exactly what its pending events rebuild
-- from nothing.
pub registry_rebuilt :
    (id name : String) (u : UrlRequirement) (by : String) (now : Time) (r : Registry)
    (cs : List Call)
    → new_registry id name u by now ≡ ok r
    → replay registry_source zero_registry (run call r cs).events ≡ run call r cs
registry_rebuilt id name u by now r cs h =
    run-IsRebuilt registry_source call emitted (λ x. Unit {0}) (λ x c v. tt) registry_call-emitted
      zero_registry r cs tt (created-IsRebuilt id name u by now r h)

-- A call made twice in a row, deletion aside, raises its events once: the second one changes nothing.
pub registry_idempotent :
    (r : Registry) (c : Call) → (c ≡ deletes → ⊥) → call (call r c) c ≡ call r c
unfolding call rename has_url use_authentication remove_authentication
registry_idempotent r (renames name) d = ground arith
registry_idempotent r (changes_url requirement) d = ground arith
registry_idempotent r (authenticates credentials) d = ground arith
registry_idempotent r removes_authentication d = ground arith
registry_idempotent r deletes d = absurd (d refl)
