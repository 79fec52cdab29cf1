-- ===== src/Domain/Entrypoints/Assign.antt =====
-- `TargetEntrypoints.assign`: the ports that it sets.
use seelf.Prelude.{
  ℕ, String, ◌≡◌, refl, Bool, true, false, some, [], ◌∷◌, arith, if◌then◌else◌, string_eq, Map,
  is_some, ◌∙◌, Option-cases, inl, inr,
}
use seelf.Domain.Entrypoints.{
  TargetEntrypoints, TargetEntrypointsAssigned, port_of, set_port, assign_names, assign_envs,
  assign_apps, assign, IsClean,
}
use seelf.Domain.Entrypoints.Ports.{set_port-IsClean, port_of-set_port}

-- Two maps expose the same entrypoints.
abbrev pub SameExposed : TargetEntrypoints → TargetEntrypoints → Type 0
SameExposed e e' = (a v n : String) → is_some (port_of e' a v n) ≡ is_some (port_of e a v n)

-- What every stage of `assign` keeps, from `e` and the flag so far.
record Assigned (e : TargetEntrypoints) (updated : Bool) (e' : TargetEntrypoints) (updated' : Bool)
    : Type 0 where
  exposed : SameExposed e e'
  clean : IsClean e → IsClean e'
  same : updated' ≡ false → (e' ≡ e) × (updated ≡ false)

Assigned-refl : (e : TargetEntrypoints) (u : Bool) → Assigned e u e u
Assigned-refl e u = record { exposed = λ a v n. refl; clean = λ c. c; same = λ h. (refl, h) }

Assigned-trans :
    {e f g : TargetEntrypoints} {u v w : Bool}
    → Assigned e u f v
    → Assigned f v g w
    → Assigned e u g w
Assigned-trans h k = record {
  exposed = λ a v n. k.exposed a v n ∙ h.exposed a v n;
  clean = λ c. k.clean (h.clean c);
  same = λ s. let (p, q) = k.same s in let (p', q') = h.same q in (p ∙ p', q');
}

assign_one :
    (e : TargetEntrypoints) (u : Bool) (app env name : String) (port : ℕ)
    → let found = is_some (port_of e app env name) in
      Assigned e u
        (if found then set_port e app env name (some port) else e)
        (if found then true else u)
assign_one e u app env name port = elim (Option-cases (port_of e app env name)) [
  | inl gone ↦ rw gone (Assigned-refl e u)
  | inr (p, here) ↦ rw here (record {
    exposed = λ a v n. ground (arith, port_of-set_port e app env name a v n (some port));
    clean = set_port-IsClean e app env name (some port);
    same = λ h. absurd (cc);
  })
]

assign_names-Assigned :
    (e : TargetEntrypoints) (u : Bool) (app env : String) (m : Map ℕ)
    → Assigned e u (assign_names e u app env m).0 (assign_names e u app env m).1
unfolding assign_names
assign_names-Assigned e u app env [] = Assigned-refl e u
assign_names-Assigned e u app env ((name, port) ∷ rest) =
    let found = is_some (port_of e app env name) in
    Assigned-trans (assign_one e u app env name port) (
      assign_names-Assigned (if found then set_port e app env name (some port) else e)
        (if found then true else u) app env rest)

assign_envs-Assigned :
    (e : TargetEntrypoints) (u : Bool) (app : String) (m : Map (Map ℕ))
    → Assigned e u (assign_envs e u app m).0 (assign_envs e u app m).1
unfolding assign_envs
assign_envs-Assigned e u app [] = Assigned-refl e u
assign_envs-Assigned e u app ((env, entries) ∷ rest) =
    Assigned-trans (assign_names-Assigned e u app env entries) (
      assign_envs-Assigned (assign_names e u app env entries).0 (assign_names e u app env entries).1
        app rest)

assign_apps-Assigned :
    (e : TargetEntrypoints) (u : Bool) (m : TargetEntrypointsAssigned)
    → Assigned e u (assign_apps e u m).0 (assign_apps e u m).1
unfolding assign_apps
assign_apps-Assigned e u [] = Assigned-refl e u
assign_apps-Assigned e u ((app, envs) ∷ rest) =
    Assigned-trans (assign_envs-Assigned e u app envs)
      (assign_apps-Assigned (assign_envs e u app envs).0 (assign_envs e u app envs).1 rest)

-- What assigning the ports keeps.
pub assign_keeps :
    (e : TargetEntrypoints) (mapping : TargetEntrypointsAssigned)
    → SameExposed e (assign e mapping).0
      × (IsClean e → IsClean (assign e mapping).0)
      × ((assign e mapping).1 ≡ false → (assign e mapping).0 ≡ e)
unfolding assign
assign_keeps e mapping =
    let a = assign_apps-Assigned e false mapping in (a.exposed, a.clean, λ h. (a.same h).0)

-- Whatever ports a provider assigns, the same entrypoints are exposed afterwards, and the map that has
-- no empty inner map still has none.
pub assign-SameExposed :
    (e : TargetEntrypoints) (mapping : TargetEntrypointsAssigned)
    → IsClean e
    → SameExposed e (assign e mapping).0 × IsClean (assign e mapping).0
assign-SameExposed e mapping c =
    let (same, clean, unchanged) = assign_keeps e mapping in (same, clean c)
