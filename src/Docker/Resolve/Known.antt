-- ===== src/Docker/Resolve/Known.antt =====
-- The ports of the entrypoints once a target is marked as configured with what the proxy assigned.
use seelf.Prelude.{
  ℕ, String, ◌≡◌, sym, ◌∙◌, Bool, true, false, Option, none, some, List, [], ◌∷◌, arith,
  if◌then◌else◌, ◌&&◌, ◌==◌, string_eq, inl, inr, Map, lookup, subst, String-discrete, is_some,
  Result, ok, Error, Option-cases,
}
use seelf.Domain.Entrypoints.{
  TargetEntrypoints, TargetEntrypointsAssigned, at, port_of, set_port, assign_names, assign_envs,
  assign_apps, assign,
}
use seelf.Domain.Entrypoints.Ports.{port_of-set_port}
use seelf.Domain.Target.{Target}
use seelf.Docker.Project.{PortConfig}
use seelf.Docker.Resolve.{build}
use seelf.Docker.Resolve.Covering.{assigned_of, build-covers}

-- The entrypoint is there, with its port.
abbrev pub IsKnown : TargetEntrypoints → String → String → String → Type 0
IsKnown e app env name = (p : ℕ) × (port_of e app env name ≡ some (some p))

-- What a stage of `assign` keeps.
record Stage (e e' : TargetEntrypoints) : Type 0 where
  known : (a v n : String) → IsKnown e a v n → IsKnown e' a v n
  exposed : (a v n : String) → is_some (port_of e a v n) ≡ true → is_some (port_of e' a v n) ≡ true

Stage-refl : (e : TargetEntrypoints) → Stage e e
Stage-refl e = record { known = λ a v n k. k; exposed = λ a v n k. k }

Stage-trans : {e f g : TargetEntrypoints} → Stage e f → Stage f g → Stage e g
Stage-trans h k = record {
  known = λ a v n i. k.known a v n (h.known a v n i);
  exposed = λ a v n i. k.exposed a v n (h.exposed a v n i);
}

-- One port is set, if its entrypoint is there.
abbrev set_found : TargetEntrypoints → String → String → String → ℕ → TargetEntrypoints
set_found e app env name port =
    if is_some (port_of e app env name) then set_port e app env name (some port) else e

one-IsKnown :
    (e : TargetEntrypoints) (app env name a v n : String) (port : ℕ)
    → IsKnown e a v n
    → IsKnown (set_found e app env name port) a v n
one-IsKnown e app env name a v n port (p, h) = elim (Option-cases (port_of e app env name)) [
  | inl gone ↦ rw gone (p, h)
  | inr (q, here) ↦ rw here (
    if app == a && (env == v && name == n) then port else p,
    port_of-set_port e app env name a v n (some port) ∙ ground (arith, h),
  )
]

one-exposed :
    (e : TargetEntrypoints) (app env name a v n : String) (port : ℕ)
    → is_some (port_of e a v n) ≡ true
    → is_some (port_of (set_found e app env name port) a v n) ≡ true
one-exposed e app env name a v n port h = elim (Option-cases (port_of e app env name)) [
  | inl gone ↦ rw gone h
  | inr (q, here) ↦ rw here (ground (arith, h, port_of-set_port e app env name a v n (some port)))
]

one-Stage :
    (e : TargetEntrypoints) (app env name : String) (port : ℕ)
    → Stage e (set_found e app env name port)
one-Stage e app env name port = record {
  known = λ a v n. one-IsKnown e app env name a v n port;
  exposed = λ a v n. one-exposed e app env name a v n port;
}

-- The entrypoint that is set is known.
one-sets :
    (e : TargetEntrypoints) (app env name : String) (port : ℕ)
    → is_some (port_of e app env name) ≡ true
    → IsKnown (set_found e app env name port) app env name
one-sets e app env name port h =
    rw h (port, port_of-set_port e app env name app env name (some port) ∙ ground arith)

names-Stage :
    (e : TargetEntrypoints) (u : Bool) (app env : String) (m : Map ℕ)
    → Stage e (assign_names e u app env m).0
unfolding assign_names
names-Stage e u app env [] = Stage-refl e
names-Stage e u app env ((name, port) ∷ rest) =
    Stage-trans (one-Stage e app env name port)
      (names-Stage (set_found e app env name port) _ app env rest)

names-IsKnown :
    (e : TargetEntrypoints) (u : Bool) (app env : String) (m : Map ℕ) (name : String)
    → is_some (lookup name m) ≡ true
    → is_some (port_of e app env name) ≡ true
    → IsKnown (assign_names e u app env m).0 app env name
unfolding assign_names lookup
names-IsKnown e u app env [] name given here = absurd (cc)
names-IsKnown e u app env ((key, port) ∷ rest) name given here = elim (String-discrete key name) [
  | yes p ↦ (names-Stage (set_found e app env key port) _ app env rest).known app env name (
      subst (IsKnown (set_found e app env key port) app env) p (
        one-sets e app env key port
          (subst (λ k. is_some (port_of e app env k) ≡ true) (sym p) here)))
  | no p ↦
      names-IsKnown (set_found e app env key port) _ app env rest name (ground (arith, given, p))
        (one-exposed e app env key app env name port here)
]

envs-Stage :
    (e : TargetEntrypoints) (u : Bool) (app : String) (m : Map (Map ℕ))
    → Stage e (assign_envs e u app m).0
unfolding assign_envs
envs-Stage e u app [] = Stage-refl e
envs-Stage e u app ((env, entries) ∷ rest) =
    let next = assign_names e u app env entries in
    Stage-trans (names-Stage e u app env entries) (envs-Stage next.0 next.1 app rest)

envs-IsKnown :
    (e : TargetEntrypoints) (u : Bool) (app : String) (m : Map (Map ℕ)) (env name : String)
    → is_some (lookup name (at env m)) ≡ true
    → is_some (port_of e app env name) ≡ true
    → IsKnown (assign_envs e u app m).0 app env name
unfolding assign_envs lookup
envs-IsKnown e u app [] env name given here = absurd (cc)
envs-IsKnown e u app ((key, entries) ∷ rest) env name given here =
    let next = assign_names e u app key entries in
    elim (String-discrete key env) [
      | yes p ↦ (envs-Stage next.0 next.1 app rest).known app env name (
          subst (λ k. IsKnown next.0 app k name) p
            (names-IsKnown e u app key entries name (ground (arith, given, p))
              (subst (λ k. is_some (port_of e app k name) ≡ true) (sym p) here)))
      | no p ↦
          envs-IsKnown next.0 next.1 app rest env name (ground (arith, given, p))
            ((names-Stage e u app key entries).exposed app env name here)
    ]

apps-Stage :
    (e : TargetEntrypoints) (u : Bool) (m : TargetEntrypointsAssigned)
    → Stage e (assign_apps e u m).0
unfolding assign_apps
apps-Stage e u [] = Stage-refl e
apps-Stage e u ((app, envs) ∷ rest) =
    let next = assign_envs e u app envs in
    Stage-trans (envs-Stage e u app envs) (apps-Stage next.0 next.1 rest)

apps-IsKnown :
    (e : TargetEntrypoints) (u : Bool) (m : TargetEntrypointsAssigned) (app env name : String)
    → is_some (assigned_of m app env name) ≡ true
    → is_some (port_of e app env name) ≡ true
    → IsKnown (assign_apps e u m).0 app env name
unfolding assign_apps lookup
apps-IsKnown e u [] app env name given here = absurd (cc)
apps-IsKnown e u ((key, envs) ∷ rest) app env name given here =
    let next = assign_envs e u key envs in
    elim (String-discrete key app) [
      | yes p ↦ (apps-Stage next.0 next.1 rest).known app env name (
          subst (λ k. IsKnown next.0 k env name) p
            (envs-IsKnown e u key envs env name (ground (arith, given, p))
              (subst (λ k. is_some (port_of e k env name) ≡ true) (sym p) here)))
      | no p ↦
          apps-IsKnown next.0 next.1 rest app env name (ground (arith, given, p))
            ((envs-Stage e u key envs).exposed app env name here)
    ]

module _ (new_port : String → String → Result String) (up : List PortConfig → Option Error)
    (inspect : Result (Map (List String))) (down : Option Error) where
  -- Once the proxy of a target was built and the ports that it got are assigned, every custom entrypoint
  -- of the target has a port.
  pub built-IsKnown :
      (t : Target) (command : List String) (ports : List PortConfig)
      (assigned : TargetEntrypointsAssigned) (app env name : String)
      → build new_port up inspect down t ≡ ok (command, ports, assigned)
      → is_some (port_of t.custom_entrypoints app env name) ≡ true
      → IsKnown (assign t.custom_entrypoints assigned).0 app env name
  unfolding assign
  built-IsKnown t command ports assigned app env name h here =
      elim (Option-cases (port_of t.custom_entrypoints app env name)) [
        | inl gone ↦ absurd (ground (arith, here, gone))
        | inr (none, there) ↦
            apps-IsKnown t.custom_entrypoints false assigned app env name
              (build-covers new_port up inspect down t command ports assigned app env name h there)
              here
        | inr (some p, there) ↦
            (apps-Stage t.custom_entrypoints false assigned).known app env name (p, there)
      ]
