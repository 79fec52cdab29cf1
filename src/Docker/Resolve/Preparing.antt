-- ===== src/Docker/Resolve/Preparing.antt =====
-- The loops over the entrypoints of a target: those without a port are kept to be resolved.
use seelf.Prelude.{
  bind-ok, ℕ, String, ◌≡◌, refl, ◌∙◌, Bool, true, none, some, List, [], ◌∷◌, ◌++◌, arith, ◌&&◌,
  ◌||◌, ◌==◌, string_eq, lookup, any, Result, ok, String-discrete, subst,
}
use seelf.Domain.Entrypoints.{Entries, AppEntries, TargetEntrypoints, at, port_of}
use seelf.Docker.Proxy.{
  EntrypointDefinition, ProxyBuilder, add_entrypoint, add_new_entrypoint, prepare_entries,
  prepare_envs, prepare_apps,
}

-- Is this entrypoint among those to be resolved?
abbrev pub names_it : String → String → String → EntrypointDefinition → Bool
names_it app env name d = d.app == app && (d.env == env && d.name == name)

abbrev pub wants : ProxyBuilder → String → String → String → Bool
wants b app env name = any (names_it app env name) b.new_entrypoints

any-append {ℓ} :
    {A : Type ℓ} (p : A → Bool) (xs ys : List A) → any p (xs ++ ys) ≡ (any p xs || any p ys)
unfolding any
any-append p [] ys = refl
any-append p (x ∷ xs) ys = ground (arith, any-append p xs ys)

module _ (new_port : String → String → Result String) where
  -- What a step of the loops keeps: the entrypoints that are wanted stay so.
  abbrev Keeps : ProxyBuilder → ProxyBuilder → Type 0
  Keeps b b' = (app env name : String) → wants b app env name ≡ true → wants b' app env name ≡ true

  add_new-Keeps :
      (b : ProxyBuilder) (app env name : String) (b' : ProxyBuilder)
      → add_new_entrypoint new_port b app env name ≡ ok b'
      → Keeps b b' × (wants b' app env name ≡ true)
  unfolding add_new_entrypoint any
  add_new-Keeps b app env name b' h =
      let (key, _, e) = bind-ok (new_port _ _) _ h in
      let d : EntrypointDefinition = record { app = app; env = env; name = name; key = key } in
      let new : b.new_entrypoints ++ (d ∷ []) ≡ b'.new_entrypoints = ground (arith, e) in
      (
        λ a v n w.
            subst (λ l. any (names_it a v n) l ≡ true) new
              (any-append (names_it a v n) b.new_entrypoints (d ∷ []) ∙ ground (arith, w)),
        subst (λ l. any (names_it app env name) l ≡ true) new
            (any-append (names_it app env name) b.new_entrypoints (d ∷ []) ∙ ground arith),
      )

  add-Keeps : (b : ProxyBuilder) (name : String) (port : ℕ) → Keeps b (add_entrypoint b name port)
  unfolding add_entrypoint
  add-Keeps b name port a v n h = h

  entries-Keeps :
      (b : ProxyBuilder) (app env : String) (entries : Entries) (b' : ProxyBuilder)
      → prepare_entries new_port b app env entries ≡ ok b'
      → Keeps b b'
  unfolding prepare_entries
  entries-Keeps b app env [] b' h = λ a v n w. ground (arith, h, w)
  entries-Keeps b app env ((name, some port) ∷ rest) b' h = λ a v n w.
      entries-Keeps (add_entrypoint b name port) app env rest b' h a v n
        (add-Keeps b name port a v n w)
  entries-Keeps b app env ((name, none) ∷ rest) b' h =
      let (next, added, later) = bind-ok (add_new_entrypoint new_port b app env name) _ h in
      λ a v n w.
        entries-Keeps next app env rest b' later a v n
          ((add_new-Keeps b app env name next added).0 a v n w)

  envs-Keeps :
      (b : ProxyBuilder) (app : String) (envs : AppEntries) (b' : ProxyBuilder)
      → prepare_envs new_port b app envs ≡ ok b'
      → Keeps b b'
  unfolding prepare_envs
  envs-Keeps b app [] b' h = λ a v n w. ground (arith, h, w)
  envs-Keeps b app ((env, entries) ∷ rest) b' h =
      let (next, done, later) = bind-ok (prepare_entries new_port b app env entries) _ h in
      λ a v n w.
        envs-Keeps next app rest b' later a v n (entries-Keeps b app env entries next done a v n w)

  apps-Keeps :
      (b : ProxyBuilder) (apps : TargetEntrypoints) (b' : ProxyBuilder)
      → prepare_apps new_port b apps ≡ ok b'
      → Keeps b b'
  unfolding prepare_apps
  apps-Keeps b [] b' h = λ a v n w. ground (arith, h, w)
  apps-Keeps b ((app, envs) ∷ rest) b' h =
      let (next, done, later) = bind-ok (prepare_envs new_port b app envs) _ h in
      λ a v n w. apps-Keeps next rest b' later a v n (envs-Keeps b app envs next done a v n w)

  -- The loops reach every entrypoint that has no port.
  entries-want :
      (b : ProxyBuilder) (app env : String) (entries : Entries) (b' : ProxyBuilder) (name : String)
      → prepare_entries new_port b app env entries ≡ ok b'
      → lookup name entries ≡ some none
      → wants b' app env name ≡ true
  unfolding prepare_entries lookup
  entries-want b app env [] b' name h here = absurd (cc)
  entries-want b app env ((key, some port) ∷ rest) b' name h here =
      entries-want (add_entrypoint b key port) app env rest b' name h (ground (arith, here))
  entries-want b app env ((key, none) ∷ rest) b' name h here =
      let (next, added, later) = bind-ok (add_new_entrypoint new_port b app env key) _ h in
      elim (String-discrete key name) [
        | yes p ↦
            entries-Keeps next app env rest b' later app env name (
              subst (λ k. wants next app env k ≡ true) p (add_new-Keeps b app env key next added).1)
        | no p ↦ entries-want next app env rest b' name later (ground (arith, here, p))
      ]

  envs-want :
      (b : ProxyBuilder) (app : String) (envs : AppEntries) (b' : ProxyBuilder) (env name : String)
      → prepare_envs new_port b app envs ≡ ok b'
      → lookup name (at env envs) ≡ some none
      → wants b' app env name ≡ true
  unfolding prepare_envs lookup
  envs-want b app [] b' env name h here = absurd (cc)
  envs-want b app ((key, entries) ∷ rest) b' env name h here =
      let (next, done, later) = bind-ok (prepare_entries new_port b app key entries) _ h in
      elim (String-discrete key env) [
        | yes p ↦ envs-Keeps next app rest b' later app env name (
            subst (λ k. wants next app k name ≡ true) p
              (entries-want b app key entries next name done (ground (arith, here, p))))
        | no p ↦ envs-want next app rest b' env name later (ground (arith, here, p))
      ]

  pub apps-want :
      (b : ProxyBuilder) (apps : TargetEntrypoints) (b' : ProxyBuilder) (app env name : String)
      → prepare_apps new_port b apps ≡ ok b'
      → port_of apps app env name ≡ some none
      → wants b' app env name ≡ true
  unfolding prepare_apps port_of lookup
  apps-want b [] b' app env name h here = absurd (cc)
  apps-want b ((key, envs) ∷ rest) b' app env name h here =
      let (next, done, later) = bind-ok (prepare_envs new_port b key envs) _ h in
      elim (String-discrete key app) [
        | yes p ↦ apps-Keeps next rest b' later app env name (
            subst (λ k. wants next k env name ≡ true) p
              (envs-want b key envs next env name done (ground (arith, here, p))))
        | no p ↦ apps-want next rest b' app env name later (ground (arith, here, p))
      ]
