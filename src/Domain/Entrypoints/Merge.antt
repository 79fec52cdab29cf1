-- ===== src/Domain/Entrypoints/Merge.antt =====
-- `TargetEntrypoints.merge`: what is exposed afterwards, and what its result says.
use seelf.Prelude.{
  String, ◌≡◌, ◌≢◌, refl, Bool, true, false, none, some, List, [], ◌∷◌, arith, if◌then◌else◌, ◌==◌,
  string_eq, ◌&&◌, lookup, insert, is_some, get_or, lookup-insert, ◌⊎◌, Bool-cases, Option-cases,
  inl, inr,
}
use seelf.Domain.Services.{Entrypoint, names}
use seelf.Domain.Entrypoints.{
  Entries, TargetEntrypoints, at, port_of, remove_old, add_new, merge, IsClean,
}
use seelf.Domain.Entrypoints.Ports.{put_or_delete_same, port_of-write, write-IsClean}

lookup-remove_old :
    (m : Entries) (eps : List Entrypoint) (n : String)
    → lookup n (remove_old m eps).0 ≡ (if names eps n then lookup n m else none)
unfolding lookup remove_old
lookup-remove_old [] eps n = ground arith
lookup-remove_old ((k, p) ∷ rest) eps n = ground (arith, lookup-remove_old rest eps n)

lookup-add_new :
    (m : Entries) (updated : Bool) (eps : List Entrypoint) (n : String)
    → lookup n (add_new m updated eps).0
      ≡ (if is_some (lookup n m) then lookup n m else if names eps n then some none else none)
unfolding add_new names
lookup-add_new m updated [] n = ground arith
lookup-add_new m updated (e ∷ rest) n = ground (
  arith,
  lookup-insert e.name n none m,
  lookup-add_new m updated rest n,
  lookup-add_new (insert e.name none m) true rest n,
)

-- After a merge exactly the listed names are exposed for the application and the environment: those
-- that were there keep their port, new ones have none; everything else is as it was.
pub port_of-merge :
    (e : TargetEntrypoints) (app env : String) (eps : List Entrypoint) (a v n : String)
    → port_of (merge e app env eps).0 a v n ≡ (
        if app == a && env == v
        then (if names eps n then some (get_or (port_of e app env n) none) else none)
        else port_of e a v n)
unfolding merge
port_of-merge e app env eps a v n = rw (port_of-write e app env a v n _) (
    unfold port_of in
    ground (
      arith,
      lookup-remove_old (at env (at app e)) eps n,
      lookup-add_new (remove_old (at env (at app e)) eps).0 (remove_old (at env (at app e)) eps).1
          eps n,
    ))

pub merge-IsClean :
    (e : TargetEntrypoints) (app env : String) (eps : List Entrypoint)
    → IsClean e
    → IsClean (merge e app env eps).0
unfolding merge
merge-IsClean e app env eps c = write-IsClean e app env _ c

remove_old_same :
    (m : Entries) (eps : List Entrypoint) → (remove_old m eps).1 ≡ false → (remove_old m eps).0 ≡ m
unfolding remove_old
remove_old_same [] eps h = refl
remove_old_same ((k, p) ∷ rest) eps h = ground (arith, remove_old_same rest eps)

add_new_same :
    (m : Entries) (updated : Bool) (eps : List Entrypoint)
    → (add_new m updated eps).1 ≡ false
    → ((add_new m updated eps).0 ≡ m) × (updated ≡ false)
unfolding add_new
add_new_same m updated [] h = (refl, h)
add_new_same m updated (e ∷ rest) h =
    ground (arith, add_new_same m updated rest, add_new_same (insert e.name none m) true rest)

-- A merge that reports no update has changed nothing.
pub merge_same :
    (e : TargetEntrypoints) (app env : String) (eps : List Entrypoint)
    → IsClean e
    → (merge e app env eps).1 ≡ false
    → (merge e app env eps).0 ≡ e
unfolding merge
merge_same e app env eps c h =
    let old = at env (at app e) in
    let (added, removed) = add_new_same (remove_old old eps).0 (remove_old old eps).1 eps h in
    rw (added, remove_old_same old eps removed)
      (rw (put_or_delete_same env (at app e) (c.envs app env))
        (put_or_delete_same app e (c.apps app)))

remove_old_changed :
    (m : Entries) (eps : List Entrypoint)
    → (remove_old m eps).1 ≡ true
    → (n : String) × (is_some (lookup n m) ≡ true) × (names eps n ≡ false)
unfolding remove_old lookup
remove_old_changed [] eps h = cc
remove_old_changed ((k, p) ∷ rest) eps h = elim (Bool-cases (names eps k)) [
  | inr dropped ↦ (k, ground arith, dropped)
  | inl listed ↦
      let (n, old, gone) = remove_old_changed rest eps (ground arith) in (n, ground arith, gone)
]

add_new_changed :
    (m : Entries) (updated : Bool) (eps : List Entrypoint)
    → (add_new m updated eps).1 ≡ true
    → (updated ≡ true) ⊎ ((n : String) × (lookup n m ≡ none) × (names eps n ≡ true))
unfolding add_new names
add_new_changed m updated [] h = inl h
add_new_changed m updated (e ∷ rest) h = elim (Option-cases (lookup e.name m)) [
  | inl new ↦ inr (e.name, new, ground arith)
  | inr (p, old) ↦ elim (add_new_changed m updated rest (ground arith)) [
    | inl u ↦ inl u
    | inr (n, new, listed) ↦ inr (n, new, ground arith)
  ]
]

abbrev pub is_exposed : TargetEntrypoints → String → String → String → Bool
is_exposed e app env name = is_some (port_of e app env name)

-- A merge that reports an update changes which entrypoints the application exposes.
pub merge_changed :
    (e : TargetEntrypoints) (app env : String) (eps : List Entrypoint)
    → (merge e app env eps).1 ≡ true
    → (n : String) × (is_exposed (merge e app env eps).0 app env n ≢ is_exposed e app env n)
merge_changed e app env eps h =
    elim (add_new_changed (remove_old old eps).0 (remove_old old eps).1 eps (unfold merge in h)) [
      | inl dropped ↦
          let (n, was, gone) = remove_old_changed old eps dropped in
          (n, unfold port_of in ground (arith, port_of-merge e app env eps app env n))
      | inr (n, new, listed) ↦ (
        n,
        unfold port_of in
            ground (arith, port_of-merge e app env eps app env n, lookup-remove_old old eps n),
      )
    ]
  where
    old : Entries
    old = at env (at app e)
