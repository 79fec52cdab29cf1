-- ===== src/Domain/Entrypoints/Ports.antt =====
-- Reading an entrypoint's port after a write to the nested maps.
use seelf.Prelude.{
  ℕ, String, ◌≡◌, refl, false, Option, some, [], ◌∷◌, arith, sym, if◌then◌else◌, ◌==◌, string_eq,
  ◌&&◌, Map, lookup, insert, delete, is_empty, lookup-insert, lookup-delete, Option-cases, inl, inr,
  delete_absent, insert_present,
}
use seelf.Domain.Entrypoints.{
  Entries, AppEntries, TargetEntrypoints, at, port_of, put_or_delete, set_port, IsClean,
}

module _ {ℓ} {V : Type ℓ} where
  -- Reading through a key that was written back, cleaned or not.
  pub at-put_or_delete :
      (k j : String) (inner : Map V) (m : Map (Map V))
      → at j (put_or_delete k inner m) ≡ (if k == j then inner else at j m)
  unfolding put_or_delete
  at-put_or_delete k j [] m = simp lookup-delete (ground arith)
  at-put_or_delete k j (x ∷ inner) m = simp lookup-insert (ground arith)

  pub at-delete :
      (k j : String) (m : Map (Map V)) → at j (delete k m) ≡ (if k == j then [] else at j m)
  at-delete k j m = simp lookup-delete (ground arith)

  pub at-insert :
      (k j : String) (inner : Map V) (m : Map (Map V))
      → at j (insert k inner m) ≡ (if k == j then inner else at j m)
  at-insert k j inner m = simp lookup-insert (ground arith)

  pub put_or_delete_clean :
      (k j : String) (inner v : Map V) (m : Map (Map V))
      → (lookup j m ≡ some v → is_empty v ≡ false)
      → lookup j (put_or_delete k inner m) ≡ some v
      → is_empty v ≡ false
  unfolding put_or_delete
  put_or_delete_clean k j [] v m clean h = ground (arith, lookup-delete k j m, clean)
  put_or_delete_clean k j (x ∷ inner) v m clean h =
      ground (arith, lookup-insert k j (x ∷ inner) m, clean)

  -- A map that was read and is written back unchanged leaves everything as it was.
  pub put_or_delete_same :
      (k : String) (m : Map (Map V))
      → ((v : Map V) → lookup k m ≡ some v → is_empty v ≡ false)
      → put_or_delete k (at k m) m ≡ m
  unfolding put_or_delete
  put_or_delete_same k m clean = elim (Option-cases (lookup k m)) [
    | inl gone ↦ rw gone (delete_absent k m gone)
    | inr (v, here) ↦ rw here (rw (clean v here) (insert_present k v m here))
  ]

-- Ports after a write to one application's and environment's entries.
pub port_of-write :
    (e : TargetEntrypoints) (app env a v n : String) (entries : Entries)
    → port_of (put_or_delete app (put_or_delete env entries (at app e)) e) a v n
      ≡ (if app == a && env == v then lookup n entries else port_of e a v n)
unfolding port_of
port_of-write e app env a v n entries = ground (
  arith,
  at-put_or_delete app a (put_or_delete env entries (at app e)) e,
  at-put_or_delete env v entries (at app e),
)

-- Writing an application's entries back keeps a clean map clean.
pub write_app-IsClean :
    (e : TargetEntrypoints) (app : String) (inner : AppEntries)
    → IsClean e
    → ((v : String) (m : Entries) → lookup v inner ≡ some m → is_empty m ≡ false)
    → IsClean (put_or_delete app inner e)
write_app-IsClean e app inner c clean = record {
  apps = λ a m h. put_or_delete_clean app a inner m e (c.apps a m) h;
  envs = λ a v m h. ground (arith, at-put_or_delete app a inner e, c.envs a v m, clean v m);
}

pub write-IsClean :
    (e : TargetEntrypoints) (app env : String) (entries : Entries)
    → IsClean e
    → IsClean (put_or_delete app (put_or_delete env entries (at app e)) e)
write-IsClean e app env entries c =
    write_app-IsClean e app (put_or_delete env entries (at app e)) c
      λ v m h. put_or_delete_clean env v entries m (at app e) (c.envs app v m) h

insert-nonempty {ℓ} :
    {V : Type ℓ} (k : String) (v : V) (m : Map V) → is_empty (insert k v m) ≡ false
unfolding insert
insert-nonempty k v [] = refl
insert-nonempty k v ((j, w) ∷ m) = ground arith

put_nonempty {ℓ} :
    {V : Type ℓ} (k : String) (inner : Map V) (m : Map (Map V))
    → is_empty inner ≡ false
    → put_or_delete k inner m ≡ insert k inner m
unfolding put_or_delete
put_nonempty k inner m h = rw h

set_port_lem :
    (e : TargetEntrypoints) (app env name : String) (port : Option ℕ)
    → set_port e app env name port
      ≡ put_or_delete app (put_or_delete env (insert name port (at env (at app e))) (at app e)) e
unfolding set_port
set_port_lem e app env name port =
    let entries = insert name port (at env (at app e)) in
    rw (put_nonempty env entries (at app e) (insert-nonempty name port (at env (at app e)))) (
      sym (
        put_nonempty app (insert env entries (at app e)) e
          (insert-nonempty env entries (at app e))))

pub set_port-IsClean :
    (e : TargetEntrypoints) (app env name : String) (port : Option ℕ)
    → IsClean e
    → IsClean (set_port e app env name port)
set_port-IsClean e app env name port c =
    rw (set_port_lem e app env name port) (write-IsClean e app env _ c)

pub port_of-set_port :
    (e : TargetEntrypoints) (app env name a v n : String) (port : Option ℕ)
    → port_of (set_port e app env name port) a v n
      ≡ (if app == a && (env == v && name == n) then some port else port_of e a v n)
port_of-set_port e app env name a v n port = rw (set_port_lem e app env name port) (
    unfold port_of in
    ground (
      arith,
      port_of-write e app env a v n (insert name port (at env (at app e))),
      lookup-insert name n port (at env (at app e)),
    ))
