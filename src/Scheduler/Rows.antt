-- ===== src/Scheduler/Rows.antt =====
-- The rows that a statement on `scheduled_jobs` leaves, each traced back to the row it was before.
use seelf.Prelude.{
  ℕ, String, ◌≡◌, ◌≢◌, refl, Bool, true, false, some, [], ◌∷◌, ◌++◌, arith, inl, inr, ◌⊎◌, any,
  if◌then◌else◌, ◌==◌, string_eq, subst, Error,
}
use seelf.Pkg.Table.{update, delete}
use seelf.Scheduler.{Job, Jobs, job_id, update_where, select, earliest, postpone}

-- A row of the table.
abbrev pub In : Job → Jobs → Type 0
In j [] = ⊥
In j (r ∷ rs) = (r ≡ j) ⊎ In j rs

update-update_where :
    (k : String) (f : Job → Job) (rows : Jobs)
    → update job_id k f rows ≡ update_where (λ r. r.id == k) f rows
unfolding update update_where
update-update_where k f [] = refl
update-update_where k f (r ∷ rows) = ground (arith, update-update_where k f rows)

module _ (j : Job) where
  pub In-append : (rows more : Jobs) → In j (rows ++ more) → In j rows ⊎ In j more
  In-append [] more i = inr i
  In-append (r ∷ rows) more (inl e) = inl (inl e)
  In-append (r ∷ rows) more (inr i) = elim (In-append rows more i) [
    | inl a ↦ inl (inr a)
    | inr b ↦ inr b
  ]

  pub In-update_where :
      (p : Job → Bool) (f : Job → Job) (rows : Jobs)
      → In j (update_where p f rows)
      → (r : Job) × In r rows × ((if p r then f r else r) ≡ j)
  unfolding update_where
  In-update_where p f [] i = absurd i
  In-update_where p f (r ∷ rows) (inl e) = (r, inl refl, e)
  In-update_where p f (r ∷ rows) (inr i) =
      let (s, here, e) = In-update_where p f rows i in (s, inr here, e)

  pub In-select : (p : Job → Bool) (rows : Jobs) → In j (select p rows) → In j rows × (p j ≡ true)
  unfolding select
  In-select p [] i = absurd i
  In-select p (r ∷ rows) i = ground (arith, In-select p rows)

  pub select-In : (p : Job → Bool) (rows : Jobs) → In j rows → p j ≡ true → In j (select p rows)
  unfolding select
  select-In p [] i h = absurd i
  select-In p (r ∷ rows) (inl e) h = ground arith
  select-In p (r ∷ rows) (inr i) h = ground (arith, select-In p rows i h)

  pub In-update :
      (k : String) (f : Job → Job) (rows : Jobs)
      → In j (update job_id k f rows)
      → (r : Job) × In r rows × ((if r.id == k then f r else r) ≡ j)
  In-update k f rows i =
      In-update_where (λ r. r.id == k) f rows (subst (In j) (update-update_where k f rows) i)

  pub In-delete : (k : String) (rows : Jobs) → In j (delete job_id k rows) → In j rows × (j.id ≢ k)
  unfolding delete
  In-delete k [] i = absurd i
  In-delete k (r ∷ rows) i = ground (arith, In-delete k rows)

  pub not_any : (p : Job → Bool) (rows : Jobs) → any p rows ≡ false → In j rows → p j ≡ false
  unfolding any
  not_any p [] h i = absurd i
  not_any p (r ∷ rows) h (inl e) = ground arith
  not_any p (r ∷ rows) h (inr i) = not_any p rows (ground arith) i

  -- The earliest of a group is one of its rows that pass.
  pub earliest-In :
      (p : Job → Bool) (group : String) (rows : Jobs)
      → earliest p group rows ≡ some j
      → In j rows × (p j ≡ true) × (j.group ≡ group)
  unfolding earliest
  earliest-In p group [] e = absurd (ground arith)
  earliest-In p group (r ∷ rows) e = ground (arith, earliest-In p group rows)

  -- A postponed row keeps its id and its group, and if it is retrieved it is the row it was.
  pub In-postpone :
      (group id : String) (e : Error) (now : ℕ) (before rows : Jobs)
      → In j (postpone group id e now before rows)
      → (r : Job) × In r rows × (r.id ≡ j.id) × (r.group ≡ j.group) × (j.retrieved ≡ true → r ≡ j)
  unfolding postpone
  In-postpone group id e now before [] i = absurd i
  In-postpone group id e now before (r ∷ rows) (inl p) =
      (r, inl refl, ground (arith, p), ground (arith, p), λ h. ground (arith, p, h))
  In-postpone group id e now before (r ∷ rows) (inr i) =
      let (s, here, a, b, c) = In-postpone group id e now (before ++ (r ∷ [])) rows i in
      (s, inr here, a, b, c)

-- The ids of the rows differ: `id` is the primary key.
abbrev pub UniqueIds : Jobs → Type 0
UniqueIds rows = (j k : Job) → In j rows → In k rows → j.id ≡ k.id → j ≡ k
