-- ===== src/Scheduler/Picking.antt =====
-- The jobs that `GetNextPendingJobs` returns, and those that it does not forget.
use seelf.Prelude.{
  ◌||◌, not, leb, ℕ, ◌≡◌, refl, Bool, true, false, Option, none, some, [], ◌∷◌, arith, inl, inr,
  ◌≤◌, subst, ◌==◌, string_eq, ◌&&◌,
}
use seelf.Scheduler.{
  Job, Jobs, get_next_pending_jobs, is_next, is_eligible, earliest, count, is_set, wait_for_others,
}
use seelf.Scheduler.Rows.{UniqueIds, In, In-select, select-In, not_any, earliest-In}
use seelf.Scheduler.OnePerGroup.{picked}

-- The earliest of a group is no later than any row of the group that passes.
abbrev IsLeast : Option Job → ℕ → Type 0
IsLeast none t = ⊥
IsLeast (some m) t = m.not_before ≤ t

earliest-IsLeast :
    (p : Job → Bool) (j : Job) (rows : Jobs)
    → In j rows
    → p j ≡ true
    → IsLeast (earliest p j.group rows) j.not_before
unfolding earliest
earliest-IsLeast p j [] i h = absurd i
earliest-IsLeast p j (r ∷ rows) (inl e) h = ground (arith, e, h)
earliest-IsLeast p j (r ∷ rows) (inr i) h = ground (arith, earliest-IsLeast p j rows i h)

least_found : (o : Option Job) (t : ℕ) → IsLeast o t → (m : Job) × (o ≡ some m) × (m.not_before ≤ t)
least_found none t l = absurd l
least_found (some m) t l = (m, refl, l)

-- Some job of the group of a job that is ready is returned, and none that is due later.
pub eligible_picked :
    (rows : Jobs) (now : ℕ) (j : Job)
    → In j rows
    → is_eligible rows now j ≡ true
    → (k : Job) × In k (get_next_pending_jobs rows now).1
      × (k.group ≡ j.group)
      × (k.not_before ≤ j.not_before)
unfolding get_next_pending_jobs is_next
eligible_picked rows now j i h =
    let (m, found, least) = least_found _ _ (earliest-IsLeast (is_eligible rows now) j rows i h) in
    let (here, passed, group) = earliest-In m (is_eligible rows now) j.group rows found in
    (m, select-In m (is_next rows now) rows here (ground (arith, found, group)), group, least)

-- A job that is returned was not being processed and is due, no job of its group is being processed,
-- and if it waits for the others of its resource there is none left.
pub returned_ready :
    (rows : Jobs) (now : ℕ) (j r : Job)
    → UniqueIds rows
    → In j (get_next_pending_jobs rows now).1
    → In r rows
    → r.group ≡ j.group
    → (j.retrieved ≡ false)
      × (j.not_before ≤ now)
      × (r.retrieved ≡ false)
      × ((not (is_set j.policy wait_for_others)
            || leb (count (λ k. k.resource_id == j.resource_id) rows) 1)
          ≡ true)
unfolding get_next_pending_jobs is_eligible
returned_ready rows now j r unique i k g =
    let (here, n) = In-select j (is_next rows now) rows i in
    let (m, found, same) = picked rows now j n in
    let (there, passed, group) = earliest-In m (is_eligible rows now) j.group rows found in
    let e = unique m j there here same in
    let ready : is_eligible rows now j ≡ true =
      subst (λ x. is_eligible rows now x ≡ true) e passed in
    (
      ground (arith, ready),
      ground (arith, ready),
      ground (
        arith,
        not_any r (λ x. x.retrieved && x.group == j.group) rows (ground (arith, ready)) k,
        g,
      ),
      ground (arith, ready),
    )
