-- ===== src/Scheduler/OnePerGroup.antt =====
-- The groups of jobs: the calls that the scheduler and its users make on the table, in any order.
use seelf.Prelude.{
  ℕ, String, ◌≡◌, refl, true, Option, none, some, List, [], ◌∷◌, arith, inl, inr, ◌⊎◌, Error,
  Result-cases, ok, err, not, ◌==◌, string_eq, Option-cases, Bool-cases, ◌&&◌, ◌!=◌, sym, ◌∙◌, ap,
}
use seelf.Pkg.Table.{update}
use seelf.Pkg.Event.{run, run-Inv}
use seelf.Scheduler.{
  Job, Jobs, Queued, is_set, merge, retry_preserve_order, job_id, setup, create, cancel,
  get_next_pending_jobs, handle_job_return, retry, done, is_next, is_eligible, earliest, retry_one,
  group_of, postpone, new_job, existing_job, is_cancelled,
}
use seelf.Scheduler.Rows.{
  In, In-append, In-update_where, In-select, In-update, In-delete, not_any, earliest-In,
  In-postpone,
}

-- The calls on the table.
pub data Call : Type 0 where
  restarts : Call
  queues : String → ℕ → Queued → Call
  polls : ℕ → Call
  ends : String → ℕ → Option Error → ℕ → Call
  cancels : String → Call

unfoldable pub call : Jobs → Call → Jobs
call rows restarts = setup rows
call rows (queues id now q) = create rows id now q
call rows (polls now) = (get_next_pending_jobs rows now).0
call rows (ends id policy e now) = handle_job_return rows id policy e now
call rows (cancels id) = elim (cancel rows id) [ ok rows' ↦ rows' | err e ↦ rows ]

-- Two jobs of a group that are both being processed are one job.
abbrev pub OnePerGroup : Jobs → Type 0
OnePerGroup rows =
    (j k : Job)
    → In j rows
    → In k rows
    → j.retrieved ≡ true
    → k.retrieved ≡ true
    → j.group ≡ k.group
    → j.id ≡ k.id

-- A statement after which every processed job was processed before, in the same group and under the
-- same id, keeps the groups apart.
abbrev StartsNone : Jobs → Jobs → Type 0
StartsNone rows rows' =
    (j : Job)
    → In j rows'
    → j.retrieved ≡ true
    → (r : Job) × In r rows × (r.retrieved ≡ true) × (r.id ≡ j.id) × (r.group ≡ j.group)

starts_none : (rows rows' : Jobs) → StartsNone rows rows' → OnePerGroup rows → OnePerGroup rows'
starts_none rows rows' old one j k i i' h h' g =
    let (r, a, b, c, d) = old j i h in
    let (r', a', b', c', d') = old k i' h' in
    let q = one r r' a a' b b' (d ∙ g ∙ sym d') in sym c ∙ q ∙ c'

setup-StartsNone : (rows : Jobs) → StartsNone rows (setup rows)
unfolding setup
setup-StartsNone rows j i h =
    let (r, here, e) = In-update_where j _ _ rows i in
    (r, here, ground (arith, e, h), ground (arith, e, h), ground (arith, e, h))

create-StartsNone :
    (rows : Jobs) (id : String) (now : ℕ) (q : Queued) → StartsNone rows (create rows id now q)
unfolding create
create-StartsNone rows id now q j i h =
    elim (Bool-cases
      (is_set q.policy merge && existing_job q.resource_id q.message_name rows != "")) [
        | inl merged ↦
            let (r, here, e) =
              In-update j (existing_job q.resource_id q.message_name rows)
                (λ r. record r { message_data = q.message_data }) rows
                (ground (arith, i, merged)) in
            (r, here, ground (arith, e, h), ground (arith, e), ground (arith, e))
        | inr new ↦ elim (In-append j rows (new_job id now q ∷ []) (ground (arith, i, new))) [
          | inl here ↦ (j, here, h, refl, refl)
          | inr here ↦ absurd (ground (arith, here, h))
        ]
      ]

cancel-StartsNone :
    (rows rows' : Jobs) (id : String) → cancel rows id ≡ ok rows' → StartsNone rows rows'
unfolding cancel
cancel-StartsNone rows rows' id e j i h =
    (j, (In-select j (λ r. not (is_cancelled id r)) rows (ground (arith, e, i))).0, h, refl, refl)

done-StartsNone : (rows : Jobs) (id : String) → StartsNone rows (done rows id)
unfolding done
done-StartsNone rows id j i h = (j, (In-delete j id rows i).0, h, refl, refl)

postpone-StartsNone :
    (rows : Jobs) (id : String) (e : Error) (now : ℕ) (j : Job)
    → In j (elim (group_of id rows) [ none ↦ rows | some group ↦ postpone group id e now [] rows ])
    → j.retrieved ≡ true
    → (r : Job) × In r rows × (r.retrieved ≡ true) × (r.id ≡ j.id) × (r.group ≡ j.group)
postpone-StartsNone rows id e now j i h = elim (Option-cases (group_of id rows)) [
  | inl unknown ↦ (j, ground (arith, i, unknown), h, refl, refl)
  | inr (group, known) ↦
      let (r, here, same, group', kept) =
        In-postpone j group id e now [] rows (ground (arith, i, known)) in
      (r, here, ground (arith, kept h, h), same, group')
]

retry-StartsNone :
    (rows : Jobs) (id : String) (policy : ℕ) (e : Error) (now : ℕ)
    → StartsNone rows (retry rows id policy e now)
unfolding retry
retry-StartsNone rows id policy e now j i h =
    elim (Bool-cases (is_set policy retry_preserve_order)) [
      | inl ordered ↦ postpone-StartsNone rows id e now j (ground (arith, ordered, i)) h
      | inr alone ↦
          let rows' = update job_id id (retry_one id e now) rows in
          let (s, here, busy, same, group) =
            postpone-StartsNone rows' id e now j (ground (arith, alone, i)) h in
          let (r, before, p) = In-update s id (retry_one id e now) rows here in
          (
            r,
            before,
            ground (arith, p, busy),
            ground (arith, p, same, busy),
            ground (arith, p, group, busy),
          )
    ]

-- A picked job is the earliest of its group, which passed the condition.
pub picked :
    (rows : Jobs) (now : ℕ) (j : Job)
    → is_next rows now j ≡ true
    → (m : Job) × (earliest (is_eligible rows now) j.group rows ≡ some m) × (m.id ≡ j.id)
unfolding is_next
picked rows now j h = elim (Option-cases (earliest (is_eligible rows now) j.group rows)) [
  | inl none_left ↦ absurd (ground arith)
  | inr (m, found) ↦ (m, found, ground (arith, found, h))
]

-- In the group of a picked job, no job is being processed.
pub picked_idle :
    (rows : Jobs) (now : ℕ) (j r : Job)
    → is_next rows now j ≡ true
    → In r rows
    → r.retrieved ≡ true
    → r.group ≡ j.group
    → ⊥
unfolding is_eligible
picked_idle rows now j r n i h g =
    let (m, found, same) = picked rows now j n in
    let (here, passed, group) = earliest-In m (is_eligible rows now) j.group rows found in
    let quiet =
      not_any r (λ k. k.retrieved && k.group == m.group) rows (ground (arith, passed)) i in
    ground (arith, quiet, h, g, group)

both_picked :
    (rows : Jobs) (now : ℕ) (r s : Job)
    → is_next rows now r ≡ true
    → is_next rows now s ≡ true
    → r.group ≡ s.group
    → r.id ≡ s.id
both_picked rows now r s n n' g =
    let (m, found, same) = picked rows now r n in
    let (m', found', same') = picked rows now s n' in
    let one : some m ≡ some m' =
      sym found ∙ (ap (λ x. earliest (is_eligible rows now) x rows) g ∙ found') in
    ground (arith, one, same, same')

-- After a poll, a processed job was picked or was processed before.
after_poll :
    (rows : Jobs) (now : ℕ) (j : Job)
    → In j (get_next_pending_jobs rows now).0
    → j.retrieved ≡ true
    → (r : Job) × In r rows
      × (r.id ≡ j.id)
      × (r.group ≡ j.group)
      × ((is_next rows now r ≡ true) ⊎ (r.retrieved ≡ true))
unfolding get_next_pending_jobs
after_poll rows now j i h =
    let (r, here, e) =
      In-update_where j (is_next rows now) (λ k. record k { retrieved = true }) rows i in
    elim (Bool-cases (is_next rows now r)) [
      | inl n ↦ (r, here, ground (arith, e, n), ground (arith, e, n), inl n)
      | inr n ↦ (r, here, ground (arith, e, n), ground (arith, e, n), inr (ground (arith, e, n, h)))
    ]

poll-OnePerGroup :
    (rows : Jobs) (now : ℕ) → OnePerGroup rows → OnePerGroup (get_next_pending_jobs rows now).0
poll-OnePerGroup rows now one j k i i' h h' g =
    let (r, a, same, group, now_or_before) = after_poll rows now j i h in
    let (s, b, same', group', now_or_before') = after_poll rows now k i' h' in
    let g' = group ∙ (g ∙ sym group') in
    let kept : r.id ≡ s.id = elim now_or_before [
      | inl n ↦ elim now_or_before' [
        | inl n' ↦ both_picked rows now r s n n' g'
        | inr busy' ↦ absurd (picked_idle rows now r s n b busy' (sym g'))
      ]
      | inr busy ↦ elim now_or_before' [
        | inl n' ↦ absurd (picked_idle rows now s r n' a busy g')
        | inr busy' ↦ one r s a b busy busy' g'
      ]
    ] in
    sym same ∙ (kept ∙ same')

pub call-OnePerGroup : (rows : Jobs) (c : Call) → OnePerGroup rows → OnePerGroup (call rows c)
unfolding call handle_job_return
call-OnePerGroup rows restarts one = starts_none rows _ (setup-StartsNone rows) one
call-OnePerGroup rows (queues id now q) one =
    starts_none rows _ (create-StartsNone rows id now q) one
call-OnePerGroup rows (polls now) one = poll-OnePerGroup rows now one
call-OnePerGroup rows (ends id policy none now) one =
    starts_none rows _ (done-StartsNone rows id) one
call-OnePerGroup rows (ends id policy (some e) now) one =
    starts_none rows _ (retry-StartsNone rows id policy e now) one
call-OnePerGroup rows (cancels id) one = elim (Result-cases (cancel rows id)) [
  | inl (rows', e) ↦
      ground (arith, e, starts_none rows rows' (cancel-StartsNone rows rows' id e) one)
  | inr (x, e) ↦ ground (arith, e, one)
]

-- From an empty table, whatever is queued, polled, ended, cancelled and restarted, and in any order,
-- two jobs of a group are never being processed at once.
pub run-OnePerGroup : (cs : List Call) → OnePerGroup (run call [] cs)
run-OnePerGroup cs = run-Inv call OnePerGroup call-OnePerGroup [] cs (λ j k i i' h h' g. absurd i)
