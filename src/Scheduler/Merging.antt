-- ===== src/Scheduler/Merging.antt =====
-- Queuing with the policy that merges.
use seelf.Prelude.{
  ℕ, String, ◌≡◌, ◌≢◌, refl, Bool, true, [], ◌∷◌, ◌++◌, arith, ◌≤◌, ◌+◌, All, any, ◌==◌, string_eq,
  ◌&&◌, Bool-cases, inl, inr,
}
use seelf.Pkg.Table.{update}
use seelf.Scheduler.{
  Job, Jobs, Queued, job_id, create, existing_job, waits_for, is_set, merge, count, new_job,
}

abbrev pub HasId : Job → Type 0
HasId j = j.id ≢ ""

module _ (resource name : String) where
  count-message_data :
      (id payload : String) (rows : Jobs)
      → count
          (waits_for resource name)
          (update job_id id (λ j. record j { message_data = payload }) rows)
        ≡ count (waits_for resource name) rows
  unfolding count update
  count-message_data id payload [] = refl
  count-message_data id payload (j ∷ rows) = ground (arith, count-message_data id payload rows)

  count-append :
      (rows : Jobs) (j : Job)
      → count (waits_for resource name) (rows ++ (j ∷ []))
        ≡ count (waits_for resource name) rows + count (waits_for resource name) (j ∷ [])
  unfolding count
  count-append [] j = omega arith
  count-append (r ∷ rows) j = ground (arith, count-append rows j)

  none_waits :
      (rows : Jobs)
      → All HasId rows
      → existing_job resource name rows ≡ ""
      → count (waits_for resource name) rows ≡ 0
  unfolding count existing_job
  none_waits [] a e = refl
  none_waits (j ∷ rows) (d, a) e = ground (arith, d, none_waits rows a)

  some_waits :
      (rows : Jobs)
      → existing_job resource name rows ≢ ""
      → 1 ≤ count (waits_for resource name) rows
  unfolding count existing_job
  some_waits [] d = absurd (d refl)
  some_waits (j ∷ rows) d = ground (arith, d, some_waits rows)

abbrev pub carries : String → String → String → Job → Bool
carries resource name payload j = waits_for resource name j && j.message_data == payload

carried-update :
    (resource name payload id : String) (rows : Jobs)
    → existing_job resource name rows ≡ id
    → id ≢ ""
    → any
        (carries resource name payload)
        (update job_id id (λ j. record j { message_data = payload }) rows)
      ≡ true
unfolding any update existing_job
carried-update resource name payload id [] e d = absurd (d (ground (arith, e)))
carried-update resource name payload id (j ∷ rows) e d =
    ground (arith, e, d, carried-update resource name payload id rows)

carried-append :
    (resource name payload : String) (rows : Jobs) (j : Job)
    → carries resource name payload j ≡ true
    → any (carries resource name payload) (rows ++ (j ∷ [])) ≡ true
unfolding any
carried-append resource name payload [] j h = ground (arith, h)
carried-append resource name payload (r ∷ rows) j h =
    ground (arith, carried-append resource name payload rows j h)

-- If at most one job with the message waits for the resource, after queuing with the merge policy
-- exactly one does, and it carries the new message.
pub create_merged :
    (rows : Jobs) (id : String) (now : ℕ) (q : Queued)
    → All HasId rows
    → is_set q.policy merge ≡ true
    → count (waits_for q.resource_id q.message_name) rows ≤ 1
    → (count (waits_for q.resource_id q.message_name) (create rows id now q) ≡ 1)
      × (any (carries q.resource_id q.message_name q.message_data) (create rows id now q) ≡ true)
unfolding create count
create_merged rows id now q a m one =
    let existing = existing_job q.resource_id q.message_name rows in
    elim (Bool-cases (existing == "")) [
      | inl e ↦ (
        ground (
          arith,
          e,
          m,
          count-append q.resource_id q.message_name rows (new_job id now q),
          none_waits q.resource_id q.message_name rows a,
        ),
        ground (
          arith,
          e,
          m,
          carried-append q.resource_id q.message_name q.message_data rows (new_job id now q),
        ),
      )
      | inr d ↦ (
        ground (
          arith,
          d,
          m,
          count-message_data q.resource_id q.message_name existing q.message_data rows,
          some_waits q.resource_id q.message_name rows,
        ),
        ground (
          arith,
          d,
          m,
          carried-update q.resource_id q.message_name q.message_data existing rows refl,
        ),
      )
    ]
