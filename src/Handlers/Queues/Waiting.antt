-- ===== src/Handlers/Queues/Waiting.antt =====
-- The deletion of an application and its cleanup jobs in one table of jobs.
use seelf.Prelude.{
  ℕ, ◌≤◌, String, ◌≡◌, ◌≢◌, refl, sym, ap, ◌∙◌, Bool, true, none, [], ◌∷◌, ◌==◌, arith, inl, inr,
  string_eq, text_ne,
}
use seelf.Pkg.Action.{Time}
use seelf.Domain.Values.{Environment}
use seelf.Scheduler.{
  Jobs, Job, Queued, count, is_set, get_next_pending_jobs, wait_for_others, cancellable,
}
use seelf.Scheduler.Rows.{In, UniqueIds}
use seelf.Scheduler.Picking.{returned_ready}
use seelf.Handlers.Queues.{Command, cleanup_app, delete_app, queued}

-- The job that was queued, whatever became of its times and its id.
pub record IsJob (q : Queued) (j : Job) : Type 0 where
  pub resource : j.resource_id ≡ q.resource_id
  pub message : j.message_name ≡ q.message_name
  pub policy : j.policy ≡ q.policy

count_one : (p : Job → Bool) (rows : Jobs) (j : Job) → In j rows → p j ≡ true → 1 ≤ count p rows
unfolding count
count_one p [] j i h = absurd i
count_one p (r ∷ rows) j (inl same) h = ground (arith, h, ap p same)
count_one p (r ∷ rows) j (inr later) h = ground (arith, count_one p rows j later h)

count_two :
    (p : Job → Bool) (rows : Jobs) (j k : Job)
    → In j rows
    → In k rows
    → j ≢ k
    → p j ≡ true
    → p k ≡ true
    → 2 ≤ count p rows
unfolding count
count_two p [] j k i l ne hj hk = absurd i
count_two p (r ∷ rows) j k (inl a) (inl b) ne hj hk = absurd (ne (sym a ∙ b))
count_two p (r ∷ rows) j k (inl a) (inr b) ne hj hk =
    ground (arith, hj, ap p a, count_one p rows k b hk)
count_two p (r ∷ rows) j k (inr a) (inl b) ne hj hk =
    ground (arith, hk, ap p b, count_one p rows j a hj)
count_two p (r ∷ rows) j k (inr a) (inr b) ne hj hk =
    ground (arith, count_two p rows j k a b ne hj hk)

-- While a cleanup job of an application is in the table, a poll does not return the job that deletes it.
pub deletion_waits :
    (encode : Command → String) (rows : Jobs) (now : ℕ) (app target : String) (env : Environment)
    (from to : Time) (j k : Job)
    → UniqueIds rows
    → IsJob (queued encode (delete_app app) none wait_for_others) j
    → IsJob (queued encode (cleanup_app app env target from to) none cancellable) k
    → In j rows
    → In k rows
    → ¬ In j (get_next_pending_jobs rows now).1
unfolding queued is_set
deletion_waits encode rows now app target env from to j k unique deletes cleans here there polled =
    let (_, _, _, ready) = returned_ready rows now j j unique polled here refl in
    let p : Job → Bool = λ r. r.resource_id == j.resource_id in
    let ne : j ≢ k = λ same.
      text_ne "deployment.command.delete_app" "deployment.command.cleanup_app" refl
        (sym deletes.message ∙ (ap (λ x. x.message_name) same ∙ cleans.message)) in
    let two =
      count_two p rows j k here there ne (ground arith)
        (ground (arith, cleans.resource, deletes.resource)) in
    ground (arith, ready, two, deletes.policy)
