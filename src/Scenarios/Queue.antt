-- ===== src/Scenarios/Queue.antt =====
-- The theorems on the queue of jobs, at two jobs of one group.
use seelf.Prelude.{
  ℕ, String, ◌≡◌, ◌≢◌, refl, Bool, true, false, Option, none, some, List, [], ◌∷◌, ◌≤◌, ◌<◌, ◌+◌,
  arith, Error, infra, string_eq, ◌==◌, All, any, inl, inr, text_ne, ap, sym, ◌∙◌, ◌⊎◌,
}
use seelf.Pkg.Event.{run}
use seelf.Scheduler.{
  Job, Jobs, Queued, get_next_pending_jobs, is_eligible, is_set, wait_for_others, merge, count,
  create, waits_for, retry, retry_preserve_order, group_of,
}
use seelf.Scheduler.Rows.{In, UniqueIds}
use seelf.Scheduler.OnePerGroup.{
  Call, call, OnePerGroup, run-OnePerGroup, queues, polls, ends, restarts,
}
use seelf.Domain.Values.{production}
use seelf.Handlers.Queues.{Command}
use seelf.Handlers.Queues.Waiting.{deletion_waits}
use seelf.Scheduler.Picking.{eligible_picked, returned_ready}
use seelf.Scheduler.Merging.{carries, create_merged}
use seelf.Scheduler.Order.{retry_ordered, retry_postpones}

abbrev deploy : Queued
deploy = record {
  message_name = "deploy";
  resource_id = "a1-1";
  message_data = "1";
  group = some "deploy.app";
  policy = 1;
}

abbrev configure : Queued
configure = record {
  message_name = "configure";
  resource_id = "t1";
  message_data = "version 1";
  group = some "configure.t1";
  policy = 8;
}

abbrev day : List Call
day =
    queues "j1" 1 deploy
    ∷ queues "j2" 2 deploy
    ∷ polls 5
    ∷ queues "j3" 6 configure
    ∷ polls 7
    ∷ ends "j1" 1 (some (infra "no disk")) 8
    ∷ restarts
    ∷ polls 30
    ∷ []

run-OnePerGroup_example : OnePerGroup (run call [] day)
run-OnePerGroup_example = run-OnePerGroup day

abbrev first_job : Job
first_job = record {
  id = "j1";
  resource_id = "a1-1";
  group = "deploy.app";
  message_name = "deploy";
  message_data = "1";
  queued_at = 1;
  not_before = 1;
  errcode = none;
  policy = 1;
  retrieved = false;
}

abbrev second_job : Job
second_job = record first_job { id = "j2"; queued_at = 2; not_before = 2 }

abbrev two_jobs : Jobs
two_jobs = first_job ∷ second_job ∷ []

eligible_picked_example :
    (k : Job) × In k (get_next_pending_jobs two_jobs 5).1
    × (k.group ≡ "deploy.app")
    × (k.not_before ≤ 2)
unfolding is_eligible any is_set seelf.Prelude.ℕ_discrete
eligible_picked_example = eligible_picked two_jobs 5 second_job (inr (inl refl)) refl

two_jobs-UniqueIds : UniqueIds two_jobs
two_jobs-UniqueIds j k (inl p) (inl q) e = sym p ∙ q
two_jobs-UniqueIds j k (inl p) (inr (inl q)) e =
    absurd (text_ne "j1" "j2" refl (ap (λ x. x.id) p ∙ (e ∙ sym (ap (λ x. x.id) q))))
two_jobs-UniqueIds j k (inl p) (inr (inr q)) e = absurd q
two_jobs-UniqueIds j k (inr (inl p)) (inl q) e =
    absurd (text_ne "j2" "j1" refl (ap (λ x. x.id) p ∙ (e ∙ sym (ap (λ x. x.id) q))))
two_jobs-UniqueIds j k (inr (inl p)) (inr (inl q)) e = sym p ∙ q
two_jobs-UniqueIds j k (inr (inl p)) (inr (inr q)) e = absurd q
two_jobs-UniqueIds j k (inr (inr p)) q e = absurd p

returned_ready_example :
    (first_job.retrieved ≡ false)
    × (first_job.not_before ≤ 5)
    × (second_job.retrieved ≡ false)
    × (true ≡ true)
unfolding get_next_pending_jobs seelf.Scheduler.is_next seelf.Scheduler.earliest is_eligible any
    is_set seelf.Prelude.ℕ_discrete seelf.Prelude.String-discrete
returned_ready_example =
    returned_ready two_jobs 5 first_job second_job two_jobs-UniqueIds (inl refl) (inr (inl refl))
      refl

abbrev waiting_job : Job
waiting_job = record first_job {
  id = "j3";
  resource_id = "t1";
  group = "configure.t1";
  message_name = "configure";
  message_data = "version 0";
  policy = 8;
}

create_merged_example :
    (count (waits_for "t1" "configure") (create (waiting_job ∷ []) "j4" 9 configure) ≡ 1)
    × (any (carries "t1" "configure" "version 1") (create (waiting_job ∷ []) "j4" 9 configure)
        ≡ true)
unfolding is_set seelf.Prelude.ℕ_discrete count seelf.Prelude.String-discrete
create_merged_example =
    create_merged (waiting_job ∷ []) "j4" 9 configure (text_ne "j3" "" refl, tt) refl (omega arith)

abbrev first_retried : Job
first_retried = record first_job { errcode = some "no disk"; not_before = 115 }

abbrev second_retried : Job
second_retried = record second_job { not_before = 116 }

retry_ordered_example : (100 + 15 ≤ 115) × (100 + 15 ≤ 116) × ((2 ≤ 1) ⊎ (115 < 116))
unfolding is_set seelf.Prelude.ℕ_discrete group_of seelf.Prelude.String-discrete retry count
    seelf.Prelude.message
retry_ordered_example =
    retry_ordered two_jobs "j1" "deploy.app" 1 (infra "no disk") 100 first_job second_job
      first_retried second_retried two_jobs-UniqueIds refl refl (inl refl, inr (inl refl))
      (inl refl, refl, refl) (inr (inl refl), refl, refl)

-- Two jobs of one group that need not keep their order.
abbrev free_jobs : Jobs
free_jobs = record first_job { policy = 0 } ∷ record second_job { policy = 0 } ∷ []

retry_postpones_example : 100 + 15 ≤ 115
unfolding group_of seelf.Prelude.String-discrete retry seelf.Prelude.ℕ_discrete
    seelf.Pkg.Table.update count
retry_postpones_example =
    retry_postpones free_jobs "j1" "deploy.app" 0 (infra "no disk") 100
      (record second_job { policy = 0; not_before = 115 }) refl (inr (inl refl)) refl

abbrev plain : Command → String
plain command = ""

abbrev deletion_job : Job
deletion_job = record first_job {
  id = "j1";
  resource_id = "a1";
  group = "j1";
  message_name = "deployment.command.delete_app";
  message_data = "";
  policy = 2;
}

abbrev cleanup_job : Job
cleanup_job = record first_job {
  id = "j2";
  resource_id = "a1";
  group = "j2";
  message_name = "deployment.command.cleanup_app";
  message_data = "";
  policy = 4;
}

abbrev both_jobs : Jobs
both_jobs = deletion_job ∷ cleanup_job ∷ []

both_jobs-UniqueIds : UniqueIds both_jobs
both_jobs-UniqueIds j k (inl p) (inl q) e = sym p ∙ q
both_jobs-UniqueIds j k (inl p) (inr (inl q)) e =
    absurd (text_ne "j1" "j2" refl (ap (λ x. x.id) p ∙ (e ∙ sym (ap (λ x. x.id) q))))
both_jobs-UniqueIds j k (inl p) (inr (inr q)) e = absurd q
both_jobs-UniqueIds j k (inr (inl p)) (inl q) e =
    absurd (text_ne "j2" "j1" refl (ap (λ x. x.id) p ∙ (e ∙ sym (ap (λ x. x.id) q))))
both_jobs-UniqueIds j k (inr (inl p)) (inr (inl q)) e = sym p ∙ q
both_jobs-UniqueIds j k (inr (inl p)) (inr (inr q)) e = absurd q
both_jobs-UniqueIds j k (inr (inr p)) q e = absurd p

deletion_waits_example : ¬ In deletion_job (get_next_pending_jobs both_jobs 5).1
unfolding seelf.Handlers.Queues.queued
deletion_waits_example =
    deletion_waits plain both_jobs 5 "a1" "t1" production 1 4 deletion_job cleanup_job
      both_jobs-UniqueIds (record { resource = refl; message = refl; policy = refl })
      (record { resource = refl; message = refl; policy = refl }) (inl refl) (inr (inl refl))
