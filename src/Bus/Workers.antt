-- ===== src/Bus/Workers.antt =====
-- The goroutines of pkg/bus/scheduler.go as steps in any order: the poller hands the jobs of one poll over,
-- one after the other, and the workers that were started for the groups take them and end them. A channel
-- has no buffer, so that a job leaves the poller only when a worker of the group receives it.
pub mod Starting
pub mod Steps
pub mod Progress
pub mod Ending
use seelf.Prelude.{
  ℕ, zero, suc, ◌+◌, ◌≡◌, String, Bool, true, false, Option, none, some, List, [], ◌∷◌, ◌++◌,
  if◌then◌else◌, ltb, ◌==◌, ℕ_eq, Map, lookup, insert, Error, no_handler_registered, is_some, not,
  ◌&&◌,
}

pub record WorkerGroup : Type 0 where
  pub size : ℕ
  pub messages : List String

-- A job as the scheduler sees it: its id and the name of its message.
pub record ScheduledJob : Type 0 where
  pub id : String
  pub name : String

-- for _, msg := range g.Messages { index[msg] = i }
unfoldable pub index_messages : Map ℕ → ℕ → List String → Map ℕ
index_messages index i [] = index
index_messages index i (msg ∷ rest) = index_messages (insert msg i index) i rest

-- "Should always have at least one worker"
abbrev pub group_size : WorkerGroup → ℕ
group_size g = if ltb g.size 1 then 1 else g.size

-- The scheduler's own data: the sizes of the groups, and the group of each message.
pub record Config : Type 0 where
  pub groups : List ℕ
  pub message_name_to_worker_idx : Map ℕ

unfoldable pub new_groups : Config → ℕ → List WorkerGroup → Config
unfolding index_messages
new_groups c i [] = c
new_groups c i (g ∷ rest) =
    new_groups
      (record {
        groups = c.groups ++ (group_size g ∷ []);
        message_name_to_worker_idx = index_messages c.message_name_to_worker_idx i g.messages;
      })
      (i + 1) rest

-- `NewScheduler`
unfoldable pub new_scheduler : List WorkerGroup → Config
unfolding new_groups
new_scheduler groups = new_groups (record { groups = []; message_name_to_worker_idx = [] }) 0 groups

-- The size of a group; an index that is out of range panics in the source, and has no worker here.
unfoldable pub size_of : List ℕ → ℕ → ℕ
size_of [] i = 0
size_of (n ∷ rest) zero = n
size_of (n ∷ rest) (suc i) = size_of rest i

-- The goroutine of a worker, by the group whose channel it reads: `none` while it waits for a job, or the
-- job that it took.
pub record Worker : Type 0 where
  pub group : ℕ
  pub job : Option ScheduledJob

abbrev pub waits : ℕ → Worker
waits i = record { group = i; job = none }

abbrev pub works_on : ℕ → ScheduledJob → Worker
works_on i job = record { group = i; job = some job }

-- for i := 0; i < group.size; i++ { s.run(...) }
unfoldable pub run_group : ℕ → ℕ → List Worker
run_group i zero = []
run_group i (suc n) = waits i ∷ run_group i n

unfoldable pub run_groups : ℕ → List ℕ → List Worker
unfolding run_group
run_groups i [] = []
run_groups i (size ∷ rest) = run_group i size ++ run_groups (i + 1) rest

unfoldable pub start_group_runners : Config → List Worker
unfolding run_groups
start_group_runners c = run_groups 0 c.groups

unfoldable pub count_workers : (Worker → Bool) → List Worker → ℕ
count_workers p [] = 0
count_workers p (w ∷ rest) = let others = count_workers p rest in if p w then others + 1 else others

-- The workers of a group that work on a job, and those that wait for one.
abbrev pub busy_in : ℕ → List Worker → ℕ
busy_in i = count_workers (λ w. w.group == i && is_some w.job)

abbrev pub waiting_in : ℕ → List Worker → ℕ
waiting_in i = count_workers (λ w. w.group == i && not (is_some w.job))

-- What the jobs of a poll have become. `returned` has those whose end was told to the store, with the
-- error that `handleJobReturn` was given.
pub record State : Type 0 where
  pub waiting : List ScheduledJob
  pub workers : List Worker
  pub returned : List (ScheduledJob × Option Error)

-- `Start`
unfoldable pub start : Config → State
unfolding start_group_runners
start c = record { waiting = []; workers = start_group_runners c; returned = [] }

-- One step of one of the goroutines.
pub data Step (c : Config) : State → State → Type 0 where
  -- `GetNextPendingJobs`, once the jobs of the last poll are all handed over.
  poll :
      (s : State) (jobs : List ScheduledJob)
      → s.waiting ≡ []
      → Step c s (record s { waiting = jobs })
  -- No group handles the message.
  reject :
      (s : State) (job : ScheduledJob) (rest : List ScheduledJob)
      → s.waiting ≡ job ∷ rest
      → lookup job.name c.message_name_to_worker_idx ≡ none
      → Step c s (record s {
        waiting = rest;
        returned = s.returned ++ ((job, some no_handler_registered) ∷ []);
      })
  -- `s.groups[idx].jobs <- job`, which a worker that reads the channel receives.
  hand :
      (s : State) (job : ScheduledJob) (rest : List ScheduledJob) (idx : ℕ)
      (front back : List Worker)
      → s.waiting ≡ job ∷ rest
      → lookup job.name c.message_name_to_worker_idx ≡ some idx
      → s.workers ≡ front ++ (waits idx ∷ back)
      → Step c s (record s { waiting = rest; workers = front ++ (works_on idx job ∷ back) })
  -- A worker's `Send` returns, `handleJobReturn` follows, and the worker reads its channel again.
  end :
      (s : State) (front back : List Worker) (i : ℕ) (job : ScheduledJob) (result : Option Error)
      → s.workers ≡ front ++ (works_on i job ∷ back)
      → Step c s (record s {
        workers = front ++ (waits i ∷ back);
        returned = s.returned ++ ((job, result) ∷ []);
      })

pub data Reach (c : Config) (s : State) : State → Type 0 where
  here : Reach c s s
  next : {t u : State} → Reach c s t → Step c t u → Reach c s u
