-- ===== src/Scenarios/Buses.antt =====
-- The theorems on the workers and on the bus.
use seelf.Prelude.{
  ℕ, ◌≤◌, ◌+◌, String, ◌≡◌, refl, Bool, true, false, Option, none, some, List, [], ◌∷◌, Error,
  Result, ok, err, infra, ◌==◌, string_eq, lookup, arith, length, ◌*◌,
}
use seelf.Bus.Workers.{
  WorkerGroup, ScheduledJob, Config, new_scheduler, works_on, busy_in, waiting_in,
  start_group_runners, State, start, Step, poll, hand, Reach, here, next,
}
use seelf.Bus.Workers.Steps.{
  declared_size, Reach-Bounded, polled, count, count_busy, count_returned, polled-places,
}
use seelf.Bus.Workers.Ending.{steps, polls, pending_steps, steps_bounded}
use seelf.Bus.Workers.Progress.{poller_moves_on}
use seelf.Bus.Memory.{Handlers, register_all}

abbrev deploy_group : WorkerGroup
deploy_group = record { size = 0; messages = "deploy" ∷ [] }

abbrev groups : List WorkerGroup
groups = deploy_group ∷ []

abbrev first_job : ScheduledJob
first_job = record { id = "j1"; name = "deploy" }

abbrev second_job : ScheduledJob
second_job = record { id = "j2"; name = "deploy" }

abbrev program : Config
program = new_scheduler groups

-- Both jobs are with the poller.
abbrev polled_state : State
polled_state = record (start program) { waiting = first_job ∷ second_job ∷ [] }

abbrev busy_state : State
busy_state = record {
  waiting = second_job ∷ [];
  workers = works_on 0 first_job ∷ [];
  returned = [];
}

-- One job is with the only worker, the other one waits.
a_run : Reach program (start program) busy_state
unfolding new_scheduler seelf.Bus.Workers.new_groups seelf.Bus.Workers.index_messages
    start_group_runners seelf.Prelude.insert lookup seelf.Prelude.String-discrete start
a_run =
    next (next here (poll (start program) (first_job ∷ second_job ∷ []) refl))
      (hand polled_state first_job (second_job ∷ []) 0 [] [] refl refl refl)

Reach-Bounded_example :
    (busy_in 0 busy_state.workers + waiting_in 0 busy_state.workers ≡ declared_size groups 0)
    × (busy_in 0 busy_state.workers ≤ declared_size groups 0)
Reach-Bounded_example = Reach-Bounded groups a_run 0

polled-places_example :
    count "j1" (polled a_run)
    ≡ count "j1" busy_state.waiting
      + count_busy "j1" busy_state.workers
      + count_returned "j1" busy_state.returned
polled-places_example = polled-places a_run "j1"

poller_moves_on_example : (t : State) × Reach program busy_state t × (t.waiting ≡ [])
poller_moves_on_example = poller_moves_on groups busy_state second_job [] a_run refl

-- A program that keeps a log, whose messages are the names of signals.
abbrev log_as : String → String → List String → List String × Result ℕ
log_as entry msg log = (entry ∷ log, ok 0)

abbrev fails : String → List String → List String × Result ℕ
fails msg log = ("failed" ∷ log, err (infra "no"))

abbrev itself : String → String
itself msg = msg

abbrev always : String → Bool
always name = true

abbrev registrations : List (String × (String → List String → List String × Result ℕ))
registrations = ("created", log_as "first") ∷ ("deleted", fails) ∷ ("created", log_as "second") ∷ []

abbrev Program : Type 0
Program = Handlers (List String) String ℕ itself always

abbrev handlers_or_none : Option Program → Program
handlers_or_none none = []
handlers_or_none (some known) = known

abbrev registered : Program
registered =
    handlers_or_none (register_all (List String) String ℕ itself always [] [] registrations)

steps_bounded_example :
    steps a_run + pending_steps busy_state ≤ polls a_run + 2 * length (polled a_run)
steps_bounded_example = steps_bounded a_run
