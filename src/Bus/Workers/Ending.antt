-- ===== src/Bus/Workers/Ending.antt =====
-- How many steps the goroutines make.
use seelf.Prelude.{length, ℕ, ◌+◌, ◌*◌, ◌≤◌, ◌≡◌, ap, List, [], ◌∷◌, ◌++◌, arith, refl, is_some}
use seelf.Bus.Workers.{
  Config, State, start, waits, works_on, count_workers, poll, reject, hand, end, Reach, here, next,
}
use seelf.Bus.Workers.Steps.{polled}
use seelf.Bus.Workers.Starting.{count_workers-swap, run_groups-count}

length-append : {A : Type 0} (xs ys : List A) → length (xs ++ ys) ≡ length xs + length ys
length-append [] ys = omega arith
length-append (x ∷ xs) ys = omega (arith, length-append xs ys)

-- The steps of a run, and those that are polls.
pub steps : {c : Config} {s t : State} → Reach c s t → ℕ
steps here = 0
steps (next r st) = steps r + 1

pub polls : {c : Config} {s t : State} → Reach c s t → ℕ
polls here = 0
polls (next r (poll s jobs h)) = polls r + 1
polls (next r (reject s job rest h unknown)) = polls r
polls (next r (hand s job rest idx front back h known free)) = polls r
polls (next r (end s front back idx job result h)) = polls r

-- What is still to be done: a job that waits has two steps before it.
pub pending_steps : State → ℕ
pending_steps s = 2 * length s.waiting + count_workers (λ w. is_some w.job) s.workers

-- A run from the start of the scheduler makes at most one step for each poll and two for each job that it gave:
-- the steps that have been made and those that are still to be made for the jobs at hand are no more than
-- that. So between two polls the goroutines come to rest.
pub steps_bounded :
    {c : Config} {s : State} (r : Reach c (start c) s)
    → steps r + pending_steps s ≤ polls r + 2 * length (polled r)
unfolding steps polls polled pending_steps start count_workers
steps_bounded {c} here = omega (arith, run_groups-count (λ w. is_some w.job) (λ j. refl) 0 c.groups)
steps_bounded (next r (poll s jobs h)) =
    omega (arith, steps_bounded r, ap length h, length-append jobs (polled r))
steps_bounded (next r (reject s job rest h unknown)) = omega (arith, steps_bounded r, ap length h)
steps_bounded (next r (hand s job rest idx front back h known free)) = omega (
  arith,
  steps_bounded r,
  ap length h,
  count_workers-swap (λ w. is_some w.job) s.workers front back (waits idx) (works_on idx job) free,
)
steps_bounded (next r (end s front back idx job result h)) = omega (
  arith,
  steps_bounded r,
  count_workers-swap (λ w. is_some w.job) s.workers front back (works_on idx job) (waits idx) h,
)
