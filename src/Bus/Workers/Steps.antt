-- ===== src/Bus/Workers/Steps.antt =====
-- What holds of the worker groups after any steps.
use mathlib.Core.List.{map, append-nil, append_assoc}
use seelf.Prelude.{
  ℕ, ◌+◌, ◌≤◌, ◌≡◌, ap, ◌∙◌, String, Option, some, List, [], ◌∷◌, ◌++◌, arith, if◌then◌else◌, ◌==◌,
  ℕ_eq, string_eq, Error, no_handler_registered, zero, suc, refl, sym, subst, Bool, false, none,
  is_some, not, ◌&&◌,
}
use seelf.Bus.Workers.{
  WorkerGroup, group_size, index_messages, new_groups, new_scheduler, Config, ScheduledJob, Worker,
  waits, works_on, State, start, Step, poll, reject, hand, end, Reach, here, next, size_of, busy_in,
  waiting_in, count_workers,
}
use seelf.Bus.Workers.Starting.{count_workers-swap, run_groups-count, run_groups-waiting}

-- Every group has as many workers as its size, and works on no more jobs than that.
abbrev pub Bounded : Config → State → Type 0
Bounded c s =
    (i : ℕ)
    → (busy_in i s.workers + waiting_in i s.workers ≡ size_of c.groups i)
      × (busy_in i s.workers ≤ size_of c.groups i)

moved :
    (i : ℕ) (all front back : List Worker) (v w : Worker)
    → v.group ≡ w.group
    → all ≡ front ++ (v ∷ back)
    → {n : ℕ} → busy_in i all + waiting_in i all ≡ n
    → (busy_in i (front ++ (w ∷ back)) + waiting_in i (front ++ (w ∷ back)) ≡ n)
      × (busy_in i (front ++ (w ∷ back)) ≤ n)
unfolding count_workers
moved i all front back v w same e v0 =
    let b = count_workers-swap (λ w. w.group == i && is_some w.job) all front back v w e in
    let f = count_workers-swap (λ w. w.group == i && not (is_some w.job)) all front back v w e in
    ground (arith, same, v0, b, f)

Step-Bounded : {c : Config} {s t : State} → Step c s t → Bounded c s → Bounded c t
Step-Bounded (poll s jobs h) v = v
Step-Bounded (reject s job rest h unknown) v = v
Step-Bounded (hand s job rest idx front back h known free) v =
    λ i. moved i s.workers front back (waits idx) (works_on idx job) refl free (v i).0
Step-Bounded (end s front back idx job result h) v =
    λ i. moved i s.workers front back (works_on idx job) (waits idx) refl h (v i).0

pub started-Bounded : {c : Config} {s : State} → Reach c (start c) s → Bounded c s
unfolding count_workers size_of start
started-Bounded {c} here = λ i.
    let none_busy =
      run_groups-count (λ w. w.group == i && is_some w.job) (λ j. ground arith) 0 c.groups in
    let all_wait = run_groups-waiting i 0 i c.groups (omega arith) in
    (omega (arith, none_busy, all_wait), omega (arith, none_busy))
started-Bounded (next r st) = Step-Bounded st (started-Bounded r)

new_groups-sizes :
    (c : Config) (k : ℕ) (groups : List WorkerGroup)
    → (new_groups c k groups).groups ≡ c.groups ++ map group_size groups
unfolding new_groups
new_groups-sizes c k [] = sym (append-nil c.groups)
new_groups-sizes c k (g ∷ rest) =
    new_groups-sizes
      (record {
        groups = c.groups ++ (group_size g ∷ []);
        message_name_to_worker_idx = index_messages c.message_name_to_worker_idx k g.messages;
      })
      (k + 1) rest
    ∙ append_assoc c.groups (group_size g ∷ []) (map group_size rest)

-- The size that a group was declared with, but at least one.
pub declared_size : List WorkerGroup → ℕ → ℕ
declared_size [] i = 0
declared_size (g ∷ rest) zero = if g.size == 0 then 1 else g.size
declared_size (g ∷ rest) (suc i) = declared_size rest i

size_of-declared :
    (groups : List WorkerGroup) (i : ℕ) → size_of (map group_size groups) i ≡ declared_size groups i
unfolding size_of declared_size
size_of-declared [] i = refl
size_of-declared (g ∷ rest) zero = ground arith
size_of-declared (g ∷ rest) (suc i) = size_of-declared rest i

-- The goroutines of the workers are started once, and however they and the poller interleave, every group
-- has as many workers, busy or waiting for a job, as the size that it was declared with, and one where
-- that is zero: it never works on more jobs at once than that.
pub Reach-Bounded :
    (groups : List WorkerGroup) {s : State}
    → Reach (new_scheduler groups) (start (new_scheduler groups)) s
    → (i : ℕ)
    → (busy_in i s.workers + waiting_in i s.workers ≡ declared_size groups i)
      × (busy_in i s.workers ≤ declared_size groups i)
unfolding new_scheduler
Reach-Bounded groups {s} r i =
    let sizes = ap (λ l. size_of l i) (new_groups-sizes _ 0 groups) ∙ size_of-declared groups i in
    subst (λ n. (busy_in i s.workers + waiting_in i s.workers ≡ n) × (busy_in i s.workers ≤ n))
      sizes (started-Bounded r i)

-- The jobs of all the polls of a run.
unfoldable pub polled : {c : Config} {s t : State} → Reach c s t → List ScheduledJob
polled here = []
polled (next r (poll s jobs h)) = jobs ++ polled r
polled (next r (reject s job rest h unknown)) = polled r
polled (next r (hand s job rest idx front back h known free)) = polled r
polled (next r (end s front back idx job result h)) = polled r

-- How often a job stands in the lists.
pub count : String → List ScheduledJob → ℕ
count id [] = 0
count id (j ∷ rest) = let others = count id rest in if j.id == id then others + 1 else others

abbrev pub holds : String → Option ScheduledJob → Bool
holds id none = false
holds id (some job) = job.id == id

abbrev pub count_busy : String → List Worker → ℕ
count_busy id = count_workers (λ w. holds id w.job)

pub count_returned : String → List (ScheduledJob × Option Error) → ℕ
count_returned id [] = 0
count_returned id ((j, e) ∷ rest) =
    let others = count_returned id rest in if j.id == id then others + 1 else others

count-append :
    (id : String) (xs ys : List ScheduledJob) → count id (xs ++ ys) ≡ count id xs + count id ys
unfolding count
count-append id [] ys = omega arith
count-append id (x ∷ xs) ys = ground (arith, count-append id xs ys)

returned-append :
    (id : String) (xs ys : List (ScheduledJob × Option Error))
    → count_returned id (xs ++ ys) ≡ count_returned id xs + count_returned id ys
unfolding count_returned
returned-append id [] ys = omega arith
returned-append id ((x, e) ∷ xs) ys = ground (arith, returned-append id xs ys)

-- A job that polls have given is returned to the store once for each of these polls, unless it still waits
-- or is being worked on.
pub polled-places :
    {c : Config} {s : State} (r : Reach c (start c) s) (id : String)
    → count id (polled r)
      ≡ count id s.waiting + count_busy id s.workers + count_returned id s.returned
unfolding polled count count_returned count_workers start
polled-places {c} here id =
    omega (arith, run_groups-count (λ w. holds id w.job) (λ j. refl) 0 c.groups)
polled-places (next r (poll s jobs h)) id =
    omega (arith, count-append id jobs (polled r), polled-places r id, ap (count id) h)
polled-places (next r (reject s job rest h unknown)) id = ground (
  arith,
  polled-places r id,
  ap (count id) h,
  returned-append id s.returned ((job, some no_handler_registered) ∷ []),
)
polled-places (next r (hand s job rest idx front back h known free)) id = ground (
  arith,
  polled-places r id,
  ap (count id) h,
  count_workers-swap (λ w. holds id w.job) s.workers front back (waits idx) (works_on idx job) free,
)
polled-places (next r (end s front back idx job result h)) id = ground (
  arith,
  polled-places r id,
  count_workers-swap (λ w. holds id w.job) s.workers front back (works_on idx job) (waits idx) h,
  returned-append id s.returned ((job, result) ∷ []),
)
