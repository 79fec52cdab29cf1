-- ===== src/Bus/Workers/Progress.antt =====
-- What the poller waits for when it hands the jobs of a poll over.
use seelf.Prelude.{
  ℕ, zero, suc, ◌+◌, ◌<◌, ◌≡◌, refl, ap, ◌∙◌, String, none, some, List, [], ◌∷◌, ◌++◌, arith,
  if◌then◌else◌, ◌==◌, ℕ_eq, string_eq, lookup, insert, lookup-insert, Map, inl, inr, Option-cases,
  dec_lt, Bool, true, Bool-cases, is_some, not, ◌&&◌,
}
use seelf.Bus.Workers.{
  WorkerGroup, Config, ScheduledJob, Worker, waits, works_on, State, start, reject, hand, end,
  Reach, here, next, size_of, waiting_in, count_workers, index_messages, group_size, new_groups,
  new_scheduler,
}
use seelf.Bus.Workers.Steps.{started-Bounded}

-- Every group that a message is sent to has a worker.
abbrev HasWorkers : Config → Type 0
HasWorkers c =
    (name : String) (i : ℕ)
    → lookup name c.message_name_to_worker_idx ≡ some i
    → 0 < size_of c.groups i

abbrev length : List ℕ → ℕ
length [] = 0
length (_ ∷ xs) = suc (length xs)

size_of-append :
    (groups : List ℕ) (n i : ℕ)
    → size_of (groups ++ (n ∷ [])) i ≡ (if i == length groups then n else size_of groups i)
unfolding size_of
size_of-append [] n zero = ground arith
size_of-append [] n (suc i) = ground arith
size_of-append (m ∷ groups) n zero = ground arith
size_of-append (m ∷ groups) n (suc i) = ground (arith, size_of-append groups n i)

-- The messages of a group that was just appended.
index-HasWorkers :
    (groups : List ℕ) (index : Map ℕ) (i : ℕ) (messages : List String)
    → 0 < size_of groups i
    → HasWorkers (record { groups = groups; message_name_to_worker_idx = index })
    → HasWorkers
        (record { groups = groups; message_name_to_worker_idx = index_messages index i messages })
unfolding index_messages
index-HasWorkers groups index i [] pos v = v
index-HasWorkers groups index i (m ∷ messages) pos v =
    index-HasWorkers groups (insert m i index) i messages pos
      (λ name j h. ground (arith, v name j, h, pos, lookup-insert m name i index))

length-append : (groups : List ℕ) (n : ℕ) → length (groups ++ (n ∷ [])) ≡ length groups + 1
length-append [] n = omega arith
length-append (m ∷ groups) n = omega (arith, length-append groups n)

positive :
    (groups : List ℕ) (g : WorkerGroup) (j : ℕ)
    → 0 < size_of groups j
    → 0 < size_of (groups ++ (group_size g ∷ [])) j
positive groups g j h = ground (arith, h, size_of-append groups (group_size g) j)

last_positive :
    (groups : List ℕ) (g : WorkerGroup) (i : ℕ)
    → i ≡ length groups
    → 0 < size_of (groups ++ (group_size g ∷ [])) i
last_positive groups g i e = ground (arith, e, size_of-append groups (group_size g) i)

new_groups-HasWorkers :
    (c : Config) (i : ℕ) (groups : List WorkerGroup)
    → i ≡ length c.groups
    → HasWorkers c
    → HasWorkers (new_groups c i groups)
unfolding new_groups
new_groups-HasWorkers c i [] e v = v
new_groups-HasWorkers c i (g ∷ rest) e v =
    let groups = c.groups ++ (group_size g ∷ []) in
    let with_group : HasWorkers (record c { groups = groups }) =
      λ name j h. positive c.groups g j (v name j h) in
    let c' : Config = record {
      groups = groups;
      message_name_to_worker_idx = index_messages c.message_name_to_worker_idx i g.messages;
    } in
    new_groups-HasWorkers c' (i + 1) rest (omega (arith, e, length-append c.groups (group_size g)))
      (index-HasWorkers groups c.message_name_to_worker_idx i g.messages
        (last_positive c.groups g i e) with_group)

-- A worker of which a test holds, in its place.
Found : (Worker → Bool) → List Worker → Type 0
Found p workers =
    (front : List Worker) × (w : Worker) × (back : List Worker) × (workers ≡ front ++ (w ∷ back))
    × (p w ≡ true)

find_worker :
    (p : Worker → Bool) (workers : List Worker) → 0 < count_workers p workers → Found p workers
unfolding Found count_workers
find_worker p [] h = absurd (omega (arith, h))
find_worker p (w ∷ workers) h = elim (Bool-cases (p w)) [
  | inl found ↦ ([], w, workers, refl, found)
  | inr other ↦
      let (front, a, back, e, q) = find_worker p workers (ground (arith, h, other)) in
      (w ∷ front, a, back, ap (λ l. w ∷ l) e, q)
]

is_waiting : (i : ℕ) (w : Worker) → (w.group == i && not (is_some w.job)) ≡ true → w ≡ waits i
is_waiting i w h = ground (arith, h)

is_busy :
    (i : ℕ) (w : Worker)
    → (w.group == i && is_some w.job) ≡ true
    → (job : ScheduledJob) × (w ≡ works_on i job)
is_busy i w h = elim (Option-cases w.job) [
  | inl none_at_all ↦ absurd (ground (arith, h, none_at_all))
  | inr (job, e) ↦ (job, ground (arith, h, e))
]

new_scheduler-HasWorkers : (groups : List WorkerGroup) → HasWorkers (new_scheduler groups)
unfolding new_scheduler lookup
new_scheduler-HasWorkers groups = new_groups-HasWorkers _ 0 groups refl (λ name i h. absurd (cc))

-- A worker ends a job if the group has none that waits for one.
hand_over :
    (c : Config) (s : State) (job : ScheduledJob) (rest : List ScheduledJob) (i : ℕ)
    → Reach c (start c) s
    → s.waiting ≡ job ∷ rest
    → lookup job.name c.message_name_to_worker_idx ≡ some i
    → 0 < size_of c.groups i
    → (t : State) × Reach c s t × (t.waiting ≡ rest)
unfolding Found
hand_over c s job rest i r h known workers = elim (dec_lt 0 (waiting_in i s.workers)) [
  | yes some_wait ↦
      let (front, w, back, e, q) = find_worker _ s.workers some_wait in
      let free = e ∙ ap (λ v. front ++ (v ∷ back)) (is_waiting i w q) in
      (_, next here (hand s job rest i front back h known free), refl)
  | no full ↦
      let staff = (started-Bounded r i).0 in
      let (front, w, back, e, q) =
        find_worker (λ v. v.group == i && is_some v.job) s.workers
          (omega (arith, staff, full, workers)) in
      let (current, same) = is_busy i w q in
      let busy = e ∙ ap (λ v. front ++ (v ∷ back)) same in
      let freed : State = record s {
        workers = front ++ (waits i ∷ back);
        returned = s.returned ++ ((current, none) ∷ []);
      } in
      (
        _,
        next (next here (end s front back i current none busy))
            (hand freed job rest i front back h known refl),
        refl,
      )
]

-- From any state that can be reached, there are steps after which the first job of a poll has left the
-- poller, whatever sizes the groups were given.
pub poller_moves_on :
    (groups : List WorkerGroup) (s : State) (job : ScheduledJob) (rest : List ScheduledJob)
    → Reach (new_scheduler groups) (start (new_scheduler groups)) s
    → s.waiting ≡ job ∷ rest
    → (t : State) × Reach (new_scheduler groups) s t × (t.waiting ≡ rest)
poller_moves_on groups s job rest r h =
    let c = new_scheduler groups in
    elim (Option-cases (lookup job.name c.message_name_to_worker_idx)) [
      | inl unknown ↦ (_, next here (reject s job rest h unknown), refl)
      | inr (i, known) ↦
          hand_over c s job rest i r h known (new_scheduler-HasWorkers groups job.name i known)
    ]
