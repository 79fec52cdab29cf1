-- ===== src/Scheduler.antt =====
-- pkg/bus/scheduler.go, pkg/bus/sqlite/store.go and pkg/flag/flag.go: the queue of jobs, as the rows
-- of the table `scheduled_jobs` in the order of their insertion, and the statements made on it.
pub mod Rows
pub mod OnePerGroup
pub mod Picking
pub mod Merging
pub mod Order
use Prim.Native.Nat.{◌/◌}
use seelf.Prelude.{
  ℕ, String, ◌+◌, ◌%◌, ◌^◌, suc, ◌≡◌, Bool, true, false, Option, none, some, List, [], ◌∷◌, ◌++◌,
  if◌then◌else◌, not, ◌&&◌, ◌||◌, ◌==◌, ◌!=◌, ℕ_eq, string_eq, Result, ok, err, Error, not_found,
  any, get_or, ltb, leb, message, is_some, map,
}
use seelf.Pkg.Table.{update, delete}

-- `JobPolicy`: the bits, in the order of their constants. A flag has one bit, so `value & check == check`
-- asks whether that bit is 1.
unfoldable pub is_set : ℕ → ℕ → Bool
is_set policy bit = policy / 2 ^ bit % 2 == 1

abbrev pub retry_preserve_order : ℕ
retry_preserve_order = 0

abbrev pub wait_for_others : ℕ
wait_for_others = 1

abbrev pub cancellable : ℕ
cancellable = 2

abbrev pub merge : ℕ
merge = 3

-- A row of the table. Times are seconds.
pub record Job : Type 0 where
  pub id : String
  pub resource_id : String
  pub group : String
  pub message_name : String
  pub message_data : String
  pub queued_at : ℕ
  pub not_before : ℕ
  pub errcode : Option String
  pub policy : ℕ
  pub retrieved : Bool

abbrev pub Jobs : Type 0
Jobs = List Job

abbrev pub job_id : Job → String
job_id j = j.id

-- What is to be queued: a `Schedulable` with the options it is queued with.
pub record Queued : Type 0 where
  pub message_name : String
  pub resource_id : String
  pub message_data : String
  pub group : Option String
  pub policy : ℕ

-- Rows that a condition selects, and a statement that updates them.
unfoldable pub update_where : (Job → Bool) → (Job → Job) → Jobs → Jobs
update_where p f [] = []
update_where p f (j ∷ js) = let rest = update_where p f js in (if p j then f j else j) ∷ rest

unfoldable pub select : (Job → Bool) → Jobs → Jobs
select p [] = []
select p (j ∷ js) = let rest = select p js in if p j then j ∷ rest else rest

unfoldable pub count : (Job → Bool) → Jobs → ℕ
count p [] = 0
count p (j ∷ js) = (if p j then 1 else 0) + count p js

-- `Setup`
unfoldable pub setup : Jobs → Jobs
setup rows = update_where (λ j. j.retrieved) (λ j. record j { retrieved = false }) rows

-- The job that a merged message goes to.
abbrev pub waits_for : String → String → Job → Bool
waits_for resource name j = (j.resource_id == resource && j.message_name == name) && not j.retrieved

unfoldable pub existing_job : String → String → Jobs → String
existing_job resource name [] = ""
existing_job resource name (j ∷ js) =
    let rest = existing_job resource name js in if waits_for resource name j then j.id else rest

abbrev pub new_job : String → ℕ → Queued → Job
new_job id now q = record {
  id = id;
  resource_id = q.resource_id;
  group = get_or q.group id;
  message_name = q.message_name;
  message_data = q.message_data;
  queued_at = now;
  not_before = now;
  errcode = none;
  policy = q.policy;
  retrieved = false;
}

-- `Create`, with the new id and the time of the call.
unfoldable pub create : Jobs → String → ℕ → Queued → Jobs
unfolding is_set existing_job
create rows id now q =
    let existing = existing_job q.resource_id q.message_name rows in
    if is_set q.policy merge && existing != ""
    then update job_id existing (λ j. record j { message_data = q.message_data }) rows
    else rows ++ (new_job id now q ∷ [])

abbrev pub is_cancelled : String → Job → Bool
is_cancelled id j = j.id == id && is_set j.policy cancellable

-- `Delete`: an error if no row was affected.
unfoldable pub cancel : Jobs → String → Result Jobs
unfolding select
cancel rows id =
    if any (is_cancelled id) rows
    then ok (select (λ j. not (is_cancelled id j)) rows)
    else err not_found

-- The condition of the inner query of `GetNextPendingJobs`.
unfoldable pub is_eligible : Jobs → ℕ → Job → Bool
is_eligible rows now j =
    ((not j.retrieved && leb j.not_before now)
      && not (any (λ r. r.retrieved && r.group == j.group) rows))
    && (not (is_set j.policy wait_for_others)
        || leb (count (λ r. r.resource_id == j.resource_id) rows) 1)

-- `MIN(not_before) … GROUP BY group`: the first of the earliest eligible rows of a group. SQLite may
-- take any of the earliest.
unfoldable pub earliest : (Job → Bool) → String → Jobs → Option Job
earliest eligible group [] = none
earliest eligible group (j ∷ js) =
    let rest = earliest eligible group js in
    if eligible j && j.group == group
    then elim rest [
      | none ↦ some j
      | some k ↦ if leb j.not_before k.not_before then some j else some k
    ]
    else rest

unfoldable pub is_next : Jobs → ℕ → Job → Bool
is_next rows now j = elim (earliest (is_eligible rows now) j.group rows) [
  | none ↦ false
  | some k ↦ k.id == j.id
]

-- `GetNextPendingJobs`: the table after the statement, and the rows that it returns.
unfoldable pub get_next_pending_jobs : Jobs → ℕ → Jobs × Jobs
unfolding update_where select
get_next_pending_jobs rows now = (
  update_where (is_next rows now) (λ j. record j { retrieved = true }) rows,
  select (is_next rows now) rows,
)

-- `ROW_NUMBER() OVER (ORDER BY not_before)` among the rows of a group: one more than the number of
-- the rows before. Rows with the same time take the order of the table.
unfoldable pub row_number : Jobs → Jobs → Job → ℕ
row_number before after j = suc (
    count (λ r. r.group == j.group && leb r.not_before j.not_before) before
    + count (λ r. r.group == j.group && ltb r.not_before j.not_before) after)

-- The update of the whole group of `Retry`, row by row: `before` are the rows already passed.
unfoldable pub postpone : String → String → Error → ℕ → Jobs → Jobs → Jobs
unfolding row_number
postpone group id e now before [] = []
postpone group id e now before (j ∷ js) =
    let rest = postpone group id e now (before ++ (j ∷ [])) js in
    (if j.group == group
      then record j {
        errcode = if j.id == id then some (message e) else j.errcode;
        not_before = now + (14 + row_number before js j);
        retrieved = false;
      }
      else j)
    ∷ rest

abbrev pub retry_one : String → Error → ℕ → Job → Job
retry_one id e now j = record j {
  errcode = some (message e);
  not_before = now + 15;
  retrieved = false;
}

unfoldable pub group_of : String → Jobs → Option String
group_of id [] = none
group_of id (j ∷ js) = let rest = group_of id js in if j.id == id then some j.group else rest

-- `Retry`: without the policy the job alone is postponed, and then its whole group, as the code has
-- no `return` between the two statements.
unfoldable pub retry : Jobs → String → ℕ → Error → ℕ → Jobs
unfolding postpone group_of is_set
retry rows id policy e now =
    let alone =
      if is_set policy retry_preserve_order
      then rows
      else update job_id id (retry_one id e now) rows in
    elim (group_of id alone) [ none ↦ alone | some group ↦ postpone group id e now [] alone ]

-- `Done`
unfoldable pub done : Jobs → String → Jobs
done rows id = delete job_id id rows

-- `handleJobReturn`
unfoldable pub handle_job_return : Jobs → String → ℕ → Option Error → ℕ → Jobs
unfolding retry done
handle_job_return rows id policy none now = done rows id
handle_job_return rows id policy (some e) now = retry rows id policy e now
