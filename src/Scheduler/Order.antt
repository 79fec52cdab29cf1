-- ===== src/Scheduler/Order.antt =====
-- `Retry`: the times of the jobs of the group.
use mathlib.Core.List.{append_assoc}
use seelf.Prelude.{
  Bool-cases, inr, ℕ, String, ◌≡◌, refl, Bool, true, some, [], ◌∷◌, ◌++◌, arith, ◌≤◌, ◌<◌, ◌+◌,
  ◌==◌, string_eq, ◌&&◌, inl, inr, leb, ltb, Error, sym, ◌∙◌, subst, ap, dec_lt, ◌⊎◌,
}
use seelf.Scheduler.{
  retry_one, job_id, Job, Jobs, retry, postpone, row_number, group_of, count, is_set,
  retry_preserve_order,
}
use seelf.Pkg.Table.{update}
use seelf.Scheduler.Rows.{In, UniqueIds}

-- The rows of the group up to a time, and those before it.
abbrev up_to : String → ℕ → Job → Bool
up_to group t r = r.group == group && leb r.not_before t

abbrev earlier : String → ℕ → Job → Bool
earlier group t r = r.group == group && ltb r.not_before t

count-append : (p : Job → Bool) (xs ys : Jobs) → count p (xs ++ ys) ≡ count p xs + count p ys
unfolding count
count-append p [] ys = omega arith
count-append p (x ∷ xs) ys = ground (arith, count-append p xs ys)

count_le :
    (p q : Job → Bool)
    → ((r : Job) → p r ≡ true → q r ≡ true)
    → (rows : Jobs) → count p rows ≤ count q rows
unfolding count
count_le p q h [] = omega arith
count_le p q h (r ∷ rows) = ground (arith, h r, count_le p q h rows)

up_to-earlier :
    (group : String) (s t : ℕ)
    → s < t
    → (rows : Jobs) → count (up_to group s) rows ≤ count (earlier group t) rows
up_to-earlier group s t l rows =
    count_le (up_to group s) (earlier group t) (λ r h. ground (arith, l, h)) rows

earlier_mono :
    (group : String) (s t : ℕ)
    → s < t
    → (rows : Jobs) → count (earlier group s) rows ≤ count (earlier group t) rows
earlier_mono group s t l rows =
    count_le (earlier group s) (earlier group t) (λ r h. ground (arith, l, h)) rows

earlier-up_to :
    (group : String) (t : ℕ) (rows : Jobs)
    → count (earlier group t) rows ≤ count (up_to group t) rows
earlier-up_to group t rows =
    count_le (earlier group t) (up_to group t) (λ r h. ground (arith, h)) rows

-- The number of a row, against the rows of the table that are earlier than a time.
number_below :
    (b a : Jobs) (j : Job) (t : ℕ)
    → j.not_before < t
    → row_number b a j ≤ count (earlier j.group t) (b ++ (j ∷ a))
unfolding row_number count
number_below b a j t l = ground (
  arith,
  count-append (earlier j.group t) b (j ∷ a),
  up_to-earlier j.group j.not_before t l b,
  earlier_mono j.group j.not_before t l a,
)

number_above :
    (b a : Jobs) (j : Job) → count (earlier j.group j.not_before) (b ++ (j ∷ a)) < row_number b a j
unfolding row_number count
number_above b a j = ground (
  arith,
  count-append (earlier j.group j.not_before) b (j ∷ a),
  earlier-up_to j.group j.not_before b,
)

-- A row of the group after the update, and the place of the row that it was.
pub record Origin (group : String) (now : ℕ) (all : Jobs) (x : Job) : Type 0 where
  pub before : Jobs
  pub row : Job
  pub after : Jobs
  pub place : all ≡ before ++ (row ∷ after)
  pub same_id : row.id ≡ x.id
  pub same_group : row.group ≡ group
  pub time : x.not_before ≡ now + (14 + row_number before after row)

postpone-Origin :
    (group id : String) (e : Error) (now : ℕ) (before rows : Jobs) (x : Job)
    → In x (postpone group id e now before rows)
    → x.group ≡ group
    → Origin group now (before ++ rows) x
unfolding postpone
postpone-Origin group id e now before [] x i g = absurd i
postpone-Origin group id e now before (r ∷ rows) x (inl p) g = record {
  before = before;
  row = r;
  after = rows;
  place = refl;
  same_id = ground (arith, p, g);
  same_group = ground (arith, p, g);
  time = ground (arith, p, g);
}
postpone-Origin group id e now before (r ∷ rows) x (inr i) g =
    subst (λ l. Origin group now l x) (append_assoc before (r ∷ []) rows)
      (postpone-Origin group id e now (before ++ (r ∷ [])) rows x i g)

-- The rows of a group keep their order in time.
origins_ordered :
    (group : String) (now : ℕ) (rows : Jobs) (x y : Job) (o : Origin group now rows x)
    (p : Origin group now rows y)
    → o.row.not_before < p.row.not_before
    → x.not_before < y.not_before
origins_ordered group now rows x y o p l =
    let t = p.row.not_before in
    let below =
      subst
        (λ g.
          row_number o.before o.after o.row ≤ count (earlier g t) (o.before ++ (o.row ∷ o.after)))
        o.same_group (number_below o.before o.after o.row t l) in
    let above =
      subst
        (λ g.
          count (earlier g t) (p.before ++ (p.row ∷ p.after)) < row_number p.before p.after p.row)
        p.same_group (number_above p.before p.after p.row) in
    let same = ap (count (earlier group t)) (sym o.place ∙ p.place) in
    omega (arith, below, above, same, o.time, p.time)

In-middle : (b : Jobs) (j : Job) (a : Jobs) → In j (b ++ (j ∷ a))
In-middle [] j a = inl refl
In-middle (r ∷ b) j a = inr (In-middle b j a)

Origin-In :
    (group : String) (now : ℕ) (rows : Jobs) (x : Job) (o : Origin group now rows x) → In o.row rows
Origin-In group now rows x o = subst (In o.row) (sym o.place) (In-middle o.before o.row o.after)

-- When a job fails that must keep the order of its group, every job of the group is put off by 15
-- seconds or more, and of any two jobs of the group the one that was due first is still due first.
pub retry_ordered :
    (rows : Jobs) (id group : String) (policy : ℕ) (e : Error) (now : ℕ) (j k x y : Job)
    → UniqueIds rows
    → is_set policy retry_preserve_order ≡ true
    → group_of id rows ≡ some group
    → In j rows × In k rows
    → In x (retry rows id policy e now) × (x.id ≡ j.id) × (x.group ≡ group)
    → In y (retry rows id policy e now) × (y.id ≡ k.id) × (y.group ≡ group)
    → (now + 15 ≤ x.not_before)
      × (now + 15 ≤ y.not_before)
      × ((k.not_before ≤ j.not_before) ⊎ (x.not_before < y.not_before))
unfolding retry row_number
retry_ordered rows id group policy e now j k x y unique ordered known (hj, hk) (hx, sx, gx)
      (hy, sy, gy) =
    let o = postpone-Origin group id e now [] rows x (ground (arith, ordered, known, hx)) gx in
    let p = postpone-Origin group id e now [] rows y (ground (arith, ordered, known, hy)) gy in
    let a = unique o.row j (Origin-In group now rows x o) hj (o.same_id ∙ sx) in
    let b = unique p.row k (Origin-In group now rows y p) hk (p.same_id ∙ sy) in
    (
      omega (arith, o.time),
      omega (arith, p.time),
      elim (dec_lt j.not_before k.not_before) [
        | no later ↦ inl (omega (arith, later))
        | yes l ↦ inr (
            origins_ordered group now rows x y o p (
              subst (λ r. r.not_before < p.row.not_before) (sym a)
                (subst (λ r. j.not_before < r.not_before) (sym b) l)))
      ],
    )

group_of-retry_one :
    (rows : Jobs) (id group : String) (e : Error) (now : ℕ)
    → group_of id rows ≡ some group
    → group_of id (update job_id id (retry_one id e now) rows) ≡ some group
unfolding group_of update
group_of-retry_one [] id group e now known = absurd (ground (arith, known))
group_of-retry_one (j ∷ rows) id group e now known =
    ground (arith, known, group_of-retry_one rows id group e now)

postponed :
    (rows : Jobs) (id group : String) (e : Error) (now : ℕ) (x : Job)
    → In x (postpone group id e now [] rows)
    → x.group ≡ group
    → now + 15 ≤ x.not_before
unfolding row_number
postponed rows id group e now x i g =
    let o = postpone-Origin group id e now [] rows x i g in omega (arith, o.time)

-- Whatever the policy of the job that failed, every job of its group is put off by 15 seconds or more.
pub retry_postpones :
    (rows : Jobs) (id group : String) (policy : ℕ) (e : Error) (now : ℕ) (x : Job)
    → group_of id rows ≡ some group
    → In x (retry rows id policy e now)
    → x.group ≡ group
    → now + 15 ≤ x.not_before
unfolding retry
retry_postpones rows id group policy e now x known i g =
    elim (Bool-cases (is_set policy retry_preserve_order)) [
      | inl ordered ↦ postponed rows id group e now x (ground (arith, ordered, known, i)) g
      | inr alone ↦
          postponed (update job_id id (retry_one id e now) rows) id group e now x
            (ground (arith, alone, group_of-retry_one rows id group e now known, i)) g
    ]
