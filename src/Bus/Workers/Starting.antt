-- ===== src/Bus/Workers/Starting.antt =====
-- The workers that `startGroupRunners` of pkg/bus/scheduler.go starts, counted, and what a step of one of
-- them does to a count.
use seelf.Prelude.{
  ℕ, ◌+◌, ◌≡◌, ap, ◌∙◌, List, [], ◌∷◌, ◌++◌, arith, ◌==◌, ℕ_eq, string_eq, zero, suc, ◌<◌, ◌≢◌,
  refl, sym, subst, Bool, false, is_some, not, ◌&&◌,
}
use seelf.Bus.Workers.{Worker, waits, size_of, waiting_in, count_workers, run_group, run_groups}

pub count_workers-append :
    (p : Worker → Bool) (front back : List Worker)
    → count_workers p (front ++ back) ≡ count_workers p front + count_workers p back
unfolding count_workers
count_workers-append p [] back = omega arith
count_workers-append p (w ∷ front) back = ground (arith, count_workers-append p front back)

-- A worker in its place becomes another one.
pub count_workers-swap :
    (p : Worker → Bool) (all front back : List Worker) (v w : Worker)
    → all ≡ front ++ (v ∷ back)
    → count_workers p all + count_workers p (w ∷ [])
      ≡ count_workers p (front ++ (w ∷ back)) + count_workers p (v ∷ [])
unfolding count_workers
count_workers-swap p all front back v w e = ground (
  arith,
  ap (count_workers p) e,
  count_workers-append p front (v ∷ back),
  count_workers-append p front (w ∷ back),
)

pub run_group-count :
    (p : Worker → Bool) (i : ℕ)
    → p (waits i) ≡ false
    → (size : ℕ) → count_workers p (run_group i size) ≡ 0
unfolding count_workers run_group
run_group-count p i silent zero = refl
run_group-count p i silent (suc size) = ground (arith, silent, run_group-count p i silent size)

-- Those that are just started wait.
pub run_groups-count :
    (p : Worker → Bool)
    → ((i : ℕ) → p (waits i) ≡ false)
    → (k : ℕ) (groups : List ℕ) → count_workers p (run_groups k groups) ≡ 0
unfolding count_workers run_groups
run_groups-count p silent k [] = refl
run_groups-count p silent k (size ∷ rest) = omega (
  arith,
  count_workers-append p (run_group k size) (run_groups (k + 1) rest),
  run_groups-count p silent (k + 1) rest,
  run_group-count p k (silent k) size,
)

run_group-waiting : (i size : ℕ) → waiting_in i (run_group i size) ≡ size
unfolding count_workers run_group
run_group-waiting i zero = refl
run_group-waiting i (suc size) = ground (arith, run_group-waiting i size)

waiting_in-other : (i k size : ℕ) → i ≢ k → waiting_in i (run_group k size) ≡ 0
waiting_in-other i k size d =
    run_group-count (λ w. w.group == i && not (is_some w.job)) k (ground (arith, d)) size

waiting_in-later : (i k : ℕ) (groups : List ℕ) → i < k → waiting_in i (run_groups k groups) ≡ 0
unfolding count_workers run_groups
waiting_in-later i k [] l = refl
waiting_in-later i k (size ∷ rest) l = omega (
  arith,
  count_workers-append (λ w. w.group == i && not (is_some w.job)) (run_group k size)
      (run_groups (k + 1) rest),
  waiting_in-other i k size (omega (arith, l)),
  waiting_in-later i (k + 1) rest (omega (arith, l)),
)

-- The group that stands at a place in the list has as many workers as its size.
pub run_groups-waiting :
    (i k d : ℕ) (groups : List ℕ)
    → i ≡ k + d
    → waiting_in i (run_groups k groups) ≡ size_of groups d
unfolding size_of count_workers run_groups
run_groups-waiting i k d [] e = refl
run_groups-waiting i k zero (size ∷ rest) e = omega (
  arith,
  count_workers-append (λ w. w.group == i && not (is_some w.job)) (run_group k size)
      (run_groups (k + 1) rest),
  subst (λ j. waiting_in j (run_group k size) ≡ size) (sym (e ∙ omega arith))
      (run_group-waiting k size),
  waiting_in-later i (k + 1) rest (omega (arith, e)),
)
run_groups-waiting i k (suc d) (size ∷ rest) e = omega (
  arith,
  count_workers-append (λ w. w.group == i && not (is_some w.job)) (run_group k size)
      (run_groups (k + 1) rest),
  waiting_in-other i k size (omega (arith, e)),
  run_groups-waiting i (k + 1) d rest (omega (arith, e)),
)
