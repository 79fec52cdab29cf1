-- ===== src/Store/Deployments/Numbers.antt =====
-- The numbers that `GetNextDeploymentNumber` gives out.
use seelf.Prelude.{
  String, ◌≡◌, refl, none, [], ◌∷◌, ◌++◌, arith, ◌≤◌, suc, All, ◌==◌, string_eq, if◌then◌else◌,
}
use seelf.Pkg.Table.{find}
use seelf.Domain.Values.{DeploymentId, deployment_id_eq}
use seelf.Store.Deployments.{
  DeploymentRow, Deployments, row_id, count_of, get_next_deployment_number,
}

-- The deployments of every application have numbers up to the number of its deployments.
abbrev pub NumberedIn : Deployments → DeploymentRow → Type 0
NumberedIn rows r = r.id.deployment_number ≤ count_of r.id.app_id rows

abbrev pub Numbered : Deployments → Type 0
Numbered rows = All (NumberedIn rows) rows

count_of-append :
    (app : String) (rows : Deployments) (x : DeploymentRow)
    → count_of app (rows ++ (x ∷ []))
      ≡ (if x.id.app_id == app then suc (count_of app rows) else count_of app rows)
unfolding count_of
count_of-append app [] x = refl
count_of-append app (r ∷ rows) x = ground (arith, count_of-append app rows x)

numbered_still :
    (all rows : Deployments) (x : DeploymentRow)
    → All (NumberedIn all) rows
    → All (NumberedIn (all ++ (x ∷ []))) rows
numbered_still all [] x a = tt
numbered_still all (r ∷ rows) x (n, a) =
    (ground (arith, count_of-append r.id.app_id all x), numbered_still all rows x a)

All-snoc :
    (P : DeploymentRow → Type 0) (rows : Deployments) (x : DeploymentRow)
    → All P rows
    → P x
    → All P (rows ++ (x ∷ []))
All-snoc P [] x a p = (p, tt)
All-snoc P (r ∷ rows) x (q, a) p = (q, All-snoc P rows x a p)

-- A deployment that is inserted under the next number keeps the numbers.
pub next-Numbered :
    (rows : Deployments) (x : DeploymentRow)
    → Numbered rows
    → x.id.deployment_number ≡ get_next_deployment_number rows x.id.app_id
    → Numbered (rows ++ (x ∷ []))
unfolding get_next_deployment_number
next-Numbered rows x a e =
    All-snoc (NumberedIn (rows ++ (x ∷ []))) rows x (numbered_still rows rows x a)
      (ground (arith, e, count_of-append x.id.app_id rows x))

unused_above :
    (all rows : Deployments) (id : DeploymentId)
    → All (NumberedIn all) rows
    → suc (count_of id.app_id all) ≤ id.deployment_number
    → find row_id id rows ≡ none
unfolding find
unused_above all [] id a l = refl
unused_above all (r ∷ rows) id (n, a) l = ground (arith, n, l, unused_above all rows id a l)

-- The next number of an application is not in use.
pub next_unused :
    (rows : Deployments) (id : DeploymentId)
    → Numbered rows
    → id.deployment_number ≡ get_next_deployment_number rows id.app_id
    → find row_id id rows ≡ none
unfolding get_next_deployment_number
next_unused rows id a e = unused_above rows rows id a (omega (arith, e))
