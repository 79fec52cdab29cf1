-- ===== src/Pkg/Table.antt =====
-- A table of the SQLite database with a primary key, as the list of its rows, and the statements
-- that the stores make on it: `INSERT`, `UPDATE … WHERE key = ?`, `DELETE … WHERE key = ?` and
-- `SELECT … WHERE key = ?`. Whether the engine accepts a statement is a parameter (`engine`): the
-- constraints of the schema and the failures of the disk are not modelled.
pub mod Unique
use seelf.Prelude.{
  ◌≡◌, refl, Option, none, some, List, [], ◌∷◌, ◌++◌, arith, if◌then◌else◌, ◌==◌, Eq,
}
use mathlib.Core.Option

module _ {K R : Type 0} ⦃e : Eq K⦄ (key : R → K) where
  unfoldable pub find : K → List R → Option R
  find k [] = none
  find k (r ∷ rs) = if key r == k then some r else find k rs

  unfoldable pub update : K → (R → R) → List R → List R
  update k f [] = []
  update k f (r ∷ rs) = let rest = update k f rs in if key r == k then f r ∷ rest else r ∷ rest

  unfoldable pub delete : K → List R → List R
  delete k [] = []
  delete k (r ∷ rs) = let rest = delete k rs in if key r == k then rest else r ∷ rest

  pub find-update :
      (k j : K) (f : R → R) (rs : List R)
      → ((r : R) → key (f r) ≡ key r)
      → find j (update k f rs) ≡ (if k == j then Option.map f (find j rs) else find j rs)
  unfolding find update
  find-update k j f [] h = ground arith
  find-update k j f (r ∷ rs) h = ground (arith, h r, find-update k j f rs h)

  pub find-delete :
      (k j : K) (rs : List R) → find j (delete k rs) ≡ (if k == j then none else find j rs)
  unfolding find delete
  find-delete k j [] = ground arith
  find-delete k j (r ∷ rs) = ground (arith, find-delete k j rs)

  -- An inserted row is found, unless an older one has its key.
  pub find-append :
      (j : K) (rs : List R) (r : R)
      → find j (rs ++ (r ∷ []))
        ≡ (elim (find j rs) [ some old ↦ some old | none ↦ if key r == j then some r else none ])
  unfolding find
  find-append j [] r = refl
  find-append j (s ∷ rs) r = ground (arith, find-append j rs r)

  -- The row that is found has the key.
  pub key-find : (k : K) (rs : List R) (r : R) → find k rs ≡ some r → key r ≡ k
  unfolding find
  key-find k [] r h = absurd (ground (arith, h))
  key-find k (s ∷ rs) r h = ground (arith, h, key-find k rs r)
