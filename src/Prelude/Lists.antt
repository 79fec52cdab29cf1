-- ===== src/Prelude/Lists.antt =====
-- Lists: a Boolean quantifier that runs, the length, and two predicates by recursion.
use Prim.Native.Nat.{ℕ, suc}
use mathlib.Core.Logic.{◌⊎◌}
use mathlib.Core.Bool.{Bool, false, ◌||◌}
use mathlib.Core.List.{List, [], ◌∷◌, ◌++◌}

module _ {ℓ} {A : Type ℓ} where
  -- Does some element pass the test?
  unfoldable pub any : (A → Bool) → List A → Bool
  any p [] = false
  any p (x ∷ xs) = p x || any p xs

  abbrev pub length : List A → ℕ
  length [] = 0
  length (_ ∷ xs) = suc (length xs)

  abbrev pub All {κ} : (A → Type κ) → List A → Type κ
  All Holds [] = Unit
  All Holds (a ∷ rest) = Holds a × All Holds rest

  abbrev pub Any : (A → Type 0) → List A → Type 0
  Any Holds [] = ⊥
  Any Holds (a ∷ rest) = Holds a ⊎ Any Holds rest

  pub All-append {κ} :
      (Holds : A → Type κ) (front back : List A)
      → All Holds front
      → All Holds back
      → All Holds (front ++ back)
  All-append Holds [] back left right = right
  All-append Holds (a ∷ front) back (here, left) right =
      (here, All-append Holds front back left right)
