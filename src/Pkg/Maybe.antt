-- ===== src/Pkg/Maybe.antt =====
-- pkg/monad/maybe.go and pkg/monad/patch.go, field by field. `Unset` keeps the old value in the
-- struct, so Go's `==` can tell two empty optional values apart. The aggregates use `Option` where
-- no value is unset and then compared; `to_option` is the view that the two share.
use seelf.Prelude.{◌≡◌, Bool, true, false, Option, none, some, arith, if◌then◌else◌, ◌&&◌, not}

pub record Maybe {ℓ} (T : Type ℓ) : Type ℓ where
  pub has_value : Bool
  pub value : T

module _ {ℓ} {T : Type ℓ} where
  -- `None[T]()`, given the zero value of T.
  unfoldable pub none_of : T → Maybe T
  none_of zero_value = record { has_value = false; value = zero_value }

  unfoldable pub set : Maybe T → T → Maybe T
  set m v = record m { has_value = true; value = v }

  -- `Value(value)`
  unfoldable pub value_of : T → T → Maybe T
  unfolding none_of set
  value_of zero_value v = set (none_of zero_value) v

  unfoldable pub unset : Maybe T → Maybe T
  unset m = record m { has_value = false }

  unfoldable pub try_get : Maybe T → T × Bool
  try_get m = (m.value, m.has_value)

  unfoldable pub get : Maybe T → T → T
  get m fallback = if not m.has_value then fallback else m.value

  -- `MustGet`; `none` is the panic.
  unfoldable pub must_get : Maybe T → Option T
  must_get m = if not m.has_value then none else some m.value

  unfoldable pub to_option : Maybe T → Option T
  to_option m = if m.has_value then some m.value else none

  -- Every reader sees only the optional value, not what `Unset` left in the struct: two values with
  -- one view give the same answers.
  pub readers_see_option :
      (m n : Maybe T)
      → to_option m ≡ to_option n
      → (m.has_value ≡ n.has_value)
        × ((fallback : T) → get m fallback ≡ get n fallback)
        × (must_get m ≡ must_get n)
  unfolding get must_get to_option
  readers_see_option m n h = (ground arith, λ d. ground arith, ground arith)

-- pkg/monad/patch.go: not given, given as null, or given with a value.
pub record Patch {ℓ} (T : Type ℓ) : Type ℓ where
  pub maybe : Maybe T
  pub open maybe use *
  pub is_set : Bool

module _ {ℓ} {T : Type ℓ} where
  unfoldable pub patch_value : T → T → Patch T
  unfolding none_of set
  patch_value zero_value v = record { maybe = set (none_of zero_value) v; is_set = true }

  unfoldable pub nil : T → Patch T
  unfolding none_of
  nil zero_value = record { maybe = none_of zero_value; is_set = true }

  unfoldable pub is_nil : Patch T → Bool
  is_nil p = p.is_set && not p.has_value
