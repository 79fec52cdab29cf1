-- ===== src/Prelude/Tests.antt =====
-- Boolean tests, the conditional, and Go's `==` on comparable types.
use Prim.Native.Nat.{ℕ, compare, Ordering}
use Prim.Native.String.{String}
use mathlib.Core.Path.{◌≡◌, refl}
use mathlib.Core.Logic.{◌↔◌, ◌⊎◌, inl, inr}
use mathlib.Core.Bool.{Bool, true, false, Bool-discrete}
use mathlib.Core.Option.{Option, none, some}
use native.Mathlib.Decide.{ℕ_discrete}
use text.Mathlib.Text.{◌==◌ as str_eq}
use text.Mathlib.TextEquality.{eq_iff}

-- These compute to `compare`, which the tactics read with no lemma listed.
abbrev pub ltb : ℕ → ℕ → Bool
ltb a b = elim (compare a b) [ Ordering.lt ↦ true | _ ↦ false ]

abbrev pub leb : ℕ → ℕ → Bool
leb a b = elim (compare a b) [ Ordering.gt ↦ false | _ ↦ true ]

infix 1 if◌then◌else◌
abbrev pub if◌then◌else◌ {ℓ} : {A : Type ℓ} → Bool → A → A → A
if true then x else y = x
if false then x else y = y

dec_of_iff {ℓ} : {A : Type ℓ} (b : Bool) → (b ≡ true) ↔ A → Dec A
dec_of_iff true h = yes (h.0 refl)
dec_of_iff false h = no (λ a. let e = h.1 a in cc)

unfoldable pub String-discrete : Discrete String
unfolding dec_of_iff
String-discrete s t = dec_of_iff (str_eq s t) (eq_iff s t)

-- A comparable type. The operator is Go's `==`, and the tactics split on the decision under it.
pub record Eq {ℓ} (A : Type ℓ) : Type ℓ where
  pub dec : Discrete A

infix 50 ◌==◌ ◌!=◌
abbrev pub ◌==◌ {ℓ} : {A : Type ℓ} ⦃e : Eq A⦄ → A → A → Bool
◌==◌ ⦃e⦄ a b = elim (e.dec a b) [ yes _ ↦ true | no _ ↦ false ]

abbrev pub ◌!=◌ {ℓ} : {A : Type ℓ} ⦃e : Eq A⦄ → A → A → Bool
◌!=◌ ⦃e⦄ a b = elim (e.dec a b) [ yes _ ↦ false | no _ ↦ true ]

instance abbrev pub ℕ_eq : Eq ℕ
ℕ_eq = record { dec = ℕ_discrete }

instance abbrev pub string_eq : Eq String
string_eq = record { dec = String-discrete }

instance abbrev pub bool_eq : Eq Bool
bool_eq = record { dec = Bool-discrete }

-- Two texts that differ, by evaluation.
pub text_ne : (s t : String) → str_eq s t ≡ false → s ≡ t → ⊥
text_ne s t h p = let e = (eq_iff s t).1 p in cc

-- To split on a computed value and keep the equation.
pub Bool-cases : (b : Bool) → (b ≡ true) ⊎ (b ≡ false)
Bool-cases true = inl refl
Bool-cases false = inr refl

pub Option-cases {ℓ} : {A : Type ℓ} (o : Option A) → (o ≡ none) ⊎ ((a : A) × (o ≡ some a))
Option-cases none = inl refl
Option-cases (some a) = inr (a, refl)

abbrev pub is_some {ℓ} : {A : Type ℓ} → Option A → Bool
is_some none = false
is_some (some _) = true

-- `m.Get(fallback)` of the code's optional values.
abbrev pub get_or {ℓ} : {A : Type ℓ} → Option A → A → A
get_or none d = d
get_or (some a) d = a
