-- ===== src/Pkg/Validate.antt =====
-- pkg/validate: the errors of the fields of a command, with pkg/validate/strings and
-- pkg/validate/numbers as far as the commands use them.
pub mod Fields
use Prim.Native.Char.{code}
use Prim.Native.String.{◌++◌}
use seelf.Prelude.{
  ℕ, String, Bool, true, false, Option, none, some, List, [], ◌∷◌, if◌then◌else◌, ◌&&◌, ◌||◌, ltb,
  leb, ◌==◌, ℕ_eq, string_eq, Map, insert, Result, ok, err, Error, FieldErrors, no_fields, field,
  validation_failed, required,
}
use seelf.Pkg.Maybe.{Patch}

-- `Of`: the fields with their errors, nil where there is none.
abbrev pub Of : Type 0
Of = List (String × Option Error)

abbrev dotted : String → String
dotted prefix = if prefix == "" then "" else prefix ++ "."

-- `flatten`, on the error of one field and on the fields of a nested error. The prefix ends with a dot,
-- if it is not empty.
unfoldable mutual
  pub flatten_error : Map Error → String → Error → Map Error
  flatten_error target name (validation_failed nested) = flatten_fields target (dotted name) nested
  flatten_error target name e = insert name e target

  pub flatten_fields : Map Error → String → FieldErrors → Map Error
  flatten_fields target prefix no_fields = target
  flatten_fields target prefix (field name e rest) =
      flatten_fields (flatten_error target (prefix ++ name) e) prefix rest

-- `FieldErrors.Flatten`
unfoldable pub flatten : Map Error → Of → Map Error
unfolding flatten_error
flatten target [] = target
flatten target ((name, none) ∷ rest) = flatten target rest
flatten target ((name, some e) ∷ rest) = flatten (flatten_error target name e) rest

unfoldable pub field_errors : Map Error → FieldErrors
field_errors [] = no_fields
field_errors ((name, e) ∷ rest) = field name e (field_errors rest)

abbrev pub failed_with : Map Error → Option Error
failed_with [] = none
failed_with (entry ∷ rest) = some (validation_failed (field_errors (entry ∷ rest)))

-- `Struct`
unfoldable pub struct : Of → Option Error
unfolding flatten field_errors
struct definition = failed_with (flatten [] definition)

-- Is it an `apperr.Error`?
abbrev is_app_error : Error → Bool
is_app_error (Error.infra _) = false
is_app_error _ = true

abbrev with_all : Error → List String → Of
with_all e [] = []
with_all e (name ∷ rest) = (name, some e) ∷ with_all e rest

-- `Wrap`, of an error that is not nil.
unfoldable pub wrap : Error → List String → Error
unfolding flatten field_errors
wrap e fields =
    if is_app_error e then validation_failed (field_errors (flatten [] (with_all e fields))) else e

-- `Value`: the error of the factory; the value is read only where there is none.
abbrev pub value_error {ℓ} : {A : Type ℓ} → Result A → Option Error
value_error (ok _) = none
value_error (err e) = some e

-- The target of `Value`: the zero value stays where the factory failed.
abbrev pub value_target {ℓ} : {A : Type ℓ} → A → Result A → A
value_target zero_value (ok a) = a
value_target zero_value (err _) = zero_value

-- `Maybe` and `Patch`
abbrev pub if_set {ℓ} : {A : Type ℓ} → Option A → (A → Option Error) → Option Error
if_set none f = none
if_set (some a) f = f a

abbrev pub if_patched {ℓ} : {A : Type ℓ} → Patch A → (A → Option Error) → Option Error
if_patched p f = if p.is_set then (if p.has_value then f p.value else none) else none

-- `unicode.IsSpace`
unfoldable pub is_space : ℕ → Bool
is_space c =
    (leb 9 c && leb c 13)
    || (c == 32
        || (c == 0x85
            || (c == 0xa0
                || (c == 0x1680
                    || ((leb 0x2000 c && leb c 0x200a)
                        || (c == 0x2028
                            || (c == 0x2029 || (c == 0x202f || (c == 0x205f || c == 0x3000)))))))))

-- strings.TrimSpace(value) == ""
unfoldable pub is_blank : String → Bool
unfolding is_space
is_blank String.[] = true
is_blank (String.◌∷◌ c s) = is_space (code c) && is_blank s

-- `strings.Required`
unfoldable pub is_required : String → Option Error
unfolding is_blank
is_required value = if is_blank value then some required else none
