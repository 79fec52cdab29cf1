-- ===== src/Pkg/Validate/Fields.antt =====
-- When the validation of a command fails.
use seelf.Prelude.{
  String, ◌≡◌, refl, false, none, some, [], ◌∷◌, ◌⊎◌, inl, inr, ◌↔◌, arith, string_eq, Map, insert,
  is_empty, Error, FieldErrors, no_fields, field, validation_failed, All,
}
use seelf.Pkg.Validate.{Of, flatten_error, flatten_fields, flatten, failed_with, struct}

-- An error that holds one: a nested validation error has a field with one.
unfoldable mutual
  pub IsReal : Error → Type 0
  IsReal (validation_failed nested) = HasReal nested
  IsReal _ = Unit

  pub HasReal : FieldErrors → Type 0
  HasReal no_fields = ⊥
  HasReal (field name e rest) = IsReal e ⊎ HasReal rest

insert_nonempty : (k : String) (e : Error) (m : Map Error) → is_empty (insert k e m) ≡ false
unfolding insert
insert_nonempty k e [] = refl
insert_nonempty k e ((j, old) ∷ m) = ground arith

mutual
  unfolding flatten_error

  error_nonempty :
      (t : Map Error) (name : String) (e : Error)
      → is_empty t ≡ false
      → is_empty (flatten_error t name e) ≡ false
  error_nonempty t name (validation_failed nested) h = fields_nonempty t _ nested h
  error_nonempty t name e h = insert_nonempty name _ t

  fields_nonempty :
      (t : Map Error) (prefix : String) (fs : FieldErrors)
      → is_empty t ≡ false
      → is_empty (flatten_fields t prefix fs) ≡ false
  fields_nonempty t prefix no_fields h = h
  fields_nonempty t prefix (field name e rest) h =
      fields_nonempty _ prefix rest (error_nonempty t _ e h)

mutual
  unfolding flatten_error IsReal

  error_kept :
      (t : Map Error) (name : String) (e : Error)
      → IsReal e
      → is_empty (flatten_error t name e) ≡ false
  error_kept t name (validation_failed nested) r = fields_kept t _ nested r
  error_kept t name e r = insert_nonempty name _ t

  fields_kept :
      (t : Map Error) (prefix : String) (fs : FieldErrors)
      → HasReal fs
      → is_empty (flatten_fields t prefix fs) ≡ false
  fields_kept t prefix no_fields r = absurd r
  fields_kept t prefix (field name e rest) (inl r) =
      fields_nonempty _ prefix rest (error_kept t _ e r)
  fields_kept t prefix (field name e rest) (inr r) = fields_kept _ prefix rest r

flatten_nonempty :
    (t : Map Error) (def : Of) → is_empty t ≡ false → is_empty (flatten t def) ≡ false
unfolding flatten
flatten_nonempty t [] h = h
flatten_nonempty t ((name, none) ∷ rest) h = flatten_nonempty t rest h
flatten_nonempty t ((name, some e) ∷ rest) h =
    flatten_nonempty (flatten_error t name e) rest (error_nonempty t name e h)

-- Every error of the fields is one.
abbrev pub AllReal : Of → Type 0
AllReal [] = Unit
AllReal ((name, none) ∷ rest) = AllReal rest
AllReal ((name, some e) ∷ rest) = IsReal e × AllReal rest

failed : (m : Map Error) → is_empty m ≡ false → failed_with m ≡ none → ⊥
failed [] h e = absurd (cc)
failed (entry ∷ rest) h e = absurd (cc)

all_none :
    (t : Map Error) (def : Of)
    → AllReal def
    → failed_with (flatten t def) ≡ none
    → All (λ entry. entry.1 ≡ none) def
unfolding flatten
all_none t [] real h = tt
all_none t ((name, none) ∷ rest) real h = (refl, all_none t rest real h)
all_none t ((name, some e) ∷ rest) (r, real) h =
    absurd (failed _ (flatten_nonempty (flatten_error t name e) rest (error_kept t name e r)) h)

none_all : (def : Of) → All (λ entry. entry.1 ≡ none) def → failed_with (flatten [] def) ≡ none
unfolding flatten
none_all [] _ = refl
none_all ((name, none) ∷ rest) (_, h) = none_all rest h
none_all ((name, some e) ∷ rest) (h, _) = absurd (cc)

-- Where every nested validation error has a field with an error, the validation of a struct fails exactly
-- if one of its fields has an error.
pub struct_iff : (def : Of) → AllReal def → (struct def ≡ none) ↔ All (λ entry. entry.1 ≡ none) def
unfolding struct
struct_iff def real = (all_none [] def real, none_all def)

-- An error of the first field is enough.
pub struct_first :
    (name : String) (e : Error) (rest : Of) → IsReal e → struct ((name, some e) ∷ rest) ≡ none → ⊥
unfolding struct flatten
struct_first name e rest r h =
    failed _ (flatten_nonempty (flatten_error [] name e) rest (error_kept [] name e r)) h
