-- ===== src/Handlers/Users.antt =====
-- internal/auth/app: login, update_user, refresh_api_key and create_first_account. The parser of addresses
-- (`mail.ParseAddress`, `none` where it fails), the hasher and the generator of keys are parameters.
pub mod Access
pub mod Unique
use seelf.Prelude.{
  String, Bool, true, false, Option, none, some, List, [], ◌∷◌, if◌then◌else◌, ◌||◌, Result, ok,
  err, Error, infra, ◌>>=◌, checked, unless, is_some, is_not_found, invalid_email,
  invalid_email_or_password,
}
use seelf.Pkg.Action.{Time}
use seelf.Pkg.Validate.{struct, value_error, value_target, if_set, is_required, wrap}
use seelf.Auth.User.{User, EmailRequirement, new_user, has_email, has_password, has_api_key}
use seelf.Store.Users.{
  Users, get_by_id, get_by_email, get_admin_user, check_email_availability, write,
}

pub record Login : Type 0 where
  pub email : String
  pub password : String

pub record UpdateUser : Type 0 where
  pub id : String
  pub email : Option String
  pub password : Option String

-- The error under the names of some fields.
abbrev pub wrapped_in : {A : Type 0} → List String → A × Option Error → A × Option Error
wrapped_in fields (a, none) = (a, none)
wrapped_in fields (a, some e) = (a, some (wrap e fields))

abbrev pub invalid_login : Error
invalid_login = wrap invalid_email_or_password ("email" ∷ "password" ∷ [])

-- `ErrAdminAccountRequired`, by the first line of its text.
abbrev pub admin_account_required : Error
admin_account_required =
    infra "seelf requires a default user to be created but your database looks empty."

-- The answer of a login once the user was looked for.
abbrev pub check_password : (String → String → Option Error) → String → Result User → Result String
check_password compare password (err e) = if is_not_found e then err invalid_login else err e
check_password compare password (ok u) = elim (compare password u.password) [
  | some _ ↦ err invalid_login
  | none ↦ ok u.id
]

module _ (parse_address : String → Option String) where
  -- `EmailFrom`
  unfoldable pub email_from : String → Result String
  email_from value = elim (parse_address value) [
    | none ↦ err invalid_email
    | some address ↦ ok address
  ]

  unfoldable pub validate_login : Login → Option Error
  unfolding struct is_required email_from
  validate_login cmd =
      struct (
        ("email", value_error (email_from cmd.email)) ∷ ("password", is_required cmd.password) ∷ [])

  unfoldable pub validate_update : UpdateUser → Option Error
  unfolding struct is_required email_from
  validate_update cmd = struct (
      ("email", if_set cmd.email (λ mail. value_error (email_from mail)))
      ∷ ("password", if_set cmd.password is_required)
      ∷ [])

  module _ (compare : String → String → Option Error) where
    unfoldable pub login_handler : Users → Login → Result String
    unfolding validate_login get_by_email wrap email_from
    login_handler rows cmd = unless (validate_login cmd) (
        check_password compare cmd.password
          (get_by_email rows (value_target "" (email_from cmd.email))))

  module _ (hash : String → Result String) (engine : Users → Option Error) where
    unfoldable pub change_email : Users → User → Option String → Result User
    unfolding check_email_availability has_email wrap email_from
    change_email rows u none = ok u
    change_email rows u (some mail) = checked (
        wrapped_in ("email" ∷ []) (
          has_email u
            (check_email_availability rows (value_target "" (email_from mail)) (u.id ∷ []))))

    unfoldable pub change_password : User → Option String → Result User
    unfolding has_password
    change_password u none = ok u
    change_password u (some password) = hash password >>= λ h. ok (has_password u h)

    unfoldable pub update_user_handler : Users → UpdateUser → Result (Users × String)
    unfolding validate_update get_by_id change_email change_password write
    update_user_handler rows cmd = unless (validate_update cmd) (do
      u ← get_by_id rows cmd.id
      u1 ← change_email rows u cmd.email
      u2 ← change_password u1 cmd.password
      rows' ← write engine rows u2.events
      ok (rows', cmd.id))

    -- There is no user yet; `generated` is the answer of the generator.
    unfoldable pub create_account :
        Users → Login → String → Result String → Time → Result (Users × String)
    unfolding validate_login new_user write is_required email_from
    create_account rows cmd id generated now =
        if is_some (is_required cmd.email) || is_some (is_required cmd.password)
        then err admin_account_required
        else unless (validate_login cmd) (do
          password ← hash cmd.password
          key ← generated
          u ←
              new_user id (record { email = value_target "" (email_from cmd.email); unique = true })
                password key now
          rows' ← write engine rows u.events
          ok (rows', u.id))

    unfoldable pub create_first_account_handler :
        Users → Login → String → Result String → Time → Result (Users × String)
    unfolding get_admin_user create_account
    create_first_account_handler rows cmd id generated now =
        let created = create_account rows cmd id generated now in
        elim (get_admin_user rows) [
          | ok u ↦ ok (rows, u.id)
          | err e ↦ if is_not_found e then created else err e
        ]

-- `refresh_api_key`
unfoldable pub refresh_api_key_handler :
    (Users → Option Error) → Users → String → Result String → Result (Users × String)
unfolding get_by_id has_api_key write
refresh_api_key_handler engine rows id generated = do
  u ← get_by_id rows id
  key ← generated
  rows' ← write engine rows (has_api_key u key).events
  ok (rows', key)
