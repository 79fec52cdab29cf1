-- ===== src/Store/Users.antt =====
-- internal/auth/infra/sqlite/users.go and `UserFrom` of internal/auth/domain: the table of users.
pub mod Emails
use seelf.Prelude.{
  String, Bool, Option, none, some, List, [], ◌∷◌, ◌++◌, if◌then◌else◌, ◌&&◌, ◌||◌, not, ◌==◌,
  string_eq, Result, ok, err, Error, not_found, any, leb,
}
use seelf.Pkg.Action.{Time}
use seelf.Pkg.Table.{find, update}
use seelf.Auth.User.{
  User, EmailRequirement, UserEvent, user_registered, user_email_changed, user_password_changed,
  user_api_key_changed,
}

pub record UserRow : Type 0 where
  pub id : String
  pub email : String
  pub password_hash : String
  pub api_key : String
  pub registered_at : Time

abbrev pub Users : Type 0
Users = List UserRow

abbrev pub row_id : UserRow → String
row_id r = r.id

abbrev pub row_email : UserRow → String
row_email r = r.email

abbrev pub row_api_key : UserRow → String
row_api_key r = r.api_key

-- The statement that `Write` makes for an event.
unfoldable pub statement : Users → UserEvent → Users
statement rows (user_registered id email password key registered_at) =
    rows
    ++ (record {
      id = id;
      email = email;
      password_hash = password;
      api_key = key;
      registered_at = registered_at;
    }
        ∷ [])
statement rows (user_email_changed id email) =
    update row_id id (λ r. record r { email = email }) rows
statement rows (user_password_changed id password) =
    update row_id id (λ r. record r { password_hash = password }) rows
statement rows (user_api_key_changed id key) =
    update row_id id (λ r. record r { api_key = key }) rows

-- `UserFrom`
unfoldable pub user_from : UserRow → User
user_from r = record {
  id = r.id;
  password = r.password_hash;
  email = r.email;
  key = r.api_key;
  registered_at = r.registered_at;
  events = [];
}

abbrev pub found : Option UserRow → Result User
found none = err not_found
found (some r) = ok (user_from r)

-- `GetByID`
unfoldable pub get_by_id : Users → String → Result User
unfolding user_from find
get_by_id rows id = found (find row_id id rows)

-- `GetByEmail`
unfoldable pub get_by_email : Users → String → Result User
unfolding user_from find
get_by_email rows email = found (find row_email email rows)

-- `GetIDFromAPIKey`
unfoldable pub get_id_from_api_key : Users → String → Result String
unfolding find
get_id_from_api_key rows key = elim (find row_api_key key rows) [
  | none ↦ err not_found
  | some r ↦ ok r.id
]

-- ORDER BY registered_at ASC LIMIT 1
unfoldable pub earliest : UserRow → List UserRow → UserRow
earliest r [] = r
earliest r (s ∷ rest) =
    let kept = earliest r rest in
    let other = earliest s rest in if leb r.registered_at s.registered_at then kept else other

-- `GetAdminUser`
unfoldable pub get_admin_user : Users → Result User
unfolding earliest user_from
get_admin_user [] = err not_found
get_admin_user (r ∷ rest) = ok (user_from (earliest r rest))

-- AND id NOT IN (excluded)
abbrev pub excludes : List String → String → Bool
excludes ids id = any (λ e. e == id) ids

-- `CheckEmailAvailability`
unfoldable pub check_email_availability : Users → String → List String → EmailRequirement
unfolding any
check_email_availability rows email excluded = record {
  email = email;
  unique = not (any (λ r. r.email == email && not (excludes excluded r.id)) rows);
}

-- The writing half of `WriteAndDispatch`; `engine` is the answer to a statement, `none` if it was accepted.
module _ (engine : Users → Option Error) where
  unfoldable pub write : Users → List UserEvent → Result Users
  unfolding statement
  write rows [] = ok rows
  write rows (e ∷ es) =
      let next = statement rows e in
      let rest = write next es in elim (engine next) [ some x ↦ err x | none ↦ rest ]
