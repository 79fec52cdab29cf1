-- ===== src/Auth/User.antt =====
-- internal/auth/domain/user.go and requirement.go: the aggregate of a user.
pub mod Calls
use seelf.Prelude.{
  ℕ, String, ◌≡◌, Bool, true, false, Option, none, some, List, [], ◌∷◌, if◌then◌else◌, not, ◌==◌,
  string_eq, Result, ok, err, Error, ◌>>=◌, email_already_taken,
}
use seelf.Pkg.Event.{store_event}
use seelf.Pkg.Action.{Time}
use seelf.Domain.Requirement.{met_with}

pub record EmailRequirement : Type 0 where
  pub email : String
  pub unique : Bool

unfoldable pub email_error : EmailRequirement → Option Error
email_error e = if not e.unique then some email_already_taken else none

unfoldable pub email_met : EmailRequirement → Result String
unfolding email_error
email_met e = met_with e.email (email_error e)

pub data UserEvent : Type 0 where
  user_registered : String → String → String → String → Time → UserEvent
  user_email_changed : String → String → UserEvent
  user_password_changed : String → String → UserEvent
  user_api_key_changed : String → String → UserEvent

-- `events` is the embedded `event.Emitter`.
pub record User : Type 0 where
  pub id : String
  pub password : String
  pub email : String
  pub key : String
  pub registered_at : Time
  pub events : List UserEvent

-- The zero value of the struct.
abbrev pub zero_user : User
zero_user = record { id = ""; password = ""; email = ""; key = ""; registered_at = 0; events = [] }

-- The switch of `apply`.
unfoldable pub absorb : User → UserEvent → User
absorb u (user_registered id email password key registered_at) = record u {
  id = id;
  email = email;
  password = password;
  registered_at = registered_at;
  key = key;
}
absorb u (user_email_changed id email) = record u { email = email }
absorb u (user_password_changed id password) = record u { password = password }
absorb u (user_api_key_changed id key) = record u { key = key }

unfoldable pub apply : User → UserEvent → User
unfolding absorb
apply u e = let u' = absorb u e in record u' { events = store_event u'.events e }

unfoldable pub new_user : String → EmailRequirement → String → String → Time → Result User
unfolding apply email_met
new_user id requirement password key now = do
  email ← email_met requirement
  ok (apply zero_user (user_registered id email password key now))

unfoldable pub has_email : User → EmailRequirement → User × Option Error
unfolding apply email_met
has_email u requirement = elim (email_met requirement) [
  | err e ↦ (u, some e)
  | ok email ↦
      if u.email == email then (u, none) else (apply u (user_email_changed u.id email), none)
]

unfoldable pub has_password : User → String → User
unfolding apply
has_password u password =
    if u.password == password then u else apply u (user_password_changed u.id password)

unfoldable pub has_api_key : User → String → User
unfolding apply
has_api_key u key = if u.key == key then u else apply u (user_api_key_changed u.id key)
