-- ===== src/Auth/User/Calls.antt =====
-- The calls that the program makes on a user.
use seelf.Prelude.{
  String, ◌≡◌, refl, List, [], ◌∷◌, arith, ok, if◌then◌else◌, ◌==◌, ◌||◌, not, string_eq,
}
use seelf.Pkg.Event.{Source, store_event, replay, run, run-IsRebuilt}
use seelf.Pkg.Action.{Time}
use seelf.Auth.User.{
  User, UserEvent, EmailRequirement, user_registered, user_email_changed, user_password_changed,
  user_api_key_changed, zero_user, apply, new_user, has_email, has_password, has_api_key,
}

pub data Call : Type 0 where
  changes_email : EmailRequirement → Call
  changes_password : String → Call
  changes_api_key : String → Call

unfoldable pub call : User → Call → User
call u (changes_email requirement) = (has_email u requirement).0
call u (changes_password password) = has_password u password
call u (changes_api_key key) = has_api_key u key

pub stores : (u : User) (e : UserEvent) → (apply u e).events ≡ store_event u.events e
unfolding apply
stores u (user_registered id email password key at) = refl
stores u _ = refl

abbrev pub user_source : Source User UserEvent
user_source = record { apply = apply; events = λ u. u.events; stores = stores }

pub emitted : User → Call → List UserEvent
emitted u (changes_email requirement) =
    if not requirement.unique || u.email == requirement.email
    then []
    else user_email_changed u.id requirement.email ∷ []
emitted u (changes_password password) =
    if u.password == password then [] else user_password_changed u.id password ∷ []
emitted u (changes_api_key key) = if u.key == key then [] else user_api_key_changed u.id key ∷ []

user_call-emitted : (u : User) (c : Call) → Unit {0} → call u c ≡ replay user_source u (emitted u c)
unfolding call emitted replay has_email has_password has_api_key
user_call-emitted u (changes_email requirement) v = ground arith
user_call-emitted u (changes_password password) v = ground arith
user_call-emitted u (changes_api_key key) v = ground arith

created-IsRebuilt :
    (id : String) (e : EmailRequirement) (password key : String) (now : Time) (u : User)
    → new_user id e password key now ≡ ok u
    → replay user_source zero_user u.events ≡ u
unfolding new_user replay
created-IsRebuilt id e password key now u h = ground arith

-- Registered, and then changed by any calls at all, a user is exactly what the pending events rebuild
-- from nothing.
pub user_rebuilt :
    (id : String) (e : EmailRequirement) (password key : String) (now : Time) (u : User)
    (cs : List Call)
    → new_user id e password key now ≡ ok u
    → replay user_source zero_user (run call u cs).events ≡ run call u cs
user_rebuilt id e password key now u cs h =
    run-IsRebuilt user_source call emitted (λ x. Unit {0}) (λ x c v. tt) user_call-emitted zero_user
      u cs tt (created-IsRebuilt id e password key now u h)
