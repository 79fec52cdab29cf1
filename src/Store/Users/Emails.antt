-- ===== src/Store/Users/Emails.antt =====
-- The emails of the table of users under the statements.
use seelf.Prelude.{
  String, ◌≡◌, refl, true, Option, List, [], ◌∷◌, string_eq, arith, All, ok, Error, any, subst, sym,
}
use seelf.Pkg.Table.{update}
use seelf.Pkg.Table.Unique.{Only, IsUnique, update-IsUnique, update-Only, set-Only, set-IsUnique}
use seelf.Auth.User.{
  UserEvent, user_registered, user_email_changed, user_password_changed, user_api_key_changed,
}
use seelf.Store.Users.{
  UserRow, Users, row_id, row_email, statement, check_email_availability, write,
}

-- No two users have one email.
abbrev pub EmailsUnique : Users → Type 0
EmailsUnique rows = IsUnique row_id row_email rows

-- What the check says of the rows.
pub free_for :
    (rows : Users) (email id : String)
    → (check_email_availability rows email (id ∷ [])).unique ≡ true
    → Only row_id row_email email id rows
unfolding check_email_availability any
free_for [] email id h = tt
free_for (r ∷ rows) email id h =
    (λ same. ground (arith, h, same), free_for rows email id (ground (arith, h)))

-- An event of the user of an id that gives it no other email than `v`.
abbrev pub Keeps : String → String → UserEvent → Type 0
Keeps v k (user_registered id email password key registered_at) = ⊥
Keeps v k (user_email_changed id email) = (id ≡ k) × (email ≡ v)
Keeps v k (user_password_changed id password) = Unit
Keeps v k (user_api_key_changed id key) = Unit

-- Unique emails, of which `v` is at most the one of `k`.
pub record Free (v k : String) (rows : Users) : Type 0 where
  pub unique : EmailsUnique rows
  pub only : Only row_id row_email v k rows

update-Free :
    (v k id : String) (f : UserRow → UserRow) (rows : Users)
    → ((r : UserRow) → (f r).id ≡ r.id)
    → ((r : UserRow) → (f r).email ≡ r.email)
    → Free v k rows
    → Free v k (update row_id id f rows)
update-Free v k id f rows keys emails w = record {
  unique = update-IsUnique row_id row_email id f keys rows emails w.unique;
  only = update-Only row_id row_email id f keys v k rows emails w.only;
}

statement-Free :
    (v k : String) (rows : Users) (e : UserEvent)
    → Keeps v k e
    → Free v k rows
    → Free v k (statement rows e)
unfolding statement
statement-Free v k rows (user_registered id email password key registered_at) never w = absurd never
statement-Free v k rows (user_email_changed id email) (same, value) w =
    let f : UserRow → UserRow = λ r. record r { email = email } in
    let at_k : Free v k (update row_id k f rows) = record {
      unique = set-IsUnique row_id row_email k f (λ r. refl) v rows (λ r. value) w.only w.unique;
      only = set-Only row_id row_email k f (λ r. refl) v rows w.only;
    } in
    subst (λ i. Free v k (update row_id i f rows)) (sym same) at_k
statement-Free v k rows (user_password_changed id password) _ w =
    update-Free v k id _ rows (λ r. refl) (λ r. refl) w
statement-Free v k rows (user_api_key_changed id key) _ w =
    update-Free v k id _ rows (λ r. refl) (λ r. refl) w

module _ (engine : Users → Option Error) where
  pub write-Free :
      (v k : String) (rows rows' : Users) (es : List UserEvent)
      → All (Keeps v k) es
      → Free v k rows
      → write engine rows es ≡ ok rows'
      → Free v k rows'
  unfolding write
  write-Free v k rows rows' [] _ w h = subst (Free v k) (ground (arith, h)) w
  write-Free v k rows rows' (e ∷ es) (keeps, rest) w h =
      write-Free v k (statement rows e) rows' es rest (statement-Free v k rows e keeps w)
        (ground (arith, h))
