-- ===== src/Handlers/Users/Unique.antt =====
-- Commands on users and the emails of the table.
use seelf.Prelude.{
  String, ◌≡◌, refl, sym, ◌∙◌, true, Option, none, some, List, [], ◌∷◌, ◌++◌, arith, string_eq, All,
  All-append, Result, ok, Error, bind-ok, unless-ok, checked, Option-cases, Bool-cases, subst, inl,
  inr, String-discrete,
}
use seelf.Pkg.Table.{find, key-find}
use seelf.Pkg.Table.Unique.{Only, Only-find}
use seelf.Pkg.Validate.{value_target}
use seelf.Auth.User.{
  User, UserEvent, user_registered, user_email_changed, user_password_changed, user_api_key_changed,
  EmailRequirement, email_met, email_error, has_email, has_password, apply,
}
use seelf.Store.Users.{
  UserRow, Users, row_id, row_email, get_by_id, check_email_availability, write, user_from,
}
use seelf.Store.Users.Emails.{EmailsUnique, free_for, Keeps, Free, write-Free}
use seelf.Handlers.Users.{
  UpdateUser, wrapped_in, email_from, validate_update, change_email, change_password,
  update_user_handler,
}

-- The events of a user that does not leave its id.
record Tame (v k : String) (u : User) : Type 0 where
  id : u.id ≡ k
  events : All (Keeps v k) u.events

events-apply : (u : User) (e : UserEvent) → (apply u e).events ≡ u.events ++ (e ∷ [])
unfolding apply
events-apply u (user_registered id email password key registered_at) = refl
events-apply u (user_email_changed id email) = refl
events-apply u (user_password_changed id password) = refl
events-apply u (user_api_key_changed id key) = refl

apply-Tame :
    (v k : String) (u : User) (e : UserEvent)
    → (apply u e).id ≡ u.id
    → (u.id ≡ k → Keeps v k e)
    → Tame v k u
    → Tame v k (apply u e)
apply-Tame v k u e same keeps t = record {
  id = same ∙ t.id;
  events =
      subst (All (Keeps v k)) (sym (events-apply u e))
        (All-append (Keeps v k) u.events (e ∷ []) t.events (keeps t.id, tt));
}

has_password-Tame :
    (v k : String) (u : User) (h : String) → Tame v k u → Tame v k (has_password u h)
unfolding has_password apply
has_password-Tame v k u h t = elim (String-discrete u.password h) [
  | yes same ↦ subst (Tame v k) (ground (arith, same)) t
  | no other ↦
      subst (Tame v k) (ground (arith, other))
        (apply-Tame v k u (user_password_changed u.id h) refl (λ _. tt) t)
]

has_email-Tame :
    (k : String) (u : User) (q : EmailRequirement)
    → (has_email u q).1 ≡ none
    → Tame q.email k u
    → (q.unique ≡ true) × Tame q.email k (has_email u q).0
unfolding has_email email_met email_error apply
has_email-Tame k u q fine t =
    let new =
      apply-Tame q.email k u (user_email_changed u.id q.email) refl (λ same. (same, refl)) t in
    elim (Bool-cases q.unique) [
      | inl free ↦ elim (String-discrete u.email q.email) [
        | yes same ↦ (free, subst (Tame q.email k) (ground (arith, free, same)) t)
        | no other ↦ (free, subst (Tame q.email k) (ground (arith, free, other)) new)
      ]
      | inr taken ↦ absurd (ground (arith, taken, fine))
    ]

wrapped_in-ok :
    (fields : List String) (called : User × Option Error) (u : User)
    → checked (wrapped_in fields called) ≡ ok u
    → (called.1 ≡ none) × (called.0 ≡ u)
wrapped_in-ok fields (a, none) u h = (refl, cc)
wrapped_in-ok fields (a, some e) u h = absurd (cc)

module _ (parse_address : String → Option String) (hash : String → Result String)
    (engine : Users → Option Error) where
  -- The email that a command gives is at most this user's.
  change_email-Free :
      (rows : Users) (row : UserRow) (u changed : User) (k : String) (mail : Option String)
      → EmailsUnique rows
      → find row_id k rows ≡ some row
      → ((v : String) → Tame v k u)
      → change_email parse_address hash engine rows u mail ≡ ok changed
      → (v : String) × Free v k rows × Tame v k changed
  unfolding change_email
  change_email-Free rows row u changed k none w known t h =
      let is_k = key-find row_id k rows row known in
      (
        row.email,
        record {
          unique = w;
          only =
              subst (λ j. Only row_id row_email row.email j rows) is_k
                (Only-find row_id row_email k rows row w known);
        },
        subst (Tame row.email k) (ground (arith, h)) (t row.email),
      )
  change_email-Free rows row u changed k (some mail) w known t h =
      let email = value_target "" (email_from parse_address mail) in
      let q = check_email_availability rows email (u.id ∷ []) in
      let (fine, same) = wrapped_in-ok ("email" ∷ []) (has_email u q) changed h in
      let (free, tame) = has_email-Tame k u q fine (t email) in
      (
        email,
        record {
          unique = w;
          only =
              subst (λ j. Only row_id row_email email j rows) (t email).id
                (free_for rows email u.id free);
        },
        subst (Tame email k) same tame,
      )

  change_password-Tame :
      (v k : String) (u changed : User) (password : Option String)
      → Tame v k u
      → change_password parse_address hash engine u password ≡ ok changed
      → Tame v k changed
  unfolding change_password
  change_password-Tame v k u changed none t h = subst (Tame v k) (ground (arith, h)) t
  change_password-Tame v k u changed (some password) t h =
      let (hashed, _, same) = bind-ok (hash password) _ h in
      subst (Tame v k) (ground (arith, same)) (has_password-Tame v k u hashed t)

  -- Updating a user leaves no two users with one email, if there were none.
  pub update_user-EmailsUnique :
      (rows rows' : Users) (cmd : UpdateUser) (id : String)
      → EmailsUnique rows
      → update_user_handler parse_address hash engine rows cmd ≡ ok (rows', id)
      → EmailsUnique rows'
  unfolding update_user_handler get_by_id user_from
  update_user-EmailsUnique rows rows' cmd id w h =
      let (_, h1) = unless-ok (validate_update parse_address cmd) _ (rows', id) h in
      let (u, got, h2) = bind-ok (get_by_id rows cmd.id) _ h1 in
      let (u1, change, h3) =
        bind-ok (change_email parse_address hash engine rows u cmd.email) _ h2 in
      let (u2, change2, h4) =
        bind-ok (change_password parse_address hash engine u1 cmd.password) _ h3 in
      let (written, stored, h5) = bind-ok (write engine rows u2.events) _ h4 in
      elim (Option-cases (find row_id cmd.id rows)) [
        | inl gone ↦ absurd (ground (arith, got, gone))
        | inr (row, known) ↦
            let same : user_from row ≡ u = ground (arith, got, known) in
            let fresh : (v : String) → Tame v cmd.id u = λ v.
              subst (Tame v cmd.id) same
                (record { id = key-find row_id cmd.id rows row known; events = tt }) in
            let (v, free, tame) =
              change_email-Free rows row u u1 cmd.id cmd.email w known fresh change in
            let end : written ≡ rows' = ground (arith, h5) in
            subst EmailsUnique end
              (write-Free engine v cmd.id rows written u2.events
                (change_password-Tame v cmd.id u1 u2 cmd.password tame change2).events free
                stored).unique
      ]
