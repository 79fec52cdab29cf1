-- ===== src/Handlers/Users/Access.antt =====
-- Who is let in by `login`.
use seelf.Prelude.{
  String, ◌≡◌, ap, Option, none, some, ◌↔◌, arith, ok, err, Error, Option-cases, ◌⊎◌, inl, inr, ◌∙◌,
  string_eq,
}
use seelf.Pkg.Table.{find}
use seelf.Pkg.Validate.{value_target}
use seelf.Store.Users.{UserRow, Users, row_email, get_by_email, user_from, found}
use seelf.Handlers.Users.{
  Login, login_handler, validate_login, email_from, invalid_login, check_password,
}

module _ (parse_address : String → Option String) (compare : String → String → Option Error) where
  -- The row of the email, whose hash the password fits.
  pub record Fits (rows : Users) (email password id : String) : Type 0 where
    pub row : UserRow
    pub known : find row_email email rows ≡ some row
    pub accepted : compare password row.password_hash ≡ none
    pub same : row.id ≡ id

  passes :
      (rows : Users) (cmd : Login)
      → validate_login parse_address cmd ≡ none
      → login_handler parse_address compare rows cmd
        ≡ check_password compare cmd.password
            (found (find row_email (value_target "" (email_from parse_address cmd.email)) rows))
  unfolding login_handler get_by_email
  passes rows cmd valid = ground (arith, valid)

  answer :
      (password : String) (row : UserRow) (o : Option Error)
      → compare password row.password_hash ≡ o
      → check_password compare password (found (some row))
        ≡ (elim o [ some _ ↦ err invalid_login | none ↦ ok row.id ])
  unfolding user_from
  answer password row none h = ground (arith, h)
  answer password row (some e) h = ground (arith, h)

  -- A login that passes the validation returns exactly the id of the first row of the email, if the
  -- password fits its hash; every other answer is one error, whether the email is known or not.
  pub login_lem :
      (rows : Users) (cmd : Login) (id : String)
      → validate_login parse_address cmd ≡ none
      → ((login_handler parse_address compare rows cmd ≡ ok id)
          ↔ Fits rows (value_target "" (email_from parse_address cmd.email)) cmd.password id)
        × ((login_handler parse_address compare rows cmd ≡ err invalid_login)
            ⊎ ((other : String) × (login_handler parse_address compare rows cmd ≡ ok other)))
  login_lem rows cmd id valid =
      let email = value_target "" (email_from parse_address cmd.email) in
      let start = passes rows cmd valid in
      elim (Option-cases (find row_email email rows)) [
        | inl gone ↦
            let result : login_handler parse_address compare rows cmd ≡ err invalid_login =
              start ∙ ap (λ o. check_password compare cmd.password (found o)) gone in
            (
              (
                λ h. absurd (ground (arith, h, result)),
                λ fits. absurd (ground (arith, fits.known, gone)),
              ),
              inl result,
            )
        | inr (row, known) ↦
            let next = start ∙ ap (λ o. check_password compare cmd.password (found o)) known in
            elim (Option-cases (compare cmd.password row.password_hash)) [
              | inl accepted ↦
                  let result = next ∙ answer cmd.password row none accepted in
                  (
                    (
                      λ h. record {
                        row = row;
                        known = known;
                        accepted = accepted;
                        same = ground (arith, h, result);
                      },
                      λ fits. result ∙ ap ok (ground (arith, fits.known, known, fits.same)),
                    ),
                    inr (row.id, result),
                  )
              | inr (x, refused) ↦
                  let result = next ∙ answer cmd.password row (some x) refused in
                  (
                    (
                      λ h. absurd (ground (arith, h, result)),
                      λ fits. absurd (ground (arith, fits.known, fits.accepted, known, refused)),
                    ),
                    inl result,
                  )
            ]
      ]
