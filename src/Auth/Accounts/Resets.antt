-- ===== src/Auth/Accounts/Resets.antt =====
-- The properties of `reset_password_with_token` of auth/user.py.
use loobric_server.Base.{
  suc, ◌≡◌, refl, inl, inr, ap, ◌∙◌, String, true, false, none, some, find?-In, update_where,
  delete_where, In, arith, Bool-cases, str_eq, str_eq_iff, ltb,
}
use loobric_server.Base.Tables.{In-delete_where, find?-update_where, find?-all_false}
use loobric_server.Base.Exec.{ok, err, invalid_token, ◌>>=◌}
use loobric_server.Store.Unique.{unique_on-update_where, unique_on-delete_where}
use loobric_server.Auth.Users.{
  Accounts, UserRow, ResetRow, Bcrypt, columns_hold, commit_accounts, get_user_by_id,
  verify_password, hash_password, draw_token, with_password, matching_reset,
  reset_password_with_token,
}

-- bcrypt accepts the password that it hashed.
abbrev pub Checks : Bcrypt → Type 0
Checks bcrypt =
    (password random : String)
    → bcrypt.checkpw password (bcrypt.hashpw password (bcrypt.gensalt random)) ≡ some true

-- The token fits one stored hash at most.
abbrev pub FitsOne : Bcrypt → Accounts → String → Type 0
FitsOne bcrypt a token =
    (r t : ResetRow)
    → In r a.resets
    → In t a.resets
    → verify_password bcrypt token r.token_hash ≡ true
    → verify_password bcrypt token t.token_hash ≡ true
    → r ≡ t

module _ (bcrypt : Bcrypt) (a : Accounts) (token password : String) (row : ResetRow)
    (u : UserRow) where
  abbrev new_hash : String
  new_hash = bcrypt.hashpw password (bcrypt.gensalt (a.tokens a.drawn))

  -- The accounts after the token is used.
  abbrev used : Accounts
  used = record a {
    users = update_where (λ x. str_eq x.id u.id) (with_password new_hash) a.users;
    resets = delete_where (λ r. str_eq r.id row.id) a.resets;
    drawn = suc a.drawn;
  }

  used-holds : columns_hold a ≡ true → columns_hold used ≡ true
  unfolding columns_hold with_password
  used-holds h =
      let users =
        unique_on-update_where (λ (x : UserRow). some x.email) (λ x. str_eq x.id u.id)
          (with_password new_hash) (λ x. refl) a.users in
      let resets =
        unique_on-delete_where (λ (r : ResetRow). some r.token_hash) (λ r. str_eq r.id row.id)
          a.resets in
      ground (arith, users, resets)

  reset_ok :
      columns_hold a ≡ true
      → matching_reset bcrypt a token ≡ some row
      → ltb row.expires_at a.now ≡ false
      → get_user_by_id a row.user_id ≡ some u
      → reset_password_with_token bcrypt token password a ≡ (ok tt, used)
  unfolding reset_password_with_token hash_password draw_token commit_accounts ◌>>=◌
  reset_ok h m fresh found = rw (m, fresh, found) (rw (used-holds h) refl)

  used-none :
      FitsOne bcrypt a token
      → matching_reset bcrypt a token ≡ some row
      → matching_reset bcrypt used token ≡ none
  unfolding matching_reset
  used-none one m =
      let (i, t) = find?-In (λ r. verify_password bcrypt token r.token_hash) row a.resets m in
      find?-all_false (λ r. verify_password bcrypt token r.token_hash) used.resets
        (λ r j.
          let (k, differ) = In-delete_where (λ x. str_eq x.id row.id) r a.resets j in
          elim (Bool-cases (verify_password bcrypt token r.token_hash)) [
            | inr e ↦ e
            | inl e ↦
                ground
                  (arith, str_eq_iff r.id row.id, ap (λ (x : ResetRow). x.id) (one r row k i e t))
          ])

  used-found :
      get_user_by_id a row.user_id ≡ some u
      → get_user_by_id used row.user_id ≡ some (with_password new_hash u)
  unfolding get_user_by_id with_password
  used-found found =
      let hit = λ (x : UserRow). str_eq x.id row.user_id in
      find?-update_where hit (λ x. str_eq x.id u.id) (with_password new_hash) a.users
        (λ x i. ground arith)
      ∙ rw (found, (str_eq_iff u.id u.id).1 refl) refl

  fits_new :
      Checks bcrypt
      → verify_password bcrypt password (with_password new_hash u).password_hash ≡ true
  unfolding verify_password with_password
  fits_new checks = rw (checks password (a.tokens a.drawn), verify_password) refl

reset_refused :
    (bcrypt : Bcrypt) (a : Accounts) (token other : String)
    → matching_reset bcrypt a token ≡ none
    → reset_password_with_token bcrypt token other a ≡ (err invalid_token, a)
unfolding reset_password_with_token ◌>>=◌
reset_refused bcrypt a token other m = rw m refl

-- A token that fits one stored reset, not expired and of a user who exists, sets the password: the
-- user is found afterwards with a hash that accepts the new password, given that bcrypt accepts the
-- password that it hashed. The token then sets no other: a second request with it raises.
pub reset_password_with_token-once :
    (bcrypt : Bcrypt) (a : Accounts) (token password : String) (row : ResetRow) (u : UserRow)
    → Checks bcrypt
    → columns_hold a ≡ true
    → FitsOne bcrypt a token
    → matching_reset bcrypt a token ≡ some row
    → ltb row.expires_at a.now ≡ false
    → get_user_by_id a row.user_id ≡ some u
    → (a' : Accounts) × (u' : UserRow) × (reset_password_with_token bcrypt token password a
        ≡ (ok tt, a'))
      × (get_user_by_id a' row.user_id ≡ some u')
      × (verify_password bcrypt password u'.password_hash ≡ true)
      × ((other : String)
          → reset_password_with_token bcrypt token other a' ≡ (err invalid_token, a'))
reset_password_with_token-once bcrypt a token password row u checks h one m fresh found = (
  used bcrypt a token password row u,
  with_password (new_hash bcrypt a token password row u) u,
  reset_ok bcrypt a token password row u h m fresh found,
  used-found bcrypt a token password row u found,
  fits_new bcrypt a token password row u checks,
  λ other.
      reset_refused bcrypt (used bcrypt a token password row u) token other
        (used-none bcrypt a token password row u one m),
)
