-- ===== src/Auth/Accounts/Credentials.antt =====
-- Registration and login: `create_user` and `authenticate_user` of auth/user.py.
use loobric_server.Base.{
  suc, ◌≡◌, refl, ◌≢◌, ap, sym, ◌∙◌, String, Bool, true, false, some, some_inj, List, [], ◌∷◌, ◌++◌,
  length, nat_eq, In, arith, str_eq, str_eq_iff, if◌then◌else◌,
}
use loobric_server.Base.Tables.{find?-append, find?-all_false}
use loobric_server.Base.Exec.{ok, err, integrity_error, ◌>>=◌}
use loobric_server.Store.Unique.{unique_on-append, unique_on-clash}
use loobric_server.Store.{unique_on}
use loobric_server.Auth.Users.{
  Accounts, UserRow, Bcrypt, StrMethods, new_user, columns_hold, commit_accounts, verify_password,
  hash_password, draw_token, create_user, get_user_by_email, authenticate_user,
}
use loobric_server.Auth.Accounts.Resets.{Checks}

module _ (str : StrMethods) (bcrypt : Bcrypt) (a : Accounts) (email password : String) where
  -- The row of the new user.
  abbrev registered : UserRow
  registered =
      new_user (a.tokens (suc a.drawn)) (str.lower email)
        (bcrypt.hashpw password (bcrypt.gensalt (a.tokens a.drawn))) (nat_eq (length a.users) 0)

  abbrev after : Accounts
  after = record a { users = a.users ++ registered ∷ []; drawn = suc (suc a.drawn) }

  create_user_run :
      (holds : Bool)
      → columns_hold after ≡ holds
      → create_user str bcrypt email password a
        ≡ (if holds then ok registered else err integrity_error, after)
  unfolding create_user hash_password draw_token commit_accounts ◌>>=◌
  create_user_run true h = rw h refl
  create_user_run false h = rw h refl

-- Over accounts whose UNIQUE columns hold and with an email that no account has, `create_user`
-- returns an active user, who is an admin exactly when there was no account before; logging in with
-- that email and password, or with any spelling of the email that lowers and strips to the same
-- text, gives that user. `strip` leaves the lowered email alone, and bcrypt accepts the password
-- that it hashed.
pub create_user-authenticate :
    (str : StrMethods) (bcrypt : Bcrypt) (a : Accounts) (email password : String)
    → Checks bcrypt
    → columns_hold a ≡ true
    → ((u : UserRow) → In u a.users → u.email ≢ str.lower email)
    → (a' : Accounts) × (u : UserRow) × (create_user str bcrypt email password a ≡ (ok u, a'))
      × (u.is_active ≡ true)
      × ((u.is_admin ≡ true → a.users ≡ []) × (a.users ≡ [] → u.is_admin ≡ true))
      × ((spelling : String)
          → str.strip (str.lower spelling) ≡ str.lower email
          → authenticate_user str bcrypt a' spelling password ≡ some u)
unfolding columns_hold authenticate_user get_user_by_email verify_password
create_user-authenticate str bcrypt a email password checks h new =
    let u = registered str bcrypt a email password in
    let a' = after str bcrypt a email password in
    let unique : unique_on (λ (x : UserRow). some x.email) a'.users ≡ true =
      unique_on-append (λ (x : UserRow). some x.email) u a.users (ground arith)
        (λ x k i e q. new x i (some_inj (e ∙ sym q))) in
    let holds : columns_hold a' ≡ true = ground arith in
    (
      a',
      u,
      create_user_run str bcrypt a email password true holds,
      refl,
      (λ n. none_before a.users n, λ e. rw e refl),
      λ spelling same.
          rw
            (
              same,
              find?-append (λ x. str_eq x.email (str.lower email)) a.users (u ∷ []),
              find?-all_false (λ (x : UserRow). str_eq x.email (str.lower email)) a.users
                  (λ x i. differ x (new x i)),
              (str_eq_iff (str.lower email) (str.lower email)).1 refl,
            )
            (rw (checks password (a.tokens a.drawn), verify_password) refl),
    )
  where
    differ : (x : UserRow) → x.email ≢ str.lower email → str_eq x.email (str.lower email) ≡ false
    differ x ne = ground (arith, str_eq_iff x.email (str.lower email))

    none_before : (users : List UserRow) → nat_eq (length users) 0 ≡ true → users ≡ []
    none_before [] n = refl
    none_before (x ∷ xs) n = ground arith

-- With an email that an account has already, `create_user` raises the IntegrityError of the column.
pub create_user-taken :
    (str : StrMethods) (bcrypt : Bcrypt) (a : Accounts) (email password : String) (u : UserRow)
    → In u a.users
    → u.email ≡ str.lower email
    → (create_user str bcrypt email password a).0 ≡ err integrity_error
unfolding columns_hold
create_user-taken str bcrypt a email password u i e =
    let v = registered str bcrypt a email password in
    let clash =
      unique_on-clash (λ (x : UserRow). some x.email) (str.lower email) u v a.users i
        (ap (λ x. some x) e) refl in
    let fails : columns_hold (after str bcrypt a email password) ≡ false = ground arith in
    rw (create_user_run str bcrypt a email password false fails) refl
