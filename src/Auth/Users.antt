-- ===== src/Auth/Users.antt =====
-- auth/user.py and auth/password.py: users, their passwords and reset tokens, and the tables.
--
-- bcrypt, the text functions of Python's `str` and the random source are parameters. `tokens n` is
-- what the n-th call of `secrets.token_urlsafe` or `uuid4` gives. Times are numbers; a stored time
-- is UTC. `commit` checks the UNIQUE columns.
use loobric_server.Base.{
  ℕ, suc, ◌+◌, String, Bool, true, false, not, ◌&&◌, Option, none, some, List, [], ◌∷◌, ◌++◌, find?,
  update_where, delete_where, length, ltb, nat_eq, str_eq, if◌then◌else◌,
}
use loobric_server.Base.Dict.{string_eq}
use loobric_server.Base.Exec.{
  Exec, value_error, integrity_error, authentication_failed, invalid_token, pure, raise, gets,
  modify, ◌>>=◌, ◌>>◌, or_raise,
}
use loobric_server.Store.{unique_on}

pub record UserRow : Type 0 where
  pub id : String
  pub email : String
  pub password_hash : String
  pub is_active : Bool
  pub is_admin : Bool
  pub version : ℕ

pub record KeyRow : Type 0 where
  pub id : String
  pub user_id : String
  pub name : String
  pub key_hash : String
  pub scopes : List String
  pub tags : List String
  pub expires_at : Option ℕ
  pub is_active : Bool
  pub version : ℕ

pub record ResetRow : Type 0 where
  pub id : String
  pub user_id : String
  pub token_hash : String
  pub expires_at : ℕ

pub record Accounts : Type 0 where
  pub users : List UserRow
  pub keys : List KeyRow
  pub resets : List ResetRow
  pub tokens : ℕ → String
  pub drawn : ℕ
  pub now : ℕ

-- The bcrypt package: a salt, a hash, and a check that may raise.
pub record Bcrypt : Type 0 where
  pub gensalt : String → String
  pub hashpw : String → String → String
  pub checkpw : String → String → Option Bool

unfoldable pub verify_password : Bcrypt → String → String → Bool
verify_password bcrypt password password_hash = elim (bcrypt.checkpw password password_hash) [
  | none ↦ false
  | some b ↦ b
]

-- A new random text.
unfoldable pub draw_token : Exec Accounts String
draw_token = do
  t ← gets (λ a. a.tokens a.drawn)
  modify (λ a. record a { drawn = suc a.drawn })
  pure t

unfoldable pub hash_password : Bcrypt → String → Exec Accounts String
hash_password bcrypt password = do
  random ← draw_token
  pure (bcrypt.hashpw password (bcrypt.gensalt random))

-- The UNIQUE columns.
unfoldable pub columns_hold : Accounts → Bool
unfolding unique_on
columns_hold a =
    unique_on (λ (u : UserRow). some u.email) a.users
    && unique_on (λ (k : KeyRow). some k.key_hash) a.keys
    && unique_on (λ (r : ResetRow). some r.token_hash) a.resets

-- `session.commit()`
unfoldable pub commit_accounts : Exec Accounts (Unit {0})
commit_accounts = do holds ← gets columns_hold; if holds then pure tt else raise integrity_error

-- `session.get(User, user_id)`
unfoldable pub get_user_by_id : Accounts → String → Option UserRow
get_user_by_id a user_id = find? (λ u. str_eq u.id user_id) a.users

abbrev pub new_user : String → String → String → Bool → UserRow
new_user id email password_hash is_admin = record {
  id = id;
  email = email;
  password_hash = password_hash;
  is_active = true;
  is_admin = is_admin;
  version = 1;
}

-- The methods of `str` that the source calls.
pub record StrMethods : Type 0 where
  pub lower : String → String
  pub strip : String → String

unfoldable pub get_user_by_email : StrMethods → Accounts → String → Option UserRow
get_user_by_email str a email = find? (λ u. str_eq u.email (str.strip (str.lower email))) a.users

unfoldable pub create_user : StrMethods → Bcrypt → String → String → Exec Accounts UserRow
create_user str bcrypt email password = do
  password_hash ← hash_password bcrypt password
  a ← gets (λ a. a)
  id ← draw_token
  let user = new_user id (str.lower email) password_hash (nat_eq (length a.users) 0)
  modify (λ a. record a { users = a.users ++ user ∷ [] })
  commit_accounts
  pure user

abbrev pub checked : Bcrypt → String → Option UserRow → Option UserRow
checked bcrypt password none = none
checked bcrypt password (some u) =
    if not u.is_active
    then none
    else if not (verify_password bcrypt password u.password_hash)
    then none
    else some u

unfoldable pub authenticate_user : StrMethods → Bcrypt → Accounts → String → String → Option UserRow
authenticate_user str bcrypt a email password =
    checked bcrypt password (get_user_by_email str a email)

abbrev pub update_user : String → (UserRow → UserRow) → Exec Accounts (Unit {0})
update_user id f = modify (λ a. record a { users = update_where (λ u. str_eq u.id id) f a.users })

unfoldable pub with_password : String → UserRow → UserRow
with_password password_hash u = record u { password_hash = password_hash; version = suc u.version }

unfoldable pub update_user_password : Bcrypt → String → String → String → Exec Accounts (Unit {0})
update_user_password bcrypt user_id old_password new_password = do
  a ← gets (λ a. a)
  user ← or_raise (get_user_by_id a user_id) value_error
  if not (verify_password bcrypt old_password user.password_hash)
      then raise authentication_failed
      else do
        password_hash ← hash_password bcrypt new_password
        update_user user.id (with_password password_hash)
        commit_accounts

unfoldable pub inactive_user : UserRow → UserRow
inactive_user u = record u { is_active = false; version = suc u.version }

unfoldable pub deactivate_user : String → Exec Accounts (Unit {0})
deactivate_user user_id = do
  a ← gets (λ a. a)
  user ← or_raise (get_user_by_id a user_id) value_error
  update_user user.id inactive_user
  commit_accounts

-- Seconds in `timedelta(hours=1)`.
abbrev pub one_hour : ℕ
one_hour = 3600

unfoldable pub create_password_reset_token : Bcrypt → String → Exec Accounts String
create_password_reset_token bcrypt user_id = do
  a ← gets (λ a. a)
  user ← or_raise (get_user_by_id a user_id) value_error
  token ← draw_token
  token_hash ← hash_password bcrypt token
  id ← draw_token
  modify (λ a. record a {
    resets =
        a.resets
        ++ record {
          id = id;
          user_id = user_id;
          token_hash = token_hash;
          expires_at = a.now + one_hour;
        }
          ∷ [];
  })
  commit_accounts
  pure token

unfoldable pub matching_reset : Bcrypt → Accounts → String → Option ResetRow
matching_reset bcrypt a token = find? (λ r. verify_password bcrypt token r.token_hash) a.resets

abbrev pub delete_reset : String → Exec Accounts (Unit {0})
delete_reset id = modify (λ a. record a { resets = delete_where (λ r. str_eq r.id id) a.resets })

unfoldable pub reset_password_with_token : Bcrypt → String → String → Exec Accounts (Unit {0})
reset_password_with_token bcrypt token new_password = do
  a ← gets (λ a. a)
  reset ← or_raise (matching_reset bcrypt a token) invalid_token
  if ltb reset.expires_at a.now
      then (do delete_reset reset.id; commit_accounts; raise invalid_token)
      else (do
        user ← or_raise (get_user_by_id a reset.user_id) value_error
        password_hash ← hash_password bcrypt new_password
        update_user user.id (with_password password_hash)
        delete_reset reset.id
        commit_accounts)
