-- ===== src/Auth/Accounts.antt =====
-- auth/apikey.py and the sessions of api/auth.py: the credentials of an account, and how each is
-- checked.
pub mod Credentials
pub mod Revoked
pub mod Resets
use loobric_server.Base.{
  ℕ, suc, ◌+◌, String, Bool, true, false, not, ◌&&◌, Option, none, some, List, [], ◌∷◌, ◌++◌,
  filter, find?, update_where, delete_where, ltb, str_eq, if◌then◌else◌,
}
use loobric_server.Base.Dict.{Dict, lookup, insert, string_eq}
use loobric_server.Base.Exec.{Exec, value_error, pure, raise, gets, modify, ◌>>=◌, ◌>>◌, or_raise}
use loobric_server.Auth.Users.{
  UserRow, KeyRow, Accounts, Bcrypt, verify_password, draw_token, hash_password, commit_accounts,
  get_user_by_id,
}

unfoldable pub create_api_key :
    Bcrypt → String → String → List String → List String → Option ℕ → Exec Accounts String
create_api_key bcrypt user_id name scopes tags expires_at = do
  a ← gets (λ a. a)
  user ← or_raise (get_user_by_id a user_id) value_error
  plain_key ← draw_token
  key_hash ← hash_password bcrypt plain_key
  id ← draw_token
  modify (λ a. record a { keys = a.keys ++ new_key id key_hash ∷ [] })
  commit_accounts
  pure plain_key
  where
    new_key : String → String → KeyRow
    new_key id key_hash = record {
      id = id;
      user_id = user_id;
      name = name;
      key_hash = key_hash;
      scopes = scopes;
      tags = tags;
      expires_at = expires_at;
      is_active = true;
      version = 1;
    }

-- `User`, its scopes and its tags, and the key's id.
abbrev pub Validated : Type 0
Validated = UserRow × List String × List String × String

abbrev pub is_expired : ℕ → Option ℕ → Bool
is_expired now none = false
is_expired now (some t) = ltb t now

abbrev pub of_user : KeyRow → Option UserRow → Option Validated
of_user k none = none
of_user k (some u) = if not u.is_active then none else some (u, k.scopes, k.tags, k.id)

abbrev pub of_key : Accounts → Option KeyRow → Option Validated
of_key a none = none
of_key a (some k) =
    if is_expired a.now k.expires_at then none else of_user k (get_user_by_id a k.user_id)

unfoldable pub matching_key : Bcrypt → Accounts → String → Option KeyRow
matching_key bcrypt a plain_key =
    find? (λ k. verify_password bcrypt plain_key k.key_hash)
      (filter (λ (k : KeyRow). k.is_active) a.keys)

unfoldable pub validate_api_key : Bcrypt → Accounts → String → Option Validated
validate_api_key bcrypt a plain_key = of_key a (matching_key bcrypt a plain_key)

-- `ORDER BY created_at DESC` is a parameter.
unfoldable pub list_user_api_keys : (List KeyRow → List KeyRow) → Accounts → String → List KeyRow
list_user_api_keys newest_first a user_id =
    newest_first (filter (λ (k : KeyRow). str_eq k.user_id user_id) a.keys)

unfoldable pub get_api_key_by_id : Accounts → String → Option KeyRow
get_api_key_by_id a key_id = find? (λ (k : KeyRow). str_eq k.id key_id) a.keys

unfoldable pub revoked : KeyRow → KeyRow
revoked k = record k { is_active = false; version = suc k.version }

unfoldable pub revoke_api_key : String → Exec Accounts (Unit {0})
revoke_api_key key_id = do
  a ← gets (λ a. a)
  key ← or_raise (get_api_key_by_id a key_id) value_error
  modify (λ a. record a { keys = update_where (λ (k : KeyRow). str_eq k.id key.id) revoked a.keys })
  commit_accounts

unfoldable pub delete_api_key : String → Exec Accounts (Unit {0})
delete_api_key key_id = do
  a ← gets (λ a. a)
  key ← or_raise (get_api_key_by_id a key_id) value_error
  modify (λ a. record a { keys = delete_where (λ (k : KeyRow). str_eq k.id key.id) a.keys })
  commit_accounts

-- `_sessions`: the id of a session with the id of its user.
abbrev pub Sessions : Type 0
Sessions = Dict String String

unfoldable pub create_session : String → String → Sessions → Sessions
create_session session_id user_id sessions = insert session_id user_id sessions

abbrev pub user_of_session : Accounts → Option String → Option UserRow
user_of_session a none = none
user_of_session a (some user_id) = if str_eq user_id "" then none else get_user_by_id a user_id

unfoldable pub get_session_user : Sessions → Accounts → Option String → Option UserRow
get_session_user sessions a none = none
get_session_user sessions a (some session_id) =
    if str_eq session_id "" then none else user_of_session a (lookup session_id sessions)
