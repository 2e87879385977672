-- ===== src/Auth/Keys.antt =====
-- api/auth.py: the endpoints on API keys and passwords.
--
-- A door has let the user through (Auth/Doors); the endpoints take the user's id.
pub mod Steps
pub mod ReadOnly
use loobric_server.Base.{
  ℕ, String, Bool, true, false, not, Option, none, some, List, [], ◌∷◌, every, str_eq, opt_is,
  if◌then◌else◌,
}
use loobric_server.Base.Exec.{
  Exec, Result, Error, ok, err, not_found, conflict, bad_request, value_error,
  authentication_failed, raise, gets, ◌>>=◌, or_raise,
}
use loobric_server.Auth.Doors.{doors, is_legacy, effective_doors, member}
use loobric_server.Auth.Users.{KeyRow, Accounts, Bcrypt, update_user_password}
use loobric_server.Auth.Accounts.{create_api_key, get_api_key_by_id, revoke_api_key, delete_api_key}
use loobric_server.Auth.Requests.{Caller}

-- `except ValueError`, as the given status.
unfoldable pub value_error_as : {A : Type 0} → Error → Exec Accounts A → Exec Accounts A
value_error_as e m a = let (r, a') = m a in (recast r, a')
  where
    recast : {A : Type 0} → Result A → Result A
    recast (err value_error) = err e
    recast r = r

-- `requested and requested.issubset(DOORS)`
abbrev are_doors : List String → Bool
are_doors [] = false
are_doors (d ∷ ds) = every (λ x. member x doors) (d ∷ ds)

-- `create_key`, which answers with the plain key.
unfoldable pub create_key :
    Bcrypt → String → String → List String → List String → Option ℕ → Exec Accounts String
create_key bcrypt user_id name scopes tags expires_at =
    if not (are_doors scopes)
    then raise bad_request
    else value_error_as bad_request (create_api_key bcrypt user_id name scopes tags expires_at)

-- `revoke_key`
unfoldable pub revoke_key : String → String → Bool → Exec Accounts (Unit {0})
revoke_key user_id key_id purge = do
  a ← gets (λ a. a)
  api_key ← or_raise (get_api_key_by_id a key_id) not_found
  if not (str_eq api_key.user_id user_id)
      then raise not_found
      else if not purge
      then value_error_as not_found (revoke_api_key key_id)
      else if api_key.is_active
      then raise conflict
      else value_error_as not_found (delete_api_key key_id)

-- `change_password`
unfoldable pub change_password : Bcrypt → String → String → String → Exec Accounts (Unit {0})
change_password bcrypt user_id current_password new_password a =
    let (r, a') = update_user_password bcrypt user_id current_password new_password a in
    (as_400 r, a')
  where
    as_400 : Result (Unit {0}) → Result (Unit {0})
    as_400 (err authentication_failed) = err bad_request
    as_400 r = r

-- What `introspect_key` answers about a credential.
pub record KeyInfo : Type 0 where
  pub channel : Option String
  pub api_key_id : Option String
  pub name : Option String
  pub scopes : Option (List String)
  pub read_only : Bool
  pub legacy : Bool

-- `introspect_key`, without the user; `sorted` of a set is a parameter.
unfoldable pub introspect_key : (List String → List String) → Accounts → Caller → KeyInfo
introspect_key sorted a c =
    if opt_is c.auth_channel "api-key"
    then record {
      channel = c.auth_channel;
      api_key_id = c.api_key_id;
      name = key_name c.api_key_id;
      scopes = some (sorted held);
      read_only = every (λ d. str_eq d "read") held;
      legacy = is_legacy c.scopes;
    }
    else record {
      channel = c.auth_channel;
      api_key_id = none;
      name = none;
      scopes = none;
      read_only = false;
      legacy = false;
    }
  where
    held : List String
    held = effective_doors c.scopes

    name_of : Option KeyRow → Option String
    name_of none = none
    name_of (some k) = some k.name

    key_name : Option String → Option String
    key_name none = none
    key_name (some id) = if str_eq id "" then none else name_of (get_api_key_by_id a id)
