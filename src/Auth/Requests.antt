-- ===== src/Auth/Requests.antt =====
-- api/auth.py: who a request acts as, registration, login and logout.
--
-- The environment and the settings are read from `Env`. Role columns, the cookie and the shape of a
-- response are left out. What a dependency stores in `request.state`, and gives the audit, is a
-- `Caller`.
pub mod Identity
pub mod Register
use loobric_server.Base.{
  ℕ, zero, suc, String, Bool, true, false, not, ◌&&◌, ◌||◌, Option, none, some, List, [], ◌∷◌,
  length, nat_eq, str_eq, delete_where, if◌then◌else◌,
}
use Prim.Native.Char.{code}
use loobric_server.Base.Dict.{string_eq}
use loobric_server.Base.Exec.{
  Exec, Result, ok, err, unauthorized, forbidden, bad_request, integrity_error, pure, raise, gets,
  modify, ◌>>=◌, ◌>>◌, or_raise,
}
use loobric_server.Auth.Doors.{Credential}
use loobric_server.Auth.Users.{
  UserRow, Accounts, Bcrypt, StrMethods, draw_token, get_user_by_email, create_user,
  authenticate_user, update_user, commit_accounts,
}
use loobric_server.Auth.Accounts.{
  Sessions, Validated, validate_api_key, create_session, get_session_user,
}

-- `os.getenv(...)` with "" for a variable that is not set, and `settings.auth_enabled`.
pub record Env : Type 0 where
  pub solo : String
  pub open_registration : String
  pub cookie_secure : String
  pub auth_enabled : Bool

-- The session cookie and the Authorization header.
pub record Request : Type 0 where
  pub session : Option String
  pub authorization : Option String

pub record Caller : Type 0 where
  pub auth_channel : Option String
  pub scopes : Option (List String)
  pub api_key_tags : Option (List String)
  pub api_key_id : Option String

-- What the doors read of it.
abbrev pub credential_of : Caller → Credential
credential_of c = record { auth_channel = c.auth_channel; scopes = c.scopes }

abbrev is_yes : String → Bool
is_yes t = str_eq t "1" || str_eq t "true" || str_eq t "yes"

abbrev is_no : String → Bool
is_no t = str_eq t "0" || str_eq t "false" || str_eq t "no"

abbrev starts_with : String → String → Bool
starts_with String.[] t = true
starts_with (String.◌∷◌ c p) String.[] = false
starts_with (String.◌∷◌ c p) (String.◌∷◌ d t) = nat_eq (code c) (code d) && starts_with p t

-- `t.replace("Bearer ", "")`: the number counts the characters that still go.
abbrev without_bearer : ℕ → String → String
without_bearer n String.[] = String.[]
without_bearer (suc n) (String.◌∷◌ c t) = without_bearer n t
without_bearer zero (String.◌∷◌ c t) = elim (starts_with "Bearer " (String.◌∷◌ c t)) [
  | true ↦ without_bearer 6 t
  | false ↦ String.◌∷◌ c (without_bearer 0 t)
]

-- The key in a header, if it is a Bearer header.
unfoldable pub bearer_key : Option String → Option String
bearer_key none = none
bearer_key (some h) = if starts_with "Bearer " h then some (without_bearer 0 h) else none

module _ (str : StrMethods) (bcrypt : Bcrypt) (env : Env) where
  unfoldable pub solo_mode_enabled : Bool
  solo_mode_enabled = is_yes (str.lower (str.strip env.solo))

  unfoldable pub open_registration_enabled : Bool
  open_registration_enabled = is_yes (str.lower (str.strip env.open_registration))

  -- `session_cookie_secure`, on whether the request came over https.
  unfoldable pub session_cookie_secure : Option Bool → Bool
  session_cookie_secure https =
      let raw = str.lower (str.strip env.cookie_secure) in
      if is_yes raw
      then true
      else if is_no raw
      then false
      else elim https [ none ↦ false | some b ↦ b ]

  -- `get_user_by_email`, and `create_user` on first use.
  unfoldable pub get_or_create : String → String → Exec Accounts UserRow
  get_or_create email password = do
    a ← gets (λ a. a)
    elim (get_user_by_email str a email) [
      | some u ↦ pure u
      | none ↦ create_user str bcrypt email password
    ]

  -- `get_solo_user`
  unfoldable pub get_solo_user : Exec Accounts UserRow
  get_solo_user = do
    a ← gets (λ a. a)
    elim (get_user_by_email str a "solo@localhost.loobric_server") [
      | some u ↦ pure u
      | none ↦ draw_token >>= create_user str bcrypt "solo@localhost.loobric_server"
    ]

  abbrev by_solo : Option (List String) → Caller
  by_solo scopes = record {
    auth_channel = some "solo";
    scopes = scopes;
    api_key_tags = none;
    api_key_id = none;
  }

  abbrev by_session : Caller
  by_session = record {
    auth_channel = some "session";
    scopes = some [];
    api_key_tags = none;
    api_key_id = none;
  }

  abbrev by_key : List String → List String → String → Caller
  by_key scopes tags key_id = record {
    auth_channel = some "api-key";
    scopes = some scopes;
    api_key_tags = some tags;
    api_key_id = some key_id;
  }

  abbrev nobody : Caller
  nobody = record { auth_channel = none; scopes = none; api_key_tags = none; api_key_id = none }

  abbrev key_holder : Option Validated → Option (UserRow × Caller)
  key_holder none = none
  key_holder (some (u, scopes, tags, key_id)) = some (u, by_key scopes tags key_id)

  abbrev holder_of : Accounts → Option String → Option (UserRow × Caller)
  holder_of a none = none
  holder_of a (some key) = key_holder (validate_api_key bcrypt a key)

  -- The session first, then the key: the same lines in `require_auth` and in `get_optional_user`.
  unfoldable pub presented : Sessions → Accounts → Request → Option (UserRow × Caller)
  presented sessions a req = elim (get_session_user sessions a req.session) [
    | some u ↦ some (u, by_session)
    | none ↦ holder_of a (bearer_key req.authorization)
  ]

  -- `require_auth`
  unfoldable pub require_auth : Sessions → Request → Exec Accounts (UserRow × Caller)
  require_auth sessions req =
      if solo_mode_enabled
      then (do u ← get_solo_user; pure (u, by_solo (some [])))
      else (do a ← gets (λ a. a); or_raise (presented sessions a req) unauthorized)

  -- The user of a server without authentication.
  unfoldable pub test_user : Exec Accounts (UserRow × Caller)
  test_user = do u ← get_or_create "test@example.com" "test-password-123"; pure (u, nobody)

  -- `get_authenticated_user`
  unfoldable pub get_authenticated_user : Sessions → Request → Exec Accounts (UserRow × Caller)
  get_authenticated_user sessions req =
      if solo_mode_enabled
      then (do u ← get_solo_user; pure (u, by_solo none))
      else if env.auth_enabled
      then require_auth sessions req
      else test_user

  -- `get_optional_user`
  unfoldable pub get_optional_user : Sessions → Request → Exec Accounts (Option (UserRow × Caller))
  get_optional_user sessions req =
      if solo_mode_enabled
      then (do u ← get_solo_user; pure (some (u, by_solo none)))
      else if not env.auth_enabled
      then (do c ← test_user; pure (some c))
      else gets (λ a. presented sessions a req)

  -- `except IntegrityError`, as a 400.
  unfoldable pub taken_as_400 : Exec Accounts UserRow → Exec Accounts UserRow
  taken_as_400 m a = let (r, a') = m a in (as_400 r, a')
    where
      as_400 : Result UserRow → Result UserRow
      as_400 (err integrity_error) = err bad_request
      as_400 r = r

  -- The first user is made an administrator.
  unfoldable pub create_account : Bool → String → String → Exec Accounts UserRow
  create_account is_first email password = do
    u ← create_user str bcrypt email password
    let u' : UserRow = if is_first then record u { is_admin = true } else u
    update_user u.id (λ _. u')
    commit_accounts
    pure u'

  -- The gate of a closed registration.
  unfoldable pub admit : Sessions → Request → Bool → Exec Accounts (Unit {0})
  admit sessions req is_first = if is_first || open_registration_enabled then pure tt else (do
    requester ← require_auth sessions req
    if requester.0.is_admin then pure tt else raise forbidden)

  -- `register`
  unfoldable pub register : Sessions → Request → String → String → Exec Accounts UserRow
  register sessions req email password = do
    is_first ← gets (λ a. nat_eq (length a.users) 0)
    admit sessions req is_first
    taken_as_400 (create_account is_first email password)

  -- `login`: the user, and the sessions with the new one.
  unfoldable pub login : Sessions → String → String → Exec Accounts (UserRow × Sessions)
  login sessions email password = do
    a ← gets (λ a. a)
    user ← or_raise (authenticate_user str bcrypt a email password) unauthorized
    session_id ← draw_token
    pure (user, create_session session_id user.id sessions)

  -- `logout`: an empty cookie is no cookie.
  unfoldable pub logout : Option String → Sessions → Sessions
  logout none sessions = sessions
  logout (some session_id) sessions =
      if str_eq session_id "" then sessions else delete_where (λ e. str_eq e.0 session_id) sessions
