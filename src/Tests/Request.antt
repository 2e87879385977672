-- ===== src/Tests/Request.antt =====
-- Requests with the cookie and with the key of `ann`.
use loobric_server.Base.{
  ◌≡◌, ◌⊎◌, refl, ◌≢◌, ◌↔◌, inl, inr, String, true, false, none, some, [], ◌∷◌, In,
}
use loobric_server.Base.Dict.{string_eq}
use loobric_server.Base.Exec.{ok, gets, pure, ◌>>=◌}
use loobric_server.Base.Tables.{IsKeyed}
use loobric_server.Auth.Doors.{doors, passed, door}
use loobric_server.Auth.Users.{get_user_by_id}
use loobric_server.Auth.Accounts.{Sessions, get_session_user}
use loobric_server.Auth.Requests.{
  Env, Request, Caller, credential_of, solo_mode_enabled, open_registration_enabled, presented,
  require_auth, get_authenticated_user, get_optional_user, register,
}
use loobric_server.Auth.Requests.Identity.{anonymous_on_401, get_optional_user-anonymous}
use loobric_server.Auth.Requests.Register.{
  Proves, ByAdmin, Refused, require_auth-Proves, register-ByAdmin,
}
use loobric_server.Auth.Keys.{revoke_key, introspect_key}
use loobric_server.Auth.Keys.Steps.{Survives, SameId, revoke_key-two_steps}
use loobric_server.Auth.Keys.ReadOnly.{introspect_key-read_only}
use loobric_server.Tests.Account.{plain, same_text, ann, key, office}

-- A server with closed registration.
abbrev guarded : Env
guarded = record { solo = ""; open_registration = ""; cookie_secure = ""; auth_enabled = true }

abbrev with_cookie : Request
with_cookie = record { session = some "c1"; authorization = none }

abbrev stale_cookie : Request
stale_cookie = record { session = some "c9"; authorization = none }

abbrev open_sessions : Sessions
open_sessions = ("c1", "ann") ∷ []

abbrev by_cookie : Caller
by_cookie = record {
  auth_channel = some "session";
  scopes = some [];
  api_key_tags = none;
  api_key_id = none;
}

abbrev observer : Caller
observer = record {
  auth_channel = some "api-key";
  scopes = some ("observe" ∷ "read" ∷ []);
  api_key_tags = some [];
  api_key_id = some "k1";
}

is_guarded : solo_mode_enabled same_text plain guarded ≡ false
unfolding solo_mode_enabled
is_guarded = refl

get_optional_user-anonymous_example :
    get_optional_user same_text plain guarded open_sessions stale_cookie office
    ≡ anonymous_on_401
        (get_authenticated_user same_text plain guarded open_sessions stale_cookie office)
get_optional_user-anonymous_example =
    get_optional_user-anonymous same_text plain guarded open_sessions stale_cookie office

cookie_accepted :
    require_auth same_text plain guarded open_sessions with_cookie office
    ≡ (ok (ann, by_cookie), office)
unfolding require_auth presented solo_mode_enabled get_session_user get_user_by_id gets pure ◌>>=◌
cookie_accepted = refl

require_auth-Proves_example : (office ≡ office) × Proves plain open_sessions office with_cookie ann
require_auth-Proves_example =
    require_auth-Proves same_text plain guarded open_sessions office with_cookie (ann, by_cookie)
      office is_guarded cookie_accepted

is_closed : open_registration_enabled same_text plain guarded ≡ false
unfolding open_registration_enabled
is_closed = refl

register-ByAdmin_example :
    ByAdmin same_text plain guarded open_sessions office stale_cookie
    ⊎ Refused same_text plain guarded open_sessions office stale_cookie
        (register same_text plain guarded open_sessions stale_cookie "bob@shop" "pw" office)
register-ByAdmin_example =
    register-ByAdmin same_text plain guarded open_sessions office stale_cookie "bob@shop" "pw"
      is_guarded is_closed refl

office_keyed : IsKeyed SameId office.keys
office_keyed x y (inl p) (inl q) e = cc (p, q)
office_keyed x y (inl p) (inr j) e = absurd j
office_keyed x y (inr i) j e = absurd i

revoke_key-two_steps_example :
    (key.user_id ≢ "ann" → In key (revoke_key "ann" "k1" true office).1.keys)
    × (key.is_active ≡ true → Survives key (revoke_key "ann" "k1" true office).1.keys)
revoke_key-two_steps_example =
    revoke_key-two_steps office "ann" "k1" true key office_keyed (inl refl)

introspect_key-read_only_example :
    ((introspect_key (λ xs. xs) office observer).read_only ≡ true)
    ↔ ((d : String) → In d doors → door (d ∷ []) (credential_of observer) ≡ passed → d ≡ "read")
introspect_key-read_only_example = introspect_key-read_only (λ xs. xs) office observer refl
