-- ===== src/Tests/Account.antt =====
-- The account of `ann`, with a bcrypt that keeps the password in the clear.
use loobric_server.Base.{
  ◌≡◌, refl, ap, ◌≢◌, inl, inr, String, true, none, some, List, [], ◌∷◌, In, str_eq, str_eq_iff,
}
use loobric_server.Base.Dict.{string_eq}
use loobric_server.Base.Exec.{ok, err, invalid_token}
use loobric_server.Auth.Users.{
  Accounts, UserRow, KeyRow, ResetRow, Bcrypt, StrMethods, columns_hold, verify_password,
  get_user_by_id, authenticate_user, create_user, inactive_user, deactivate_user, matching_reset,
  reset_password_with_token,
}
use loobric_server.Auth.Accounts.{
  get_session_user, get_api_key_by_id, validate_api_key, revoke_api_key,
}
use loobric_server.Auth.Accounts.Credentials.{create_user-authenticate}
use loobric_server.Auth.Accounts.Revoked.{
  revoke_api_key-validate, deactivate_user-credentials, deactivate_user-session,
}
use loobric_server.Auth.Accounts.Resets.{Checks, FitsOne, reset_password_with_token-once}
use loobric_server.Tests.{apart}

abbrev pub plain : Bcrypt
plain = record { gensalt = λ r. r; hashpw = λ p s. p; checkpw = λ p h. some (str_eq p h) }

plain-Checks : Checks plain
plain-Checks p r = ap some ((str_eq_iff p p).1 refl)

abbrev pub same_text : StrMethods
same_text = record { lower = λ s. s; strip = λ s. s }

abbrev pub ann : UserRow
ann = record {
  id = "ann";
  email = "ann@shop";
  password_hash = "old";
  is_active = true;
  is_admin = true;
  version = 1;
}

abbrev pub key : KeyRow
key = record {
  id = "k1";
  user_id = "ann";
  name = "mill";
  key_hash = "secret";
  scopes = "observe" ∷ [];
  tags = [];
  expires_at = none;
  is_active = true;
  version = 1;
}

abbrev ticket : ResetRow
ticket = record { id = "r1"; user_id = "ann"; token_hash = "token"; expires_at = 9 }

abbrev pub office : Accounts
office = record {
  users = ann ∷ [];
  keys = key ∷ [];
  resets = ticket ∷ [];
  tokens = λ n. "t";
  drawn = 0;
  now = 7;
}

office_holds : columns_hold office ≡ true
unfolding columns_hold
office_holds = refl

one_ticket : FitsOne plain office "token"
one_ticket a b (inl p) (inl q) e f = cc (p, q)
one_ticket a b (inl p) (inr j) e f = absurd j
one_ticket a b (inr i) j e f = absurd i

reset_password_with_token-once_example :
    (a' : Accounts) × (u' : UserRow) × (reset_password_with_token plain "token" "new" office
      ≡ (ok tt, a'))
    × (get_user_by_id a' "ann" ≡ some u')
    × (verify_password plain "new" u'.password_hash ≡ true)
    × ((other : String)
        → reset_password_with_token plain "token" other a' ≡ (err invalid_token, a'))
unfolding matching_reset get_user_by_id verify_password
reset_password_with_token-once_example =
    reset_password_with_token-once plain office "token" "new" ticket ann plain-Checks office_holds
      one_ticket refl refl refl

revoke_api_key-validate_example :
    (a' : Accounts) × (revoke_api_key "k1" office ≡ (ok tt, a'))
    × ((plain_key : String) (u : UserRow) (scopes tags : List String) (id : String)
        → validate_api_key plain a' plain_key ≡ some (u, scopes, tags, id)
        → id ≢ "k1")
unfolding get_api_key_by_id
revoke_api_key-validate_example = revoke_api_key-validate plain office "k1" key office_holds refl

deactivate_user-credentials_example :
    (a' : Accounts) × (deactivate_user "ann" office ≡ (ok tt, a'))
    × ((email password : String) (v : UserRow)
        → authenticate_user same_text plain a' email password ≡ some v
        → v.id ≢ "ann")
    × ((plain_key : String) (v : UserRow) (scopes tags : List String) (id : String)
        → validate_api_key plain a' plain_key ≡ some (v, scopes, tags, id)
        → v.id ≢ "ann")
unfolding get_user_by_id
deactivate_user-credentials_example =
    deactivate_user-credentials same_text plain office "ann" ann office_holds refl

deactivate_user-session_example :
    get_session_user (("c1", "ann") ∷ []) (deactivate_user "ann" office).1 (some "c1")
    ≡ some (inactive_user ann)
unfolding get_user_by_id
deactivate_user-session_example =
    deactivate_user-session office (("c1", "ann") ∷ []) "c1" "ann" ann office_holds refl (λ e. cc e)
      (λ e. cc e) refl

new_email : (u : UserRow) → In u office.users → u.email ≢ "bob@shop"
new_email u (inl p) e = apart "ann@shop" "bob@shop" refl (cc (p, e))
new_email u (inr i) e = absurd i

create_user-authenticate_example :
    (a' : Accounts) × (u : UserRow) × (create_user same_text plain "bob@shop" "pw" office
      ≡ (ok u, a'))
    × (u.is_active ≡ true)
    × ((u.is_admin ≡ true → office.users ≡ []) × (office.users ≡ [] → u.is_admin ≡ true))
    × ((spelling : String)
        → spelling ≡ "bob@shop"
        → authenticate_user same_text plain a' spelling "pw" ≡ some u)
create_user-authenticate_example =
    create_user-authenticate same_text plain office "bob@shop" "pw" plain-Checks office_holds
      new_email
