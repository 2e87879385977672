-- ===== src/Auth/Accounts/Revoked.antt =====
-- `revoke_api_key` of auth/apikey.py and `deactivate_user` of auth/user.py.
use loobric_server.Base.{
  ◌≡◌, refl, ◌≢◌, inl, inr, ap, sym, ◌∙◌, String, Bool, true, false, not, Option, none, some,
  some_inj, List, find?-In, filter, filter-In, update_where, In, arith, Bool-cases, str_eq,
  str_eq_iff, if◌then◌else◌,
}
use loobric_server.Base.Tables.{In-update_where, find?-update_where}
use loobric_server.Base.Dict.{lookup, string_eq}
use loobric_server.Base.Exec.{ok, ◌>>=◌}
use loobric_server.Store.Unique.{unique_on-update_where}
use loobric_server.Auth.Users.{
  Accounts, UserRow, KeyRow, Bcrypt, StrMethods, columns_hold, commit_accounts, verify_password,
  get_user_by_id, get_user_by_email, authenticate_user, inactive_user, deactivate_user, checked,
}
use loobric_server.Auth.Accounts.{
  Sessions, Validated, is_expired, matching_key, validate_api_key, get_api_key_by_id, revoked,
  revoke_api_key, get_session_user, of_key, of_user,
}

pub none_ne : {A : Type 0} {x : A} → none ≡ some x → ⊥
none_ne h = ground arith

abbrev key_id_of : Validated → String
key_id_of (_, _, _, id) = id

of_user-some :
    (k : KeyRow) (o : Option UserRow) (u : UserRow) (scopes tags : List String) (id : String)
    → of_user k o ≡ some (u, scopes, tags, id)
    → (o ≡ some u) × (u.is_active ≡ true) × (k.id ≡ id)
of_user-some k none u scopes tags id h = absurd (none_ne h)
of_user-some k (some v) u scopes tags id h = pick v.is_active refl h
  where
    pick :
        (b : Bool)
        → v.is_active ≡ b
        → if◌then◌else◌ {A = Option Validated} (not b) none (some (v, k.scopes, k.tags, k.id))
          ≡ some (u, scopes, tags, id)
        → (some v ≡ some u) × (u.is_active ≡ true) × (k.id ≡ id)
    pick true e q =
        let p =
          some_inj {A = Validated} {a = (v, k.scopes, k.tags, k.id)} {b = (u, scopes, tags, id)}
            q in
        let same : v ≡ u = ap (λ (t : Validated). t.0) p in
        (ap (λ x. some x) same, ap (λ (r : UserRow). r.is_active) (sym same) ∙ e, ap key_id_of p)
    pick false e q = absurd (none_ne q)

pub of_key-some :
    (a : Accounts) (o : Option KeyRow) (u : UserRow) (scopes tags : List String) (id : String)
    → of_key a o ≡ some (u, scopes, tags, id)
    → (k : KeyRow) × (o ≡ some k)
      × (get_user_by_id a k.user_id ≡ some u)
      × (u.is_active ≡ true)
      × (k.id ≡ id)
of_key-some a none u scopes tags id h = absurd (none_ne h)
of_key-some a (some k) u scopes tags id h = elim (Bool-cases (is_expired a.now k.expires_at)) [
  | inl e ↦ absurd (none_ne (rw e at h))
  | inr e ↦
      let (found, on, same) =
        of_user-some k (get_user_by_id a k.user_id) u scopes tags id (rw e at h) in
      (k, refl, found, on, same)
]

-- A key that validates is active, and so is its user.
validate-active :
    (bcrypt : Bcrypt) (a : Accounts) (plain_key : String) (u : UserRow) (scopes tags : List String)
    (id : String)
    → validate_api_key bcrypt a plain_key ≡ some (u, scopes, tags, id)
    → (k : KeyRow) × In k a.keys
      × (k.is_active ≡ true)
      × (k.id ≡ id)
      × In u a.users
      × (u.is_active ≡ true)
unfolding validate_api_key matching_key get_user_by_id
validate-active bcrypt a plain_key u scopes tags id h =
    let (k, e, found, on, same) =
      of_key-some a (matching_key bcrypt a plain_key) u scopes tags id h in
    let (i, _) =
      find?-In (λ r. verify_password bcrypt plain_key r.key_hash) k
        (filter (λ (r : KeyRow). r.is_active) a.keys) e in
    let (j, act) = (filter-In (λ (r : KeyRow). r.is_active) k a.keys).0 i in
    let (row, _) = find?-In (λ r. str_eq r.id k.user_id) u a.users found in
    (k, j, act, same, row, on)

-- Over accounts whose UNIQUE columns hold, revoking a key that exists returns, and from then on no
-- text validates as that key.
pub revoke_api_key-validate :
    (bcrypt : Bcrypt) (a : Accounts) (key_id : String) (k : KeyRow)
    → columns_hold a ≡ true
    → get_api_key_by_id a key_id ≡ some k
    → (a' : Accounts) × (revoke_api_key key_id a ≡ (ok tt, a'))
      × ((plain_key : String) (u : UserRow) (scopes tags : List String) (id : String)
          → validate_api_key bcrypt a' plain_key ≡ some (u, scopes, tags, id)
          → id ≢ key_id)
unfolding revoke_api_key get_api_key_by_id revoked commit_accounts columns_hold ◌>>=◌
revoke_api_key-validate bcrypt a key_id k h found =
    let (row, t) = find?-In (λ (r : KeyRow). str_eq r.id key_id) k a.keys found in
    let same = (str_eq_iff k.id key_id).0 t in
    let hit = λ (r : KeyRow). str_eq r.id k.id in
    let a' : Accounts = record a { keys = update_where hit revoked a.keys } in
    let keep =
      unique_on-update_where (λ (r : KeyRow). some r.key_hash) hit revoked (λ r. refl) a.keys in
    let holds : columns_hold a' ≡ true = rw keep h in
    (
      a',
      rw found (rw holds refl),
      λ plain_key u scopes tags id v e.
          let (k', i, act, has_id, _, _) = validate-active bcrypt a' plain_key u scopes tags id v in
          let (y, _, d) = In-update_where hit revoked k' a.keys i in
          elim d [
            | inl (q, w) ↦ ground (arith, ap (λ (r : KeyRow). r.is_active) w)
            | inr (q, w) ↦ clash q (
                (str_eq_iff y.id k.id).1
                  (ap (λ (r : KeyRow). r.id) (sym w) ∙ has_id ∙ e ∙ sym same))
          ],
    )
  where
    clash : {b : Bool} → b ≡ false → b ≡ true → ⊥
    clash f t = ground arith

checked-some :
    (bcrypt : Bcrypt) (password : String) (o : Option UserRow) (v : UserRow)
    → checked bcrypt password o ≡ some v
    → (o ≡ some v) × (v.is_active ≡ true)
checked-some bcrypt password none v h = absurd (none_ne h)
checked-some bcrypt password (some u) v h =
    pick u.is_active (verify_password bcrypt password u.password_hash) refl h
  where
    pick :
        (b c : Bool)
        → u.is_active ≡ b
        → (if not b then none else if not c then none else some u) ≡ some v
        → (some u ≡ some v) × (v.is_active ≡ true)
    pick true true e q = (q, ap (λ (r : UserRow). r.is_active) (sym (some_inj q)) ∙ e)
    pick true false e q = absurd (none_ne q)
    pick false c e q = absurd (none_ne q)

-- An active user of the updated table is not the one that was deactivated.
still_active :
    (user_id : String) (v : UserRow) (users : List UserRow)
    → In v (update_where (λ r. str_eq r.id user_id) inactive_user users)
    → v.is_active ≡ true
    → v.id ≢ user_id
unfolding inactive_user
still_active user_id v users i on e =
    let (y, _, d) = In-update_where (λ r. str_eq r.id user_id) inactive_user v users i in
    elim d [
      | inl (q, w) ↦ ground (arith, ap (λ (r : UserRow). r.is_active) w)
      | inr (q, w) ↦ ground (arith, str_eq_iff y.id user_id, ap (λ (r : UserRow). r.id) w)
    ]

module _ (a : Accounts) (user_id : String) (u : UserRow) where
  -- The accounts after the user is deactivated.
  abbrev without : Accounts
  without = record a {
    users = update_where (λ (r : UserRow). str_eq r.id user_id) inactive_user a.users;
  }

  deactivate_ok :
      columns_hold a ≡ true
      → get_user_by_id a user_id ≡ some u
      → deactivate_user user_id a ≡ (ok tt, without)
  unfolding deactivate_user get_user_by_id commit_accounts columns_hold inactive_user ◌>>=◌
  deactivate_ok h found =
      let (row, t) = find?-In (λ (r : UserRow). str_eq r.id user_id) u a.users found in
      let same = (str_eq_iff u.id user_id).0 t in
      let keep =
        unique_on-update_where (λ (r : UserRow). some r.email)
          (λ (r : UserRow). str_eq r.id user_id) inactive_user (λ r. refl) a.users in
      let holds : columns_hold without ≡ true = rw keep h in rw (found, same) (rw holds refl)

-- Over accounts whose UNIQUE columns hold, deactivating a user who exists returns, and from then on
-- no password and no API key gives that user.
pub deactivate_user-credentials :
    (str : StrMethods) (bcrypt : Bcrypt) (a : Accounts) (user_id : String) (u : UserRow)
    → columns_hold a ≡ true
    → get_user_by_id a user_id ≡ some u
    → (a' : Accounts) × (deactivate_user user_id a ≡ (ok tt, a'))
      × ((email password : String) (v : UserRow)
          → authenticate_user str bcrypt a' email password ≡ some v
          → v.id ≢ user_id)
      × ((plain_key : String) (v : UserRow) (scopes tags : List String) (id : String)
          → validate_api_key bcrypt a' plain_key ≡ some (v, scopes, tags, id)
          → v.id ≢ user_id)
unfolding authenticate_user get_user_by_email
deactivate_user-credentials str bcrypt a user_id u h found =
    let a' = without a user_id u in
    (
      a',
      deactivate_ok a user_id u h found,
      λ email password v e.
          let (f, on) = checked-some bcrypt password (get_user_by_email str a' email) v e in
          let (i, _) =
            find?-In (λ (r : UserRow). str_eq r.email (str.strip (str.lower email))) v a'.users f in
          still_active user_id v a.users i on,
      λ plain_key v scopes tags id e.
          let (_, _, _, _, i, on) = validate-active bcrypt a' plain_key v scopes tags id e in
          still_active user_id v a.users i on,
    )

-- Over accounts whose UNIQUE columns hold, after deactivating a user who exists, a session that the
-- user has open goes on giving the user, now inactive.
pub deactivate_user-session :
    (a : Accounts) (sessions : Sessions) (session_id user_id : String) (u : UserRow)
    → columns_hold a ≡ true
    → get_user_by_id a user_id ≡ some u
    → session_id ≢ ""
    → user_id ≢ ""
    → lookup session_id sessions ≡ some user_id
    → get_session_user sessions (deactivate_user user_id a).1 (some session_id)
      ≡ some (inactive_user u)
unfolding get_user_by_id get_session_user inactive_user
deactivate_user-session a sessions session_id user_id u h found ne named e =
    let hit = λ (r : UserRow). str_eq r.id user_id in
    let (row, t) = find?-In hit u a.users found in
    rw (deactivate_ok a user_id u h found, is_false session_id ne, e, is_false user_id named)
      (find?-update_where hit hit inactive_user a.users (λ r i. kept r) ∙ rw (found, t) refl)
  where
    is_false : (x : String) → x ≢ "" → str_eq x "" ≡ false
    is_false x ne = ground (arith, str_eq_iff x "")

    kept :
        (r : UserRow)
        → str_eq (if str_eq r.id user_id then inactive_user r else r).id user_id
          ≡ str_eq r.id user_id
    kept r = ground arith
