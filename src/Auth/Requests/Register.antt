-- ===== src/Auth/Requests/Register.antt =====
-- Who may make an account: `register` of api/auth.py behind the credentials of `require_auth`.
use loobric_server.Base.{
  ◌≡◌, ◌⊎◌, ◌∙◌, subst, refl, inl, inr, sym, ap, some_inj, String, true, false, Option, none, some,
  List, In, length, nat_eq, find?-In, filter, filter-In, Bool-cases, str_eq,
}
use loobric_server.Base.Dict.{lookup, string_eq}
use loobric_server.Base.Exec.{
  Error, Result, ok, err, unauthorized, forbidden, raise, or_raise, pure, gets, ◌>>=◌,
}
use loobric_server.Base.Exec.Runs.{pure_inv, raise_inv}
use loobric_server.Auth.Users.{
  UserRow, KeyRow, Accounts, Bcrypt, StrMethods, verify_password, get_user_by_id,
}
use loobric_server.Auth.Accounts.{
  Sessions, Validated, is_expired, matching_key, validate_api_key, get_session_user,
  user_of_session,
}
use loobric_server.Auth.Accounts.Revoked.{of_key-some, none_ne}
use loobric_server.Auth.Requests.{
  Env, Request, Caller, bearer_key, solo_mode_enabled, open_registration_enabled, presented,
  holder_of, key_holder, by_session, require_auth, admit, register,
}
use loobric_server.Auth.Requests.Identity.{require_auth-strict}

-- What proves that a request comes from a user: the cookie of an open session of theirs, or the
-- text of an active key of theirs that has not expired, while their account is active.
pub data Proves (bcrypt : Bcrypt) (sessions : Sessions) (a : Accounts) (req : Request) (u : UserRow)
    : Type 0 where
  session_cookie :
      (session_id user_id : String)
      → req.session ≡ some session_id
      → lookup session_id sessions ≡ some user_id
      → get_user_by_id a user_id ≡ some u
      → Proves bcrypt sessions a req u
  api_key :
      (plain_key : String) (k : KeyRow)
      → bearer_key req.authorization ≡ some plain_key
      → In k a.keys
      → k.is_active ≡ true
      → verify_password bcrypt plain_key k.key_hash ≡ true
      → is_expired a.now k.expires_at ≡ false
      → get_user_by_id a k.user_id ≡ some u
      → u.is_active ≡ true
      → Proves bcrypt sessions a req u

module _ (bcrypt : Bcrypt) (sessions : Sessions) (a : Accounts) (req : Request) where
  session-Proves :
      (o : Option String) (u : UserRow)
      → req.session ≡ o
      → get_session_user sessions a o ≡ some u
      → Proves bcrypt sessions a req u
  unfolding get_session_user
  session-Proves none u e h = absurd (none_ne h)
  session-Proves (some session_id) u e h = elim (Bool-cases (str_eq session_id "")) [
    | inl t ↦ absurd (none_ne (rw t at h))
    | inr t ↦ go (lookup session_id sessions) refl (rw t at h)
  ]
    where
      go :
          (o : Option String)
          → lookup session_id sessions ≡ o
          → user_of_session a o ≡ some u
          → Proves bcrypt sessions a req u
      go none l h = absurd (none_ne h)
      go (some user_id) l h = elim (Bool-cases (str_eq user_id "")) [
        | inl t ↦ absurd (none_ne (rw t at h))
        | inr t ↦ session_cookie session_id user_id e l (rw t at h)
      ]

  key-Proves :
      (plain_key : String) (u : UserRow) (scopes tags : List String) (id : String)
      → bearer_key req.authorization ≡ some plain_key
      → validate_api_key bcrypt a plain_key ≡ some (u, scopes, tags, id)
      → Proves bcrypt sessions a req u
  unfolding validate_api_key matching_key
  key-Proves plain_key u scopes tags id e h =
      let (k, m, found, on, same) =
        of_key-some a (matching_key bcrypt a plain_key) u scopes tags id h in
      let (i, v) =
        find?-In (λ r. verify_password bcrypt plain_key r.key_hash) k
          (filter (λ (r : KeyRow). r.is_active) a.keys) m in
      let (j, act) = (filter-In (λ (r : KeyRow). r.is_active) k a.keys).0 i in
      elim (Bool-cases (is_expired a.now k.expires_at)) [
        | inl t ↦ absurd (none_ne (rw (m, t) at h))
        | inr t ↦ api_key plain_key k e j act v t found on
      ]

module _ (str : StrMethods) (bcrypt : Bcrypt) (env : Env) (sessions : Sessions) (a : Accounts)
    (req : Request) where
  holder-Proves :
      (o : Option String) (who : UserRow × Caller)
      → bearer_key req.authorization ≡ o
      → holder_of str bcrypt env a o ≡ some who
      → Proves bcrypt sessions a req who.0
  holder-Proves none who e h = absurd (none_ne h)
  holder-Proves (some plain_key) who e h = go (validate_api_key bcrypt a plain_key) refl h
    where
      go :
          (o : Option Validated)
          → validate_api_key bcrypt a plain_key ≡ o
          → key_holder str bcrypt env o ≡ some who
          → Proves bcrypt sessions a req who.0
      go none v q = absurd (none_ne q)
      go (some (u, scopes, tags, id)) v q =
          subst (Proves bcrypt sessions a req) (ap (λ (w : UserRow × Caller). w.0) (some_inj q))
            (key-Proves bcrypt sessions a req plain_key u scopes tags id e v)

  presented-Proves :
      (who : UserRow × Caller)
      → presented str bcrypt env sessions a req ≡ some who
      → Proves bcrypt sessions a req who.0
  unfolding presented
  presented-Proves who h = go (get_session_user sessions a req.session) refl h
    where
      go :
          (o : Option UserRow)
          → get_session_user sessions a req.session ≡ o
          → (elim o as (λ _. Option (UserRow × Caller)) [
            | some u ↦ some (u, by_session str bcrypt env)
            | none ↦ holder_of str bcrypt env a (bearer_key req.authorization)
          ])
            ≡ some who
          → Proves bcrypt sessions a req who.0
      go none e q = holder-Proves (bearer_key req.authorization) who refl q
      go (some u) e q =
          subst (Proves bcrypt sessions a req) (ap (λ (w : UserRow × Caller). w.0) (some_inj q))
            (session-Proves bcrypt sessions a req req.session u refl e)

  -- When require_auth returns outside solo mode, the accounts are as they were and the user that it
  -- gives is proved by the request: by an open session's cookie, or by an active key that has not
  -- expired, of an active account.
  pub require_auth-Proves :
      (who : UserRow × Caller) (a' : Accounts)
      → solo_mode_enabled str bcrypt env ≡ false
      → require_auth str bcrypt env sessions req a ≡ (ok who, a')
      → (a' ≡ a) × Proves bcrypt sessions a req who.0
  require_auth-Proves who a' s h =
      go (presented str bcrypt env sessions a req) refl
        (sym (require_auth-strict str bcrypt env sessions req a s) ∙ h)
    where
      go :
          (o : Option (UserRow × Caller))
          → presented str bcrypt env sessions a req ≡ o
          → or_raise o unauthorized a ≡ (ok who, a')
          → (a' ≡ a) × Proves bcrypt sessions a req who.0
      go none e q = absurd (raise_inv unauthorized who a a' q)
      go (some w) e q =
          let (same, kept) = pure_inv w who a a' q in
          (kept, presented-Proves who (e ∙ ap (λ x. some x) (sym same)))

  -- A request that proves an administrator.
  abbrev pub ByAdmin : Type 0
  ByAdmin = (admin : UserRow) × (admin.is_admin ≡ true) × Proves bcrypt sessions a req admin

  -- A 401 or a 403 that leaves the accounts as they are.
  abbrev pub Refused : {A : Type 0} → Result A × Accounts → Type 0
  Refused r = ((r.0 ≡ err unauthorized) ⊎ (r.0 ≡ err forbidden)) × (r.1 ≡ a)

  admit-ByAdmin :
      solo_mode_enabled str bcrypt env ≡ false
      → open_registration_enabled str bcrypt env ≡ false
      → ByAdmin
        ⊎ ((e : Error) × ((e ≡ unauthorized) ⊎ (e ≡ forbidden))
            × (admit str bcrypt env sessions req false a ≡ (err e, a)))
  unfolding admit raise pure ◌>>=◌
  admit-ByAdmin s closed = go (presented str bcrypt env sessions a req) refl
    where
      go :
          (o : Option (UserRow × Caller))
          → presented str bcrypt env sessions a req ≡ o
          → ByAdmin
            ⊎ ((e : Error) × ((e ≡ unauthorized) ⊎ (e ≡ forbidden))
                × (admit str bcrypt env sessions req false a ≡ (err e, a)))
      go none q = inr (
        unauthorized,
        inl refl,
        rw (closed, require_auth-strict str bcrypt env sessions req a s, q) refl,
      )
      go (some who) q = elim (Bool-cases who.0.is_admin) [
        | inl e ↦ inl (who.0, e, presented-Proves who q)
        | inr e ↦ inr (
          forbidden,
          inr refl,
          rw (closed, require_auth-strict str bcrypt env sessions req a s, q) (rw e refl),
        )
      ]

  -- Outside solo mode, when registration is closed and there are accounts: either the request proves
  -- an administrator, or register answers 401 or 403 and leaves the accounts exactly as they are.
  pub register-ByAdmin :
      (email password : String)
      → solo_mode_enabled str bcrypt env ≡ false
      → open_registration_enabled str bcrypt env ≡ false
      → nat_eq (length a.users) 0 ≡ false
      → ByAdmin ⊎ Refused (register str bcrypt env sessions req email password a)
  unfolding register gets ◌>>=◌
  register-ByAdmin email password s closed users = elim (admit-ByAdmin s closed) [
    | inl by ↦ inl by
    | inr (e, which, run) ↦ inr (rw (users, run) (which_err e which, refl))
  ]
    where
      failed : Error → Result UserRow
      failed e = err e

      which_err :
          (e : Error)
          → (e ≡ unauthorized) ⊎ (e ≡ forbidden)
          → (failed e ≡ failed unauthorized) ⊎ (failed e ≡ failed forbidden)
      which_err e (inl q) = inl (ap failed q)
      which_err e (inr q) = inr (ap failed q)
