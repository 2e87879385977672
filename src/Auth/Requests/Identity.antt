-- ===== src/Auth/Requests/Identity.antt =====
-- Who a request acts as: the dependencies of api/auth.py beside each other.
use loobric_server.Base.{
  ◌≡◌, suc, refl, sym, String, Bool, true, false, not, Option, none, some, arith, if◌then◌else◌,
}
use loobric_server.Base.Exec.{
  Exec, Result, ok, err, unauthorized, raise, or_raise, gets, pure, continue, ◌>>=◌,
}
use loobric_server.Auth.Users.{
  UserRow, Accounts, Bcrypt, StrMethods, draw_token, hash_password, commit_accounts, create_user,
  get_user_by_email,
}
use loobric_server.Auth.Accounts.{Sessions}
use loobric_server.Auth.Requests.{
  Env, Request, Caller, solo_mode_enabled, get_or_create, get_solo_user, presented, by_solo,
  require_auth, test_user, get_authenticated_user, get_optional_user,
}

-- A 401 taken as an anonymous caller.
abbrev pub anonymous_on_401 : {A : Type 0} → Result A × Accounts → Result (Option A) × Accounts
anonymous_on_401 (ok x, a) = (ok (some x), a)
anonymous_on_401 (err unauthorized, a) = (ok none, a)
anonymous_on_401 (err e, a) = (err e, a)

abbrev is_401 : {A : Type 0} → Result A → Bool
is_401 (err unauthorized) = true
is_401 r = false

-- A chain that adds to a value, on an action that does not answer 401.
anonymous-bind :
    {A B : Type 0} (m : Exec Accounts A) (f : A → B) (a : Accounts)
    → is_401 (m a).0 ≡ false
    → (m >>= λ x. pure (some (f x))) a ≡ anonymous_on_401 ((m >>= λ x. pure (f x)) a)
unfolding ◌>>=◌
anonymous-bind {A} {B} m f a h = go (m a).0 h
  where
    go :
        (r : Result A)
        → is_401 r ≡ false
        → continue r (λ x. pure (some (f x))) (m a).1
          ≡ anonymous_on_401 (continue r (λ x. pure (f x)) (m a).1)
    go (ok x) h = refl
    go (err e) h = ground arith

anonymous_some :
    {A : Type 0} (m : Exec Accounts A) (a : Accounts)
    → is_401 (m a).0 ≡ false
    → (m >>= λ x. pure (some x)) a ≡ anonymous_on_401 (m a)
unfolding ◌>>=◌
anonymous_some {A} m a h = go (m a).0 h
  where
    go :
        (r : Result A)
        → is_401 r ≡ false
        → continue r (λ x. pure (some x)) (m a).1 ≡ anonymous_on_401 (r, (m a).1)
    go (ok x) h = refl
    go (err e) h = ground arith

bind-known :
    {A B : Type 0} (m : Exec Accounts A) (f : A → B) (a : Accounts)
    → is_401 (m a).0 ≡ false
    → is_401 ((m >>= λ x. pure (f x)) a).0 ≡ false
unfolding ◌>>=◌
bind-known {A} {B} m f a h = go (m a).0 h
  where
    go : (r : Result A) → is_401 r ≡ false → is_401 (continue r (λ x. pure (f x)) (m a).1).0 ≡ false
    go (ok x) h = refl
    go (err e) h = h

module _ (str : StrMethods) (bcrypt : Bcrypt) (env : Env) (sessions : Sessions) (req : Request)
    (a : Accounts) where
  -- Outside solo mode the strict dependency answers for the credential that is presented.
  pub require_auth-strict :
      solo_mode_enabled str bcrypt env ≡ false
      → require_auth str bcrypt env sessions req a
        ≡ or_raise (presented str bcrypt env sessions a req) unauthorized a
  unfolding require_auth ◌>>=◌
  require_auth-strict h = rw h refl

  require_auth-presented :
      solo_mode_enabled str bcrypt env ≡ false
      → gets (λ x. presented str bcrypt env sessions x req) a
        ≡ anonymous_on_401 (require_auth str bcrypt env sessions req a)
  unfolding raise pure gets
  require_auth-presented h =
      rw (require_auth-strict h) (go (presented str bcrypt env sessions a req))
    where
      go :
          (o : Option (UserRow × Caller)) → (ok o, a) ≡ anonymous_on_401 (or_raise o unauthorized a)
      go none = refl
      go (some c) = refl

-- The three modes of both dependencies.
by_mode :
    {A : Type 0} {a : Accounts} (m n k : Exec Accounts A) (m' n' k' : Exec Accounts (Option A))
    (solo auth given : Bool)
    → solo ≡ given
    → m' a ≡ anonymous_on_401 (m a)
    → (given ≡ false → n' a ≡ anonymous_on_401 (n a))
    → k' a ≡ anonymous_on_401 (k a)
    → (if solo then m' else if not auth then k' else n') a
      ≡ anonymous_on_401 ((if solo then m else if auth then n else k) a)
by_mode m n k m' n' k' true auth given e p q r = p
by_mode m n k m' n' k' false true given e p q r = q (sym e)
by_mode m n k m' n' k' false false given e p q r = r

module _ (str : StrMethods) (bcrypt : Bcrypt) where
  create_user-known :
      (email password : String) (a : Accounts)
      → is_401 (create_user str bcrypt email password a).0 ≡ false
  unfolding create_user hash_password draw_token commit_accounts ◌>>=◌
  create_user-known email password a = ground arith

  get_or_create-known :
      (env : Env) (email password : String) (a : Accounts)
      → is_401 (get_or_create str bcrypt env email password a).0 ≡ false
  unfolding get_or_create ◌>>=◌
  get_or_create-known env email password a = go (get_user_by_email str a email)
    where
      go :
          (o : Option UserRow)
          → is_401
              ((elim o as (λ _. Exec Accounts UserRow) [
                | some u ↦ pure u
                | none ↦ create_user str bcrypt email password
              ])
                a).0
            ≡ false
      go none = create_user-known email password a
      go (some u) = refl

  get_solo_user-known :
      (env : Env) (a : Accounts) → is_401 (get_solo_user str bcrypt env a).0 ≡ false
  unfolding get_solo_user draw_token ◌>>=◌
  get_solo_user-known env a = go (get_user_by_email str a "solo@localhost.loobric_server")
    where
      go :
          (o : Option UserRow)
          → is_401
              ((elim o as (λ _. Exec Accounts UserRow) [
                | some u ↦ pure u
                | none ↦ draw_token >>= create_user str bcrypt "solo@localhost.loobric_server"
              ])
                a).0
            ≡ false
      go none =
          create_user-known "solo@localhost.loobric_server" (a.tokens a.drawn)
            (record a { drawn = suc a.drawn })
      go (some u) = refl

  module _ (env : Env) (sessions : Sessions) (req : Request) (a : Accounts) where
    -- get_optional_user does what get_authenticated_user does in the same state: it gives the same
    -- user and caller and leaves the same accounts, it gives none exactly where the strict
    -- dependency answers 401, and it fails as the strict one does otherwise.
    pub get_optional_user-anonymous :
        get_optional_user str bcrypt env sessions req a
        ≡ anonymous_on_401 (get_authenticated_user str bcrypt env sessions req a)
    unfolding get_optional_user get_authenticated_user test_user
    get_optional_user-anonymous =
        by_mode _ _ _ _ _ _ (solo_mode_enabled str bcrypt env) env.auth_enabled
          (solo_mode_enabled str bcrypt env) refl
          (anonymous-bind (get_solo_user str bcrypt env) (λ u. (u, by_solo str bcrypt env none)) a
            (get_solo_user-known env a))
          strict (anonymous_some (test_user str bcrypt env) a test_user-known)
      where
        test_user-known : is_401 (test_user str bcrypt env a).0 ≡ false
        test_user-known =
            bind-known (get_or_create str bcrypt env "test@example.com" "test-password-123") _ a
              (get_or_create-known env "test@example.com" "test-password-123" a)

        strict :
            solo_mode_enabled str bcrypt env ≡ false
            → gets (λ x. presented str bcrypt env sessions x req) a
              ≡ anonymous_on_401 (require_auth str bcrypt env sessions req a)
        strict s = require_auth-presented str bcrypt env sessions req a s
