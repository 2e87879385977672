-- ===== src/Auth/Keys/Steps.antt =====
-- `revoke_key` of api/auth.py: what one call may do to the keys.
use loobric_server.Base.{
  ◌≡◌, refl, ◌≢◌, ◌⊎◌, inl, inr, ap, sym, ◌∙◌, String, Bool, true, false, not, Option, none, some,
  List, find?-In, update_where, delete_where, In, arith, Bool-cases, str_eq, str_eq_iff,
  if◌then◌else◌,
}
use loobric_server.Base.Tables.{
  In-delete_where_miss, In-update_where_hit, In-update_where_miss, IsKeyed,
}
use loobric_server.Base.Exec.{Exec, raise, ◌>>=◌, not_found, conflict}
use loobric_server.Auth.Users.{Accounts, KeyRow, commit_accounts}
use loobric_server.Auth.Accounts.{get_api_key_by_id, revoked, revoke_api_key, delete_api_key}
use loobric_server.Auth.Keys.{value_error_as, revoke_key}

-- What is left of a key: itself, or its revoked row.
abbrev pub Survives : KeyRow → List KeyRow → Type 0
Survives k keys = In k keys ⊎ In (revoked k) keys

revoke_api_key-keys :
    (a : Accounts) (k : KeyRow) (key_id : String)
    → get_api_key_by_id a key_id ≡ some k
    → (revoke_api_key key_id a).1.keys
      ≡ update_where (λ (r : KeyRow). str_eq r.id k.id) revoked a.keys
unfolding revoke_api_key commit_accounts ◌>>=◌
revoke_api_key-keys a k key_id h = ground arith

delete_api_key-keys :
    (a : Accounts) (k : KeyRow) (key_id : String)
    → get_api_key_by_id a key_id ≡ some k
    → (delete_api_key key_id a).1.keys ≡ delete_where (λ (r : KeyRow). str_eq r.id k.id) a.keys
unfolding delete_api_key commit_accounts ◌>>=◌
delete_api_key-keys a k key_id h = ground arith

-- The keys are as before, or the user's key `k` was revoked, or `k`, already revoked, is gone.
abbrev IsStep : List KeyRow → String → List KeyRow → Type 0
IsStep keys user_id keys' =
    (keys' ≡ keys)
    ⊎ ((k : KeyRow) × In k keys
        × (k.user_id ≡ user_id)
        × ((keys' ≡ update_where (λ (r : KeyRow). str_eq r.id k.id) revoked keys)
            ⊎ ((k.is_active ≡ false)
                × (keys' ≡ delete_where (λ (r : KeyRow). str_eq r.id k.id) keys))))

revoke_key-IsStep :
    (a : Accounts) (user_id key_id : String) (purge : Bool)
    → IsStep a.keys user_id (revoke_key user_id key_id purge a).1.keys
unfolding revoke_key value_error_as get_api_key_by_id ◌>>=◌
revoke_key-IsStep a user_id key_id purge = go (get_api_key_by_id a key_id) refl
  where
    go :
        (o : Option KeyRow)
        → get_api_key_by_id a key_id ≡ o
        → IsStep a.keys user_id (revoke_key user_id key_id purge a).1.keys
    go none h = rw h (inl refl)
    go (some k) h =
        rw h (own purge (Bool-cases (str_eq k.user_id user_id)) (Bool-cases k.is_active))
      where
        row : In k a.keys
        row = (find?-In (λ (r : KeyRow). str_eq r.id key_id) k a.keys h).0

        own :
            (p : Bool)
            → (str_eq k.user_id user_id ≡ true) ⊎ (str_eq k.user_id user_id ≡ false)
            → (k.is_active ≡ true) ⊎ (k.is_active ≡ false)
            → IsStep a.keys user_id
                (if◌then◌else◌ {A = Exec Accounts (Unit {0})}
                  (not (str_eq k.user_id user_id))
                  (raise not_found)
                  (if not p
                    then value_error_as not_found (revoke_api_key key_id)
                    else if k.is_active
                    then raise conflict
                    else value_error_as not_found (delete_api_key key_id))
                  a).1.keys
        own p (inr e) act = rw e (inl refl)
        own false (inl e) act = rw e (
            inr
              (k, row, (str_eq_iff k.user_id user_id).0 e, inl (revoke_api_key-keys a k key_id h)))
        own true (inl e) (inl on) = rw (e, on) (inl refl)
        own true (inl e) (inr off) =
            rw (e, off)
              (inr (
                k,
                row,
                (str_eq_iff k.user_id user_id).0 e,
                inr (off, delete_api_key-keys a k key_id h),
              ))

abbrev pub SameId : KeyRow → KeyRow → Type 0
SameId x y = x.id ≡ y.id

-- When key ids are unique, one call of revoke_key, whoever makes it and on whatever id, leaves the
-- keys of other users as they are, and leaves every key that was active in the table: unchanged, or
-- as its revoked row.
pub revoke_key-two_steps :
    (a : Accounts) (user_id key_id : String) (purge : Bool) (r : KeyRow)
    → IsKeyed SameId a.keys
    → In r a.keys
    → (r.user_id ≢ user_id → In r (revoke_key user_id key_id purge a).1.keys)
      × (r.is_active ≡ true → Survives r (revoke_key user_id key_id purge a).1.keys)
revoke_key-two_steps a user_id key_id purge r keyed i =
    go (revoke_key user_id key_id purge a).1.keys (revoke_key-IsStep a user_id key_id purge)
  where
    go :
        (keys' : List KeyRow)
        → IsStep a.keys user_id keys'
        → (r.user_id ≢ user_id → In r keys') × (r.is_active ≡ true → Survives r keys')
    go keys' (inl e) = rw e (λ ne. i, λ on. inl i)
    go keys' (inr (k, j, owner, d)) = elim (Bool-cases (str_eq r.id k.id)) [
      | inl t ↦
          let same = keyed r k i j ((str_eq_iff r.id k.id).0 t) in
          (
            λ ne. absurd (ne (ap (λ (x : KeyRow). x.user_id) same ∙ owner)),
            λ on. elim d [
              | inl e ↦ inr (rw e (In-update_where_hit (hit k) revoked r a.keys i t))
              | inr (off, e) ↦
                  absurd (on_and_off (sym (ap (λ (x : KeyRow). x.is_active) same) ∙ on) off)
            ],
          )
      | inr t ↦
          let stays : In r keys' = elim d [
            | inl e ↦ rw e (In-update_where_miss (hit k) revoked r a.keys i t)
            | inr (off, e) ↦ rw e (In-delete_where_miss (hit k) r a.keys i t)
          ] in
          (λ ne. stays, λ on. inl stays)
    ]
      where
        hit : KeyRow → KeyRow → Bool
        hit k x = str_eq x.id k.id

        on_and_off : {b : Bool} → b ≡ true → b ≡ false → ⊥
        on_and_off t f = ground arith
