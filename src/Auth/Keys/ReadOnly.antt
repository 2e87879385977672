-- ===== src/Auth/Keys/ReadOnly.antt =====
-- `introspect_key` of api/auth.py beside the doors that a key opens.
use loobric_server.Base.{
  ◌≡◌, refl, ◌↔◌, inl, inr, String, Bool, true, some, List, [], ◌∷◌, every, In, opt_is, opt_is_iff,
  str_eq, str_eq_iff, arith, All-In, Bool-cases,
}
use loobric_server.Auth.Doors.{
  Credential, doors, passed, door, is_current, scopes_or_empty, effective_doors,
}
use loobric_server.Auth.Doors.Held.{effective-Holds, is_current-IsCurrent}
use loobric_server.Auth.Doors.Granted.{door-Holds}
use loobric_server.Auth.Users.{Accounts}
use loobric_server.Auth.Requests.{Caller, credential_of}
use loobric_server.Auth.Keys.{introspect_key}

every_at :
    {A : Type 0} (p : A → Bool) (x : A) (xs : List A) → every p xs ≡ true → In x xs → p x ≡ true
every_at p x [] h i = absurd i
every_at p x (y ∷ ys) h (inl e) = rw e (ground arith)
every_at p x (y ∷ ys) h (inr i) = every_at p x ys (ground arith) i

every_from :
    {A : Type 0} (p : A → Bool) (xs : List A) → ((x : A) → In x xs → p x ≡ true) → every p xs ≡ true
every_from p [] h = refl
every_from p (y ∷ ys) h =
    let here = h y (inl refl) in let rest = every_from p ys (λ x i. h x (inr i)) in ground arith

-- A key holds doors that exist.
held_known : (c : Credential) (d : String) → In d (effective_doors c.scopes) → In d doors
unfolding effective_doors
held_known c d i = elim (Bool-cases (is_current (scopes_or_empty c.scopes))) [
  | inl e ↦
      All-In (λ x. In x doors) (scopes_or_empty c.scopes)
        ((is_current-IsCurrent (scopes_or_empty c.scopes)).0 e).1 d (rw e at i)
  | inr e ↦ only (rw e at i)
]
  where
    only : In d ("read" ∷ []) → In d doors
    only (inl q) = inl q
    only (inr j) = absurd j

-- For an API key, introspect_key answers read_only exactly when every door that lets the key
-- through is the door `read`.
pub introspect_key-read_only :
    (sorted : List String → List String) (a : Accounts) (c : Caller)
    → c.auth_channel ≡ some "api-key"
    → ((introspect_key sorted a c).read_only ≡ true)
      ↔ ((d : String) → In d doors → door (d ∷ []) (credential_of c) ≡ passed → d ≡ "read")
unfolding introspect_key
introspect_key-read_only sorted a c key =
    let is_key : opt_is c.auth_channel "api-key" ≡ true =
      (opt_is_iff c.auth_channel "api-key").1 key in
    let cred = credential_of c in
    rw is_key (
      λ h d i p.
          let held = (effective-Holds cred d key).1 ((door-Holds (d ∷ []) cred (i, tt)).0 p).0 in
          (str_eq_iff d "read").0
            (every_at (λ x. str_eq x "read") d (effective_doors c.scopes) h held),
      λ h.
          every_from (λ x. str_eq x "read") (effective_doors c.scopes)
            (λ d i.
              let known = held_known cred d i in
              (str_eq_iff d "read").1 (
                h d known (
                  (door-Holds (d ∷ []) cred (known, tt)).1
                    ((effective-Holds cred d key).0 i, tt)))),
    )
