-- ===== src/Auth/Doors/Held.antt =====
-- What a credential may do, and the doors that the source computes for it.
use loobric_server.Base.{
  ◌≡◌, refl, ◌≢◌, ◌↔◌, inl, inr, sym, String, Bool, true, false, some, List, [], ◌∷◌, every, str_eq,
  opt_is, In, All, subst, any_iff, any-In, arith, Bool-cases, str_eq_iff, opt_is_iff,
}
use loobric_server.Auth.Doors.{
  Credential, doors, member, scopes_or_empty, is_current, effective_doors, missing,
}

-- The scope list is not empty and names doors alone.
abbrev pub IsCurrent : List String → Type 0
IsCurrent scopes = (scopes ≢ []) × All (λ d. In d doors) scopes

-- What a credential may do, by the rules of the plan for scopes: a session and solo mode may do
-- everything, a key may do what its scopes say, and a key from before the door scopes may read.
pub data Holds (c : Credential) (d : String) : Type 0 where
  unscoped : c.auth_channel ≢ some "api-key" → Holds c d
  by_scope : IsCurrent (scopes_or_empty c.scopes) → In d (scopes_or_empty c.scopes) → Holds c d
  legacy_read : (IsCurrent (scopes_or_empty c.scopes) → ⊥) → d ≡ "read" → Holds c d

pub member_iff : (x : String) (xs : List String) → (member x xs ≡ true) ↔ In x xs
member_iff x xs = (
  λ h.
      let (y, i, e) = any_iff (str_eq x) xs h in
      subst (λ z. In z xs) (sym ((str_eq_iff x y).0 e)) i,
  λ i. any-In (str_eq x) x xs i ((str_eq_iff x x).1 refl),
)

every_iff : (xs ys : List String) → (every (λ d. member d ys) xs ≡ true) ↔ All (λ d. In d ys) xs
every_iff [] ys = (λ h. tt, λ h. refl)
every_iff (x ∷ xs) ys =
    let (to, from) = member_iff x ys in
    let (on, back) = every_iff xs ys in
    (
      λ h. (to (ground arith), on (ground arith)),
      λ a. let e = from a.0 in let f = back a.1 in ground arith,
    )

pub is_current-IsCurrent : (scopes : List String) → (is_current scopes ≡ true) ↔ IsCurrent scopes
unfolding is_current
is_current-IsCurrent [] = (λ h. absurd (false_ne h), λ h. absurd (h.0 refl))
  where
    false_ne : false ≡ true → ⊥
    false_ne h = ground arith
is_current-IsCurrent (x ∷ xs) =
    let (to, from) = every_iff (x ∷ xs) doors in (λ h. (λ e. cc e, to h), λ h. from h.1)

pub not_key :
    (c : Credential) → opt_is c.auth_channel "api-key" ≡ false → c.auth_channel ≢ some "api-key"
not_key c h e = ground (arith, opt_is_iff c.auth_channel "api-key")

-- The doors of a key are what it may do.
pub effective-Holds :
    (c : Credential) (d : String)
    → c.auth_channel ≡ some "api-key"
    → In d (effective_doors c.scopes) ↔ Holds c d
unfolding effective_doors
effective-Holds c d key = elim (Bool-cases (is_current (scopes_or_empty c.scopes))) [
  | inl e ↦
      let current = (is_current-IsCurrent (scopes_or_empty c.scopes)).0 e in
      rw e (λ i. by_scope current i, scope current)
  | inr e ↦ rw e (λ i. legacy_read (past e) (only i), read_only e)
]
  where
    scope : IsCurrent (scopes_or_empty c.scopes) → Holds c d → In d (scopes_or_empty c.scopes)
    scope now (unscoped ne) = absurd (ne key)
    scope now (by_scope current i) = i
    scope now (legacy_read old r) = absurd (old now)

    past : is_current (scopes_or_empty c.scopes) ≡ false → IsCurrent (scopes_or_empty c.scopes) → ⊥
    past e h = ground (arith, (is_current-IsCurrent (scopes_or_empty c.scopes)).1 h)

    only : In d ("read" ∷ []) → d ≡ "read"
    only (inl e) = e
    only (inr i) = absurd i

    read_only : is_current (scopes_or_empty c.scopes) ≡ false → Holds c d → In d ("read" ∷ [])
    read_only e (unscoped ne) = absurd (ne key)
    read_only e (by_scope current i) = absurd (past e current)
    read_only e (legacy_read old r) = inl r

pub missing_iff :
    (required held : List String) → (missing required held ≡ []) ↔ All (λ d. In d held) required
unfolding missing
missing_iff [] held = (λ h. tt, λ h. refl)
missing_iff (d ∷ ds) held =
    let (to, from) = member_iff d held in
    let (on, back) = missing_iff ds held in
    elim (Bool-cases (member d held)) [
      | inl e ↦ rw e (λ h. (to e, on h), λ a. back a.1)
      | inr e ↦ rw e (λ h. absurd (cons_ne h), λ a. absurd (clash e (from a.0)))
    ]
  where
    cons_ne : {x : String} {xs : List String} → (x ∷ xs) ≡ [] → ⊥
    cons_ne h = cc h

    clash : {b : Bool} → b ≡ false → b ≡ true → ⊥
    clash f t = ground arith
