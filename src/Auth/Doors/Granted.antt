-- ===== src/Auth/Doors/Granted.antt =====
-- Which requests the doors let through.
use loobric_server.Base.{
  ◌≡◌, refl, ◌≢◌, ◌↔◌, ◌⊎◌, inl, inr, sym, String, Bool, true, false, not, Option, some, List, [],
  ◌∷◌, filter, any, opt_is, if◌then◌else◌, In, All, subst, any_iff, any-In, filter-In, arith,
  Bool-cases, opt_is_iff,
}
use loobric_server.Auth.Doors.{
  Credential, passed, refused, legacy_key, lacks, lacks_any, doors, member, scopes_or_empty,
  is_current, is_legacy, effective_doors, missing, refuse_missing, unknown_doors, Refusal,
  check_doors, door, door_any,
}
use loobric_server.Auth.Doors.Held.{
  IsCurrent, Holds, unscoped, member_iff, is_current-IsCurrent, not_key, effective-Holds,
  missing_iff, unscoped,
}

All-iff :
    {P Q : String → Type 0} → (xs : List String) → ((x : String) → P x ↔ Q x) → All P xs ↔ All Q xs
All-iff [] h = (λ a. a, λ a. a)
All-iff (x ∷ xs) h =
    let (to, from) = h x in
    let (on, back) = All-iff xs h in (λ a. (to a.0, on a.1), λ a. (from a.0, back a.1))

All-every : {P : String → Type 0} → (xs : List String) → ((x : String) → P x) → All P xs
All-every [] h = tt
All-every (x ∷ xs) h = (h x, All-every xs h)

key_of : (c : Credential) → opt_is c.auth_channel "api-key" ≡ true → c.auth_channel ≡ some "api-key"
key_of c h = (opt_is_iff c.auth_channel "api-key").0 h

refused_ne : {r : Refusal} → refused r ≡ passed → ⊥
refused_ne e = cc e

refuse_missing_iff :
    (scopes : Option (List String)) (ds : List String)
    → (refuse_missing scopes ds ≡ passed) ↔ (ds ≡ [])
refuse_missing_iff scopes [] = (λ h. refl, λ h. refl)
refuse_missing_iff scopes (d ∷ ds) = elim (Bool-cases (is_legacy scopes)) [
  | inl e ↦ rw e (λ h. absurd (refused_ne h), λ h. absurd (cons_ne h))
  | inr e ↦ rw e (λ h. absurd (refused_ne h), λ h. absurd (cons_ne h))
]
  where
    cons_ne : (d ∷ ds) ≡ [] → ⊥
    cons_ne h = cc h

check_doors_iff :
    (c : Credential) (required : List String)
    → (check_doors c required ≡ passed) ↔ All (Holds c) required
unfolding check_doors
check_doors_iff c required = elim (Bool-cases (opt_is c.auth_channel "api-key")) [
  | inr e ↦ rw e (λ h. All-every required (λ d. unscoped (not_key c e)), λ a. refl)
  | inl e ↦
      let (to, from) = refuse_missing_iff c.scopes (missing required (effective_doors c.scopes)) in
      let (on, back) = missing_iff required (effective_doors c.scopes) in
      let (up, down) = All-iff required (λ d. effective-Holds c d (key_of c e)) in
      rw e (λ h. up (on (to h)), λ a. from (back (down a)))
]

known_none : (required : List String) → All (λ d. In d doors) required → unknown_doors required ≡ []
unfolding missing
known_none required a = (missing_iff required doors).1 a

-- For doors that exist, the dependency that `door` gives lets a request through exactly when the
-- credential holds every one of them: a session or solo mode holds all, an API key whose scopes are
-- a non-empty list of doors holds those, and any other API key holds `read` alone.
pub door-Holds :
    (required : List String) (c : Credential)
    → All (λ d. In d doors) required
    → (door required c ≡ passed) ↔ All (Holds c) required
unfolding door
door-Holds required c known = rw (known_none required known) (check_doors_iff c required)

any_alternative :
    (c : Credential) (alternatives : List String)
    → c.auth_channel ≡ some "api-key"
    → (any (λ d. member d alternatives) (effective_doors c.scopes) ≡ true)
      ↔ ((d : String) × In d alternatives × Holds c d)
any_alternative c alternatives key = (
  λ h.
      let (d, i, m) = any_iff (λ d. member d alternatives) (effective_doors c.scopes) h in
      (d, (member_iff d alternatives).0 m, (effective-Holds c d key).0 i),
  λ (d, i, held).
      any-In (λ e. member e alternatives) d (effective_doors c.scopes)
        ((effective-Holds c d key).1 held) ((member_iff d alternatives).1 i),
)

-- For doors that exist, the dependency that `door_any` gives lets a request through exactly when it
-- is not one of an API key or the credential holds one of them.
pub door_any-Holds :
    (alternatives : List String) (c : Credential)
    → All (λ d. In d doors) alternatives
    → (door_any alternatives c ≡ passed)
      ↔ ((c.auth_channel ≢ some "api-key") ⊎ ((d : String) × In d alternatives × Holds c d))
unfolding door_any
door_any-Holds alternatives c known = elim (Bool-cases (opt_is c.auth_channel "api-key")) [
  | inr e ↦ rw (known_none alternatives known, e) (λ h. inl (not_key c e), λ a. refl)
  | inl e ↦
      let (to, from) = any_alternative c alternatives (key_of c e) in
      rw (known_none alternatives known, e)
        (elim (Bool-cases (any (λ d. member d alternatives) (effective_doors c.scopes))) [
          | inl t ↦ rw t (λ h. inr (to t), λ a. refl)
          | inr t ↦ rw t (
            λ h. absurd (no_pass (is_legacy c.scopes) h),
            λ a. elim a [ inl ne ↦ absurd (ne (key_of c e)) | inr w ↦ absurd (clash t (from w)) ],
          )
        ])
]
  where
    no_pass :
        (b : Bool)
        → (if b then refused legacy_key else refused (lacks_any alternatives)) ≡ passed
        → ⊥
    no_pass true h = refused_ne h
    no_pass false h = refused_ne h

    clash : {b : Bool} → b ≡ false → b ≡ true → ⊥
    clash f t = ground arith

missing-head :
    (required held : List String) (d : String) (ds : List String)
    → missing required held ≡ d ∷ ds
    → In d required × (In d held → ⊥)
unfolding missing
missing-head required held d ds h =
    let (i, e) = (filter-In (λ x. not (member x held)) d required).0 (here h) in
    (i, λ m. let t = (member_iff d held).1 m in clash e t)
  where
    here : missing required held ≡ d ∷ ds → In d (filter (λ x. not (member x held)) required)
    here h = rw h (inl refl)

    clash : {b : Bool} → not b ≡ true → b ≡ true → ⊥
    clash f t = ground arith

refusal_of :
    (c : Credential) (required : List String) (ms : List String)
    → c.auth_channel ≡ some "api-key"
    → missing required (effective_doors c.scopes) ≡ ms
    → ((d : String)
        → refuse_missing c.scopes ms ≡ refused (lacks d)
        → In d required × (Holds c d → ⊥))
      × (refuse_missing c.scopes ms ≡ refused legacy_key → IsCurrent (scopes_or_empty c.scopes) → ⊥)
unfolding is_legacy
refusal_of c required [] key e = (λ d h. absurd (not_refused h), λ h. absurd (not_refused h))
  where
    not_refused : {r : Refusal} → passed ≡ refused r → ⊥
    not_refused h = cc h
refusal_of c required (m ∷ ms) key e = elim (Bool-cases (is_current (scopes_or_empty c.scopes))) [
  | inl t ↦ rw t (
    λ d h.
        subst (λ x. In x required × (Holds c x → ⊥)) (same h)
          (let (i, out) = missing-head required (effective_doors c.scopes) m ms e in
            (i, λ held. out ((effective-Holds c m key).1 held))),
    λ h. absurd (differ h),
  )
  | inr t ↦ rw t (
    λ d h. absurd (differ (sym h)),
    λ h now. clash t ((is_current-IsCurrent (scopes_or_empty c.scopes)).1 now),
  )
]
  where
    same : {d : String} → refused (lacks m) ≡ refused (lacks d) → m ≡ d
    same h = cc h

    differ : {d : String} → refused (lacks d) ≡ refused legacy_key → ⊥
    differ h = cc h

    clash : {b : Bool} → b ≡ false → b ≡ true → ⊥
    clash f t = ground arith

-- The 403 of `door` names a door that was required and that the credential does not hold; it says
-- that a key is from before the door scopes only of a key whose scopes are no list of doors.
pub door-refusal :
    (required : List String) (c : Credential)
    → All (λ d. In d doors) required
    → ((d : String) → door required c ≡ refused (lacks d) → In d required × (Holds c d → ⊥))
      × (door required c ≡ refused legacy_key → IsCurrent (scopes_or_empty c.scopes) → ⊥)
unfolding door check_doors
door-refusal required c known = elim (Bool-cases (opt_is c.auth_channel "api-key")) [
  | inl e ↦
      rw (known_none required known, e)
        (refusal_of c required (missing required (effective_doors c.scopes)) (key_of c e) refl)
  | inr e ↦
      rw (known_none required known, e) (λ d h. absurd (not_refused h), λ h. absurd (not_refused h))
]
  where
    not_refused : {r : Refusal} → passed ≡ refused r → ⊥
    not_refused h = cc h
