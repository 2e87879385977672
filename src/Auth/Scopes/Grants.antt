-- ===== src/Auth/Scopes/Grants.antt =====
-- `has_scope` beside a relation between the granted scopes and the required one.
use loobric_server.Base.{
  ◌≡◌, refl, ◌≢◌, ◌↔◌, inl, inr, ap, subst, String, true, false, Option, none, some, some_inj, List,
  [], ◌∷◌, str_eq, concat, In, arith, Bool-cases, Option-cases, str_eq_iff,
}
use loobric_server.Auth.Doors.{member}
use loobric_server.Auth.Doors.Held.{member_iff}
use loobric_server.Auth.Scopes.{has_scope, before_colon, by_wildcard}

-- No character of the text is a colon.
abbrev pub HasNoColon : String → Type 0
HasNoColon String.[] = Unit
HasNoColon (String.◌∷◌ c s) = (String.◌∷◌ c "" ≢ ":") × HasNoColon s

-- A required scope is granted as such, by `admin:*`, or by the wildcard of its action, the text
-- before its first colon.
pub data Grants (scopes : List String) (required : String) : Type 0 where
  exactly : In required scopes → Grants scopes required
  by_admin : In "admin:*" scopes → Grants scopes required
  by_action :
      (action entity : String)
      → HasNoColon action
      → required ≡ concat action (concat ":" entity)
      → In (concat action ":*") scopes
      → Grants scopes required

concat_cons : (c : _) (s : String) → concat (String.◌∷◌ c "") s ≡ String.◌∷◌ c s
concat_cons c s = refl

colon_false : (c : _) → str_eq (String.◌∷◌ c "") ":" ≡ false → String.◌∷◌ c "" ≢ ":"
colon_false c e q = ground (arith, str_eq_iff (String.◌∷◌ c "") ":")

colon_true : (c : _) → String.◌∷◌ c "" ≢ ":" → str_eq (String.◌∷◌ c "") ":" ≡ false
colon_true c ne = ground (arith, str_eq_iff (String.◌∷◌ c "") ":")

before_colon-split :
    (s action : String)
    → before_colon s ≡ some action
    → HasNoColon action × ((entity : String) × (s ≡ concat action (concat ":" entity)))
before_colon-split String.[] action h = absurd (none_ne h)
  where
    none_ne : none ≡ some action → ⊥
    none_ne e = ground arith
before_colon-split (String.◌∷◌ c s) action h = elim (Bool-cases (str_eq (String.◌∷◌ c "") ":")) [
  | inl e ↦
      let h' : some "" ≡ some action = rw e at h in
      let nil : "" ≡ action = some_inj h' in
      subst
        (λ a. HasNoColon a × ((entity : String) × (String.◌∷◌ c s ≡ concat a (concat ":" entity))))
        nil (tt, (s, ap (λ x. concat x s) ((str_eq_iff (String.◌∷◌ c "") ":").0 e)))
  | inr e ↦ elim (Option-cases (before_colon s)) [
    | inl n ↦ absurd (none_ne (rw (e, n) at h))
    | inr (a, q) ↦
        let h' : some (String.◌∷◌ c a) ≡ some action = rw (e, q) at h in
        let (plain, (entity, split)) = before_colon-split s a q in
        subst
          (λ b.
            HasNoColon b × ((entity : String) × (String.◌∷◌ c s ≡ concat b (concat ":" entity))))
          (some_inj h') ((colon_false c e, plain), (entity, ap (λ x. String.◌∷◌ c x) split))
  ]
]
  where
    none_ne : none ≡ some action → ⊥
    none_ne e = ground arith

before_colon-concat :
    (action entity : String)
    → HasNoColon action
    → before_colon (concat action (concat ":" entity)) ≡ some action
before_colon-concat String.[] entity n = refl
before_colon-concat (String.◌∷◌ c action) entity n =
    rw (colon_true c n.0, before_colon-concat action entity n.1) refl

wildcard-Grants :
    (scopes : List String) (required : String) (o : Option String)
    → before_colon required ≡ o
    → by_wildcard scopes o ≡ true
    → Grants scopes required
wildcard-Grants scopes required none e h = absurd (false_ne h)
  where
    false_ne : false ≡ true → ⊥
    false_ne h = ground arith
wildcard-Grants scopes required (some action) e h =
    let (n, (entity, split)) = before_colon-split required action e in
    by_action action entity n split ((member_iff (concat action ":*") scopes).0 h)

-- `has_scope` holds exactly when the required scope itself is granted, or `admin:*` is, or the
-- wildcard `<action>:*` is, where the action is the part of the required scope before its first colon.
pub has_scope-Grants :
    (scopes : List String) (required : String)
    → (has_scope scopes required ≡ true) ↔ Grants scopes required
unfolding has_scope
has_scope-Grants [] required = (λ h. absurd (false_ne h), λ g. absurd (nothing g))
  where
    false_ne : false ≡ true → ⊥
    false_ne h = ground arith

    nothing : Grants [] required → ⊥
    nothing (exactly i) = i
    nothing (by_admin i) = i
    nothing (by_action action entity n e i) = i
has_scope-Grants (s ∷ ss) required = (
  λ h. elim (Bool-cases (member required (s ∷ ss))) [
    | inl t ↦ exactly ((member_iff required (s ∷ ss)).0 t)
    | inr t ↦ elim (Bool-cases (member "admin:*" (s ∷ ss))) [
      | inl u ↦ by_admin ((member_iff "admin:*" (s ∷ ss)).0 u)
      | inr u ↦ elim (Bool-cases (by_wildcard (s ∷ ss) (before_colon required))) [
        | inl w ↦ wildcard-Grants (s ∷ ss) required (before_colon required) refl w
        | inr w ↦ ground (arith, str_eq_iff required "read")
      ]
    ]
  ],
  λ g. granted g,
)
  where
    granted : Grants (s ∷ ss) required → has_scope (s ∷ ss) required ≡ true
    granted (exactly i) = let t = (member_iff required (s ∷ ss)).1 i in ground arith
    granted (by_admin i) = let t = (member_iff "admin:*" (s ∷ ss)).1 i in ground arith
    granted (by_action action entity n e i) =
        let cut : before_colon required ≡ some action =
          rw e (before_colon-concat action entity n) in
        let t : by_wildcard (s ∷ ss) (before_colon required) ≡ true =
          rw cut ((member_iff (concat action ":*") (s ∷ ss)).1 i) in
        ground arith
