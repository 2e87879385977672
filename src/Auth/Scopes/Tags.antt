-- ===== src/Auth/Scopes/Tags.antt =====
-- What the tag checks add to the scopes.
use loobric_server.Base.{
  ◌≡◌, refl, ◌↔◌, ◌⊎◌, inl, inr, String, Bool, true, false, List, [], ◌∷◌, any, In, any_iff, any-In,
  arith, Bool-cases,
}
use loobric_server.Base.Exec.{ok, err, permission_denied}
use loobric_server.Auth.Doors.{member}
use loobric_server.Auth.Doors.Held.{member_iff}
use loobric_server.Auth.Scopes.{
  has_scope, check_tag_access, check_tag_scope_access, require, require_tag_scope_access,
}
use loobric_server.Auth.Scopes.Grants.{Grants, has_scope-Grants}

-- The tags of the key let it at the resource: neither side is tagged, or they share a tag.
pub data TagsMeet (key_tags resource_tags : List String) : Type 0 where
  key_untagged : key_tags ≡ [] → TagsMeet key_tags resource_tags
  resource_untagged : resource_tags ≡ [] → TagsMeet key_tags resource_tags
  shared : (tag : String) → In tag key_tags → In tag resource_tags → TagsMeet key_tags resource_tags

check_tag_access-TagsMeet :
    (key_tags resource_tags : List String)
    → (check_tag_access key_tags resource_tags ≡ true) ↔ TagsMeet key_tags resource_tags
unfolding check_tag_access
check_tag_access-TagsMeet [] rs = (λ h. key_untagged refl, λ m. refl)
check_tag_access-TagsMeet (t ∷ ts) [] = (λ h. resource_untagged refl, λ m. refl)
check_tag_access-TagsMeet (t ∷ ts) (r ∷ rs) = (
  λ h.
      let (tag, i, e) = any_iff (λ tag. member tag (r ∷ rs)) (t ∷ ts) h in
      shared tag i ((member_iff tag (r ∷ rs)).0 e),
  λ m. meets m,
)
  where
    meets : TagsMeet (t ∷ ts) (r ∷ rs) → any (λ tag. member tag (r ∷ rs)) (t ∷ ts) ≡ true
    meets (key_untagged e) = absurd (cons_ne e)
      where
        cons_ne : (t ∷ ts) ≡ [] → ⊥
        cons_ne h = cc h
    meets (resource_untagged e) = absurd (cons_ne e)
      where
        cons_ne : (r ∷ rs) ≡ [] → ⊥
        cons_ne h = cc h
    meets (shared tag i j) =
        any-In (λ x. member x (r ∷ rs)) tag (t ∷ ts) i ((member_iff tag (r ∷ rs)).1 j)

require_iff : (b : Bool) → (require b ≡ ok tt) ↔ (b ≡ true)
require_iff true = (λ h. refl, λ h. refl)
require_iff false = (λ h. absurd (differ h), λ h. ground arith)
  where
    differ : err permission_denied ≡ ok tt → ⊥
    differ h = cc h

require_total : (b : Bool) → (require b ≡ ok tt) ⊎ (require b ≡ err permission_denied)
require_total true = inl refl
require_total false = inr refl

check_tag_scope_access_iff :
    (scopes key_tags resource_tags : List String)
    → (check_tag_scope_access scopes key_tags resource_tags ≡ true) ↔ (
        (Grants scopes "admin:*" ⊎ (Grants scopes "read:all" ⊎ Grants scopes "write:all"))
        ⊎ TagsMeet key_tags resource_tags)
unfolding check_tag_scope_access
check_tag_scope_access_iff scopes key_tags resource_tags =
    let (admin, admin') = has_scope-Grants scopes "admin:*" in
    let (read, read') = has_scope-Grants scopes "read:all" in
    let (write, write') = has_scope-Grants scopes "write:all" in
    let (meet, meet') = check_tag_access-TagsMeet key_tags resource_tags in
    elim (Bool-cases (has_scope scopes "admin:*")) [
      | inl a ↦ rw a (λ h. inl (inl (admin a)), λ g. refl)
      | inr a ↦ elim (Bool-cases (has_scope scopes "read:all")) [
        | inl r ↦ rw (a, r) (λ h. inl (inr (inl (read r))), λ g. refl)
        | inr r ↦ elim (Bool-cases (has_scope scopes "write:all")) [
          | inl w ↦ rw (a, r, w) (λ h. inl (inr (inr (write w))), λ g. refl)
          | inr w ↦
              rw (a, r, w)
                (
                  λ h. inr (meet h),
                  λ g. elim g [
                    | inl (inl x) ↦ absurd (clash a (admin' x))
                    | inl (inr (inl x)) ↦ absurd (clash r (read' x))
                    | inl (inr (inr x)) ↦ absurd (clash w (write' x))
                    | inr m ↦ meet' m
                  ],
                )
        ]
      ]
    ]
  where
    clash : {b : Bool} → b ≡ false → b ≡ true → ⊥
    clash f t = ground arith

-- `require_tag_scope_access` returns exactly when the scopes grant `admin:*`, `read:all` or
-- `write:all` or the tags meet, whatever the action; otherwise it raises.
pub require_tag_scope_access-Grants :
    (scopes key_tags resource_tags : List String)
    → ((require_tag_scope_access scopes key_tags resource_tags ≡ ok tt) ↔ (
        (Grants scopes "admin:*" ⊎ (Grants scopes "read:all" ⊎ Grants scopes "write:all"))
        ⊎ TagsMeet key_tags resource_tags))
      × ((require_tag_scope_access scopes key_tags resource_tags ≡ ok tt)
          ⊎ (require_tag_scope_access scopes key_tags resource_tags ≡ err permission_denied))
unfolding require_tag_scope_access
require_tag_scope_access-Grants scopes key_tags resource_tags =
    let b = check_tag_scope_access scopes key_tags resource_tags in
    let (to, from) = check_tag_scope_access_iff scopes key_tags resource_tags in
    let (on, back) = require_iff b in ((λ h. to (on h), λ g. back (from g)), require_total b)
