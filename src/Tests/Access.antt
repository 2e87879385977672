-- ===== src/Tests/Access.antt =====
-- Doors and scopes at concrete credentials.
use loobric_server.Base.{◌≡◌, refl, ◌≢◌, ◌↔◌, ◌⊎◌, inl, inr, String, true, some, [], ◌∷◌, In, All}
use loobric_server.Base.Exec.{ok, err, permission_denied}
use loobric_server.Auth.Doors.{Credential, passed, doors, door, door_any}
use loobric_server.Auth.Doors.Held.{Holds}
use loobric_server.Auth.Doors.Granted.{door-Holds, door_any-Holds}
use loobric_server.Auth.Scopes.{has_scope, require_tag_scope_access}
use loobric_server.Auth.Scopes.Grants.{Grants, has_scope-Grants}
use loobric_server.Auth.Scopes.Tags.{TagsMeet, require_tag_scope_access-Grants}

-- A controller's key.
abbrev controller : Credential
controller = record { auth_channel = some "api-key"; scopes = some ("observe" ∷ "read" ∷ []) }

bind_exists : In "bind" doors
bind_exists = inr (inr (inr (inr (inl refl))))

assert_exists : In "assert" doors
assert_exists = inr (inr (inr (inl refl)))

door-Holds_example : (door ("bind" ∷ []) controller ≡ passed) ↔ All (Holds controller) ("bind" ∷ [])
door-Holds_example = door-Holds ("bind" ∷ []) controller (bind_exists, tt)

door_any-Holds_example : (door_any ("bind" ∷ "assert" ∷ []) controller ≡ passed) ↔ (
    (controller.auth_channel ≢ some "api-key")
    ⊎ ((d : String) × In d ("bind" ∷ "assert" ∷ []) × Holds controller d))
door_any-Holds_example =
    door_any-Holds ("bind" ∷ "assert" ∷ []) controller (bind_exists, (assert_exists, tt))

has_scope-Grants_example :
    (has_scope ("write:*" ∷ []) "write:items" ≡ true) ↔ Grants ("write:*" ∷ []) "write:items"
has_scope-Grants_example = has_scope-Grants ("write:*" ∷ []) "write:items"

require_tag_scope_access-Grants_example :
    ((require_tag_scope_access ("read" ∷ []) ("mill" ∷ []) ("lathe" ∷ []) ≡ ok tt) ↔ (
      (Grants ("read" ∷ []) "admin:*"
        ⊎ (Grants ("read" ∷ []) "read:all" ⊎ Grants ("read" ∷ []) "write:all"))
      ⊎ TagsMeet ("mill" ∷ []) ("lathe" ∷ [])))
    × ((require_tag_scope_access ("read" ∷ []) ("mill" ∷ []) ("lathe" ∷ []) ≡ ok tt)
        ⊎ (require_tag_scope_access ("read" ∷ []) ("mill" ∷ []) ("lathe" ∷ [])
            ≡ err permission_denied))
require_tag_scope_access-Grants_example =
    require_tag_scope_access-Grants ("read" ∷ []) ("mill" ∷ []) ("lathe" ∷ [])
