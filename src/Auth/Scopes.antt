-- ===== src/Auth/Scopes.antt =====
-- auth/authorization.py: scope, ownership, machine and tag checks. The `require_` functions raise
-- `PermissionDeniedError`, which is `permission_denied`.
pub mod Grants
pub mod Tags
use loobric_server.Base.{
  String, Bool, true, false, not, ◌&&◌, ◌||◌, Option, none, some, List, [], ◌∷◌, any, str_eq,
  opt_is, concat, if◌then◌else◌,
}
use loobric_server.Base.Exec.{Result, ok, err, permission_denied}
use loobric_server.Auth.Doors.{member}

-- `s.split(":", 1)[0]`, for a text with a colon.
abbrev pub before_colon : String → Option String
before_colon String.[] = none
before_colon (String.◌∷◌ c s) =
    let rest = before_colon s in
    if str_eq (String.◌∷◌ c "") ":"
    then some ""
    else elim rest [ none ↦ none | some a ↦ some (String.◌∷◌ c a) ]

abbrev pub by_wildcard : List String → Option String → Bool
by_wildcard scopes none = false
by_wildcard scopes (some action) = member (concat action ":*") scopes

-- `has_scope`
unfoldable pub has_scope : List String → String → Bool
has_scope [] required = false
has_scope (s ∷ ss) required =
    if member required (s ∷ ss)
    then true
    else if member "admin:*" (s ∷ ss)
    then true
    else if by_wildcard (s ∷ ss) (before_colon required)
    then true
    else str_eq required "read" && member "read" (s ∷ ss)

abbrev pub require : Bool → Result (Unit {0})
require true = ok tt
require false = err permission_denied

unfoldable pub require_scope : List String → String → Result (Unit {0})
require_scope scopes required = require (has_scope scopes required)

unfoldable pub check_resource_ownership : String → String → Bool → Bool
check_resource_ownership user owner is_admin = if is_admin then true else str_eq user owner

unfoldable pub require_resource_ownership : String → String → Bool → Result (Unit {0})
unfolding check_resource_ownership
require_resource_ownership user owner is_admin =
    require (check_resource_ownership user owner is_admin)

unfoldable pub should_filter_by_user : Bool → Bool
should_filter_by_user is_admin = not is_admin

unfoldable pub check_machine_access : Option String → String → Bool
check_machine_access none machine = true
check_machine_access (some m) machine = str_eq m machine

unfoldable pub require_machine_access : Option String → String → Result (Unit {0})
unfolding check_machine_access
require_machine_access restriction machine = require (check_machine_access restriction machine)

unfoldable pub check_tag_access : List String → List String → Bool
check_tag_access [] resource_tags = true
check_tag_access (t ∷ ts) [] = true
check_tag_access (t ∷ ts) (r ∷ rs) = any (λ tag. member tag (r ∷ rs)) (t ∷ ts)

unfoldable pub require_tag_access : List String → List String → Result (Unit {0})
unfolding check_tag_access
require_tag_access key_tags resource_tags = require (check_tag_access key_tags resource_tags)

unfoldable pub check_tag_scope_access : List String → List String → List String → Bool
check_tag_scope_access scopes key_tags resource_tags =
    if has_scope scopes "admin:*"
    then true
    else if has_scope scopes "read:all" || has_scope scopes "write:all"
    then true
    else check_tag_access key_tags resource_tags

unfoldable pub require_tag_scope_access :
    List String → List String → List String → Result (Unit {0})
require_tag_scope_access scopes key_tags resource_tags =
    require (check_tag_scope_access scopes key_tags resource_tags)
