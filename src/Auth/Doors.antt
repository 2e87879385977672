-- ===== src/Auth/Doors.antt =====
-- auth/doors.py: the door scopes of API keys. A request carries the channel and the scopes that
-- `get_authenticated_user` stored on `request.state`; a dependency returns the user or raises.
--
-- A set of scopes is a list. The two texts of a 403 are `legacy_key` and `lacks`.
pub mod Held
pub mod Granted
use loobric_server.Base.{
  String, Bool, true, false, not, ◌&&◌, ◌||◌, Option, none, some, List, [], ◌∷◌, filter, any, every,
  str_eq, opt_is, if◌then◌else◌,
}

abbrev pub doors : List String
doors = "read" ∷ "sync" ∷ "observe" ∷ "assert" ∷ "bind" ∷ "delete" ∷ "admin" ∷ []

pub data Refusal : Type 0 where
  legacy_key no_keys : Refusal
  lacks : String → Refusal
  lacks_any : List String → Refusal
  unknown_door : List String → Refusal

pub data Outcome : Type 0 where
  passed : Outcome
  refused : Refusal → Outcome

-- What `request.state` holds once the request is authenticated.
pub record Credential : Type 0 where
  pub auth_channel : Option String
  pub scopes : Option (List String)

-- `x in xs`
abbrev pub member : String → List String → Bool
member x xs = any (str_eq x) xs

-- `scopes or []`
abbrev pub scopes_or_empty : Option (List String) → List String
scopes_or_empty none = []
scopes_or_empty (some xs) = xs

abbrev is_empty : List String → Bool
is_empty [] = true
is_empty (x ∷ xs) = false

-- `s and s.issubset(DOORS)`
unfoldable pub is_current : List String → Bool
is_current s = not (is_empty s) && every (λ d. member d doors) s

unfoldable pub is_legacy : Option (List String) → Bool
unfolding is_current
is_legacy scopes = not (is_current (scopes_or_empty scopes))

unfoldable pub effective_doors : Option (List String) → List String
unfolding is_current
effective_doors scopes = let s = scopes_or_empty scopes in if is_current s then s else "read" ∷ []

-- `[d for d in required if d not in held]`
unfoldable pub missing : List String → List String → List String
missing required held = filter (λ d. not (member d held)) required

abbrev pub refuse_missing : Option (List String) → List String → Outcome
refuse_missing scopes [] = passed
refuse_missing scopes (d ∷ ds) = if is_legacy scopes then refused legacy_key else refused (lacks d)

abbrev is_key : Credential → Bool
is_key c = opt_is c.auth_channel "api-key"

unfoldable pub check_doors : Credential → List String → Outcome
check_doors c required =
    if not (is_key c)
    then passed
    else refuse_missing c.scopes (missing required (effective_doors c.scopes))

abbrev pub unknown_doors : List String → List String
unknown_doors required = filter (λ d. not (member d doors)) required

abbrev when_known : List String → Outcome → Outcome
when_known [] o = o
when_known (d ∷ ds) o = refused (unknown_door (d ∷ ds))

-- `door(*required)`, and the dependency that it gives.
unfoldable pub door : List String → Credential → Outcome
door required c = when_known (unknown_doors required) (check_doors c required)

-- `door_any(*alternatives)`
unfoldable pub door_any : List String → Credential → Outcome
door_any alternatives c = when_known (unknown_doors alternatives) (
    if not (is_key c) || any (λ d. member d alternatives) (effective_doors c.scopes)
    then passed
    else if is_legacy c.scopes
    then refused legacy_key
    else refused (lacks_any alternatives))

-- `session_or_solo_only()`
unfoldable pub session_or_solo_only : Credential → Outcome
session_or_solo_only c = if is_key c then refused no_keys else passed
